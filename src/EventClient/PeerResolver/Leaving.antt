-- ===== src/EventClient/PeerResolver/Leaving.antt =====
-- minblockheight.go: when the client leaves its peer.
use fabric_sdk_go_gm.Common.{
  ℕ, ◌+◌, ◌-◌, ◌≤◌, ◌<◌, ◌≡◌, ◌↔◌, true, false, List, some, arith, leb, ltb, ◌==◌, not,
  if◌then◌else◌,
}
use fabric_sdk_go_gm.Common.Int.{pos}
use fabric_sdk_go_gm.Selection.{Peer}
use fabric_sdk_go_gm.Selection.Heights.{get_max_block_height}
use fabric_sdk_go_gm.Service.Dispatcher.{max_uint64}
use fabric_sdk_go_gm.EventClient.PeerResolver.{Params, add_uint64, lags_behind, should_disconnect}

-- How many blocks were received: block numbers start at 0, and MaxUint64 stands for no block.
abbrev pub received : ℕ → ℕ
received last = if last == max_uint64 then 0 else last + 1

add-received : (last : ℕ) → last ≤ max_uint64 → add_uint64 last 1 ≡ received last
add-received last h = ground arith

lags_behind_iff :
    (r : Params) (t last : ℕ) (peers : List Peer) (h : ℕ)
    → r.reconnect_block_height_lag_threshold ≡ pos t
    → (lags_behind r last peers h ≡ true)
      ↔ ((h ≤ add_uint64 last 1) × (add_uint64 last 1 + t < get_max_block_height peers))
unfolding lags_behind
lags_behind_iff r t last peers h e = rw e (test (get_max_block_height peers) (add_uint64 last 1))
  where
    test :
        (m n : ℕ)
        → ((if leb m t then false else if ltb n h then false else not (leb (m - t) n)) ≡ true)
          ↔ ((h ≤ n) × (n + t < m))
    test m n = ((λ f. ground arith), (λ f. ground arith))

-- If the last block number is at most MaxUint64 and the reconnect threshold is not negative, the
-- client leaves a peer with a height exactly if it has received as many blocks as the peer has, and
-- with these it is behind the highest peer by more than the threshold; before the first block the
-- received blocks are counted as none.
pub should_disconnect_iff :
    (r : Params) (t last : ℕ) (peers : List Peer) (connected : Peer) (h : ℕ)
    → r.reconnect_block_height_lag_threshold ≡ pos t
    → connected.block_height ≡ some h
    → last ≤ max_uint64
    → (should_disconnect r last peers connected ≡ true)
      ↔ ((h ≤ received last) × (received last + t < get_max_block_height peers))
unfolding should_disconnect
should_disconnect_iff r t last peers connected h e f l =
    rw f (rw (← add-received last l) (lags_behind_iff r t last peers h e))
