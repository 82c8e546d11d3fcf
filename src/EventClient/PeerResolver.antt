-- ===== src/EventClient/PeerResolver.antt =====
-- pkg/fab/events/client/peerresolver and lbp: which peer the event client connects to, and when it
-- leaves the peer. `last` is the dispatcher's LastBlockNum; whether a text contains another is an
-- argument, and so is the load balancing policy with its state.
pub mod Choosing
pub mod Filtering
pub mod Leaving
pub mod Selecting
pub mod Preferring
pub mod Tests
use fabric_sdk_go_gm.Common.{
  ℕ, zero, suc, ◌+◌, ◌-◌, ◌%◌, ◌^◌, Bool, true, false, not, ◌||◌, List, [], ◌∷◌, Option, none, some,
  length, leb, ltb, ◌==◌, if◌then◌else◌,
}
use fabric_sdk_go_gm.Common.Int.{ℤ, pos, negsuc, is_negative}
use fabric_sdk_go_gm.Common.Text.{Text, text_eq}
use fabric_sdk_go_gm.Common.Outcome.{Outcome}
use fabric_sdk_go_gm.Selection.{Peer}
use fabric_sdk_go_gm.Selection.Heights.{get_max_block_height, accepted_peers}
use fabric_sdk_go_gm.Service.Dispatcher.{max_uint64}

-- The parameters of the minimum block height resolver without its load balancing policy.
pub record Params : Type 0 where
  pub block_height_lag_threshold : ℤ
  pub reconnect_block_height_lag_threshold : ℤ
  pub min_block_height : ℕ

-- The conversion of an int to uint64.
abbrev pub to_uint64 : ℤ → ℕ
to_uint64 (pos n) = n
to_uint64 (negsuc n) = 2 ^ 64 - suc n

abbrev pub add_uint64 : ℕ → ℕ → ℕ
add_uint64 a b = (a + b) % 2 ^ 64

-- The first lines of `Filter`.
unfoldable pub min_height : Params → ℕ → ℕ
min_height r last =
    if r.min_block_height == 0
    then 0
    else if last == max_uint64
    then r.min_block_height
    else if ltb last r.min_block_height
    then r.min_block_height
    else add_uint64 last 1

-- `doFilterByBlockHeight` without a minimum.
unfoldable pub filter_by_lag : Params → List Peer → List Peer
filter_by_lag r peers =
    if is_negative r.block_height_lag_threshold || length peers == 1
    then peers
    else if leb (get_max_block_height peers) (to_uint64 r.block_height_lag_threshold)
    then peers
    else accepted_peers (get_max_block_height peers - to_uint64 r.block_height_lag_threshold) peers

unfoldable pub do_filter_by_block_height : Params → ℕ → List Peer → List Peer
unfolding filter_by_lag
do_filter_by_block_height r zero peers = filter_by_lag r peers
do_filter_by_block_height r (suc m) peers = accepted_peers (suc m) peers

abbrev pub or_else : List Peer → List Peer → List Peer
or_else [] others = others
or_else (p ∷ ps) others = p ∷ ps

-- The attempts of `Filter`, from the minimum height on.
unfoldable pub filter_from : Params → ℕ → List Peer → List Peer
unfolding do_filter_by_block_height
filter_from r zero peers = do_filter_by_block_height r 0 peers
filter_from r (suc m) peers =
    or_else (do_filter_by_block_height r (suc m) peers)
      (or_else (do_filter_by_block_height r m peers) (do_filter_by_block_height r 0 peers))

unfoldable pub filter : Params → ℕ → List Peer → List Peer
unfolding filter_from min_height
filter r last peers = filter_from r (min_height r last) peers

-- `ShouldDisconnect` for a connected peer at a height.
unfoldable pub lags_behind : Params → ℕ → List Peer → ℕ → Bool
lags_behind r last peers height =
    let threshold = to_uint64 r.reconnect_block_height_lag_threshold in
    if leb (get_max_block_height peers) threshold
    then false
    else if ltb (add_uint64 last 1) height
    then false
    else not (leb (get_max_block_height peers - threshold) (add_uint64 last 1))

unfoldable pub should_disconnect : Params → ℕ → List Peer → Peer → Bool
unfolding lags_behind
should_disconnect r last peers connected = elim connected.block_height [
  | none ↦ false
  | some height ↦ lags_behind r last peers height
]

-- The peers of an organization.
unfoldable pub org_peers : Text → List Peer → List Peer
org_peers msp_id [] = []
org_peers msp_id (p ∷ ps) =
    let rest = org_peers msp_id ps in if text_eq p.msp_id msp_id then p ∷ rest else rest

-- The search of preferorg's `ShouldDisconnect`.
unfoldable pub any_of_org : Text → List Peer → Bool
any_of_org msp_id [] = false
any_of_org msp_id (p ∷ ps) = text_eq p.msp_id msp_id || any_of_org msp_id ps

module _ (contains : Text → Text → Bool) where
  unfoldable pub is_preferred : List Text → Peer → Bool
  is_preferred [] p = false
  is_preferred (url ∷ urls) p = contains p.url url || is_preferred urls p

  unfoldable pub get_preferred_peers : List Text → List Peer → List Peer
  get_preferred_peers urls [] = []
  get_preferred_peers urls (p ∷ ps) =
      let rest = get_preferred_peers urls ps in if is_preferred urls p then p ∷ rest else rest

module _ {S : Type 0} (choose : List Peer → Outcome (Option Peer × S)) where
  -- `Resolve` of the balanced resolver and of the minimum block height resolver.
  unfoldable pub resolve_balanced : List Peer → Outcome (Option Peer × S)
  resolve_balanced peers = choose peers

  unfoldable pub resolve_min_block_height : Params → ℕ → List Peer → Outcome (Option Peer × S)
  resolve_min_block_height r last peers = choose (filter r last peers)

  -- `Resolve` of the resolver that prefers an organization.
  unfoldable pub resolve_prefer_org : Params → ℕ → Text → List Peer → Outcome (Option Peer × S)
  resolve_prefer_org r last msp_id peers =
      choose (or_else (org_peers msp_id (filter r last peers)) (filter r last peers))

-- `ShouldDisconnect` of the resolver that prefers an organization.
unfoldable pub should_disconnect_prefer_org : Params → ℕ → Text → List Peer → Peer → Bool
should_disconnect_prefer_org r last msp_id peers connected =
    if text_eq connected.msp_id msp_id
    then should_disconnect r last peers connected
    else if any_of_org msp_id (filter r last peers)
    then true
    else should_disconnect r last peers connected

abbrev pub choose_if_any : {X : Type 0} → (List Peer → X) → List Peer → X → X
choose_if_any choose [] other = other
choose_if_any choose (p ∷ ps) other = choose (p ∷ ps)

module _ (contains : Text → Text → Bool) (urls : List Text) where
  -- `Resolve` of the resolver that prefers peers, with its policy and that of its resolver that prefers
  -- an organization.
  unfoldable pub resolve_prefer_peer :
      {S : Type 0}
      → (List Peer → Outcome (Option Peer × S))
      → (List Peer → Outcome (Option Peer × S))
      → Params
      → ℕ
      → Text
      → List Peer
      → Outcome (Option Peer × S)
  resolve_prefer_peer choose choose_org r last msp_id peers =
      choose_if_any choose (get_preferred_peers contains urls (filter r last peers))
        (resolve_prefer_org choose_org r last msp_id peers)

  -- `ShouldDisconnect` of the resolver that prefers peers.
  unfoldable pub should_disconnect_prefer_peer : Params → ℕ → Text → List Peer → Peer → Bool
  should_disconnect_prefer_peer r last msp_id peers connected =
      if is_preferred contains urls connected
      then should_disconnect_prefer_org r last msp_id peers connected
      else elim (get_preferred_peers contains urls (filter r last peers)) [
        | [] ↦ should_disconnect_prefer_org r last msp_id peers connected
        | p ∷ ps ↦ true
      ]
