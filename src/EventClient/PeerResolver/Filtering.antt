-- ===== src/EventClient/PeerResolver/Filtering.antt =====
-- minblockheight.go: which peers `Filter` leaves.
use fabric_sdk_go_gm.Common.{
  ℕ, zero, suc, ◌+◌, ◌-◌, ◌≤◌, ◌<◌, ◌≡◌, ◌≢◌, refl, sym, true, ◌||◌, List, [], ◌∷◌, Option, none,
  some, arith, All, All-mono, length, leb, ◌==◌, get_elem?, Bool-cases, inl, inr, subst,
}
use fabric_sdk_go_gm.Common.Int.{pos, is_negative}
use fabric_sdk_go_gm.Selection.{Peer}
use fabric_sdk_go_gm.Selection.Heights.{
  get_max_block_height, accepted_peers, IsAtLeast, IsAmong, HasAtLeast, HasAtMost,
  accepted_peers-IsAtLeast, accepted_peers-IsAmong, accepted_peers-ne, accepted_peers-one,
  all-IsAmong, max-HasAtMost,
}
use fabric_sdk_go_gm.EventClient.PeerResolver.{
  Params, to_uint64, min_height, filter_by_lag, do_filter_by_block_height, or_else, filter_from,
  filter,
}

-- A property of a list of peers that all ways through the filter by lag have.
lag-cases :
    (P : List Peer → Type 0) (r : Params) (peers : List Peer)
    → P peers
    → ((c : ℕ) → 0 < c → c ≤ get_max_block_height peers → P (accepted_peers c peers))
    → P (filter_by_lag r peers)
unfolding filter_by_lag
lag-cases P r peers h k =
    elim (Bool-cases (is_negative r.block_height_lag_threshold || length peers == 1)) [
      | inl e ↦ rw e h
      | inr e ↦
          rw e
            (elim (Bool-cases
              (leb (get_max_block_height peers) (to_uint64 r.block_height_lag_threshold))) [
                | inl f ↦ rw f h
                | inr f ↦ rw f (
                    k (get_max_block_height peers - to_uint64 r.block_height_lag_threshold)
                      (ground (arith, f)) (omega arith))
              ])
    ]

filter_by_lag-ne : (r : Params) (peers : List Peer) → peers ≢ [] → filter_by_lag r peers ≢ []
filter_by_lag-ne r peers n =
    lag-cases (λ l. l ≢ []) r peers n (λ c h k. accepted_peers-ne c peers h k)

filter_by_lag-IsAmong :
    (r : Params) (peers : List Peer) → All (IsAmong peers) (filter_by_lag r peers)
filter_by_lag-IsAmong r peers =
    lag-cases (All (IsAmong peers)) r peers (all-IsAmong peers)
      (λ c h k. accepted_peers-IsAmong c peers)

do_filter-IsAmong :
    (r : Params) (m : ℕ) (peers : List Peer)
    → All (IsAmong peers) (do_filter_by_block_height r m peers)
unfolding do_filter_by_block_height
do_filter-IsAmong r zero peers = filter_by_lag-IsAmong r peers
do_filter-IsAmong r (suc m) peers = accepted_peers-IsAmong (suc m) peers

or_else-All : (P : Peer → Type 0) (ps qs : List Peer) → All P ps → All P qs → All P (or_else ps qs)
or_else-All P [] qs a b = b
or_else-All P (p ∷ ps) qs a b = a

or_else-ne : (ps qs : List Peer) → qs ≢ [] → or_else ps qs ≢ []
or_else-ne [] qs n = n
or_else-ne (p ∷ ps) qs n = λ e. cc

pub or_else-first : (ps qs : List Peer) → ps ≢ [] → or_else ps qs ≡ ps
or_else-first [] qs n = absurd (n refl)
or_else-first (p ∷ ps) qs n = refl

filter_from-IsAmong :
    (r : Params) (m : ℕ) (peers : List Peer) → All (IsAmong peers) (filter_from r m peers)
unfolding filter_from
filter_from-IsAmong r zero peers = do_filter-IsAmong r 0 peers
filter_from-IsAmong r (suc m) peers =
    or_else-All (IsAmong peers) (do_filter_by_block_height r (suc m) peers)
      (or_else (do_filter_by_block_height r m peers) (do_filter_by_block_height r 0 peers))
      (do_filter-IsAmong r (suc m) peers)
      (or_else-All (IsAmong peers) (do_filter_by_block_height r m peers)
        (do_filter_by_block_height r 0 peers) (do_filter-IsAmong r m peers)
        (do_filter-IsAmong r 0 peers))

filter_from-ne : (r : Params) (m : ℕ) (peers : List Peer) → peers ≢ [] → filter_from r m peers ≢ []
unfolding filter_from
filter_from-ne r zero peers n = filter_by_lag-ne r peers n
filter_from-ne r (suc m) peers n =
    or_else-ne (do_filter_by_block_height r (suc m) peers)
      (or_else (do_filter_by_block_height r m peers) (do_filter_by_block_height r 0 peers))
      (or_else-ne (do_filter_by_block_height r m peers) (do_filter_by_block_height r 0 peers)
        (filter_by_lag-ne r peers n))

pub filter-IsAmong :
    (r : Params) (last : ℕ) (peers : List Peer) → All (IsAmong peers) (filter r last peers)
unfolding filter
filter-IsAmong r last peers = filter_from-IsAmong r (min_height r last) peers

pub filter-ne : (r : Params) (last : ℕ) (peers : List Peer) → peers ≢ [] → filter r last peers ≢ []
unfolding filter
filter-ne r last peers n = filter_from-ne r (min_height r last) peers n

IsAtLeast-zero : (ps : List Peer) → All (IsAtLeast 0) ps
IsAtLeast-zero [] = tt
IsAtLeast-zero (p ∷ ps) = (any p.block_height, IsAtLeast-zero ps)
  where
    any : (o : Option ℕ) → HasAtLeast 0 o
    any none = tt
    any (some h) = omega arith

filter_from-Reaches :
    (r : Params) (m : ℕ) (peers : List Peer) (q : Peer)
    → IsAmong peers q
    → IsAtLeast m q
    → All (IsAtLeast m) (filter_from r m peers)
unfolding filter_from
filter_from-Reaches r zero peers q (k, e) a = IsAtLeast-zero (do_filter_by_block_height r 0 peers)
filter_from-Reaches r (suc m) peers q (k, e) a =
    subst (All (IsAtLeast (suc m)))
      (sym (
        or_else-first (accepted_peers (suc m) peers)
          (or_else (do_filter_by_block_height r m peers) (do_filter_by_block_height r 0 peers))
          (accepted_peers-one (suc m) peers k q e a)))
      (accepted_peers-IsAtLeast (suc m) peers)

-- If a peer without a state or at the minimum height is there, then `Filter` leaves some peers, only
-- peers that are there, and all of them are without a state or at the minimum height.
pub filter-Reaches :
    (r : Params) (last : ℕ) (peers : List Peer) (q : Peer)
    → IsAmong peers q
    → IsAtLeast (min_height r last) q
    → (filter r last peers ≢ [])
      × All (IsAmong peers) (filter r last peers)
      × All (IsAtLeast (min_height r last)) (filter r last peers)
unfolding filter
filter-Reaches r last peers q i a = (
  filter-ne r last peers (some_peer peers i.0 i.1),
  filter-IsAmong r last peers,
  filter_from-Reaches r (min_height r last) peers q i a,
)
  where
    some_peer : (ps : List Peer) (k : ℕ) → get_elem? ps k ≡ some q → ps ≢ []
    some_peer [] k e = cc
    some_peer (p ∷ ps) k e = λ f. cc

-- The second peer is ahead of the first by a number of blocks at most, if both have a height.
abbrev pub Within : ℕ → Option ℕ → Option ℕ → Type 0
Within t none o = Unit
Within t (some k) none = Unit
Within t (some k) (some h) = h ≤ k + t

abbrev pub IsWithin : ℕ → Peer → Peer → Type 0
IsWithin t p q = Within t p.block_height q.block_height

below-Within : (t m : ℕ) (o u : Option ℕ) → m ≤ t → HasAtMost m u → Within t o u
below-Within t m none u h a = tt
below-Within t m (some k) none h a = tt
below-Within t m (some k) (some j) h a = omega (arith, h, a)

near-Within : (t m : ℕ) (o u : Option ℕ) → HasAtLeast (m - t) o → HasAtMost m u → Within t o u
near-Within t m none u h a = tt
near-Within t m (some k) none h a = tt
near-Within t m (some k) (some j) h a = omega (arith, h, a)

same-Within : (t : ℕ) (o : Option ℕ) → Within t o o
same-Within t none = tt
same-Within t (some h) = omega arith

alone-IsWithin :
    (t : ℕ) (peers : List Peer)
    → (length peers == 1) ≡ true
    → All (λ p. All (IsWithin t p) peers) peers
alone-IsWithin t [] e = cc
alone-IsWithin t (p ∷ []) e = ((same-Within t p.block_height, tt), tt)
alone-IsWithin t (p ∷ q ∷ ps) e = let two : ⊥ = ground arith in elim two [ ]

every : (P : Peer → Type 0) (ps : List Peer) → ((p : Peer) → P p) → All P ps
every P [] h = tt
every P (p ∷ ps) h = (h p, every P ps h)

-- Without a minimum height and with a lag threshold that is not negative, no peer is ahead of a peer
-- that `Filter` leaves by more than the threshold.
pub filter-IsWithin :
    (r : Params) (t last : ℕ) (peers : List Peer)
    → r.min_block_height ≡ 0
    → r.block_height_lag_threshold ≡ pos t
    → All (λ p. All (IsWithin t p) peers) (filter r last peers)
unfolding filter filter_by_lag min_height
filter-IsWithin r t last peers z e =
    rw (z, e)
      (elim (Bool-cases (length peers == 1)) [
        | inl f ↦ rw f (alone-IsWithin t peers f)
        | inr f ↦ rw f (elim (Bool-cases (leb (get_max_block_height peers) t)) [
          | inl g ↦
              let small : get_max_block_height peers ≤ t = ground (arith, g) in
              rw g (
                every (λ p. All (IsWithin t p) peers) peers
                  λ p.
                    All-mono (λ q. HasAtMost (get_max_block_height peers) q.block_height)
                      (IsWithin t p) peers
                      (λ q a.
                        below-Within t (get_max_block_height peers) p.block_height q.block_height
                          small a)
                      (max-HasAtMost peers))
          | inr g ↦ rw g (
              All-mono (IsAtLeast (get_max_block_height peers - t)) (λ p. All (IsWithin t p) peers)
                (accepted_peers (get_max_block_height peers - t) peers)
                (λ p h.
                  All-mono (λ q. HasAtMost (get_max_block_height peers) q.block_height)
                    (IsWithin t p) peers
                    (λ q a.
                      near-Within t (get_max_block_height peers) p.block_height q.block_height h a)
                    (max-HasAtMost peers))
                (accepted_peers-IsAtLeast (get_max_block_height peers - t) peers))
        ])
      ])
