-- ===== src/Selection/Sorter.antt =====
-- sorter/blockheightsorter/blockheightsorter.go: the peers that are up to date first, in the order of a
-- balancer, then the others by their heights. The sort of Go's library and the balancer with its state
-- are arguments.
pub mod Sorted
pub mod Insertion
pub mod Tests
use fabric_sdk_go_gm.Common.{
  ℕ, ◌-◌, ◌≤◌, ◌≡◌, Bool, true, false, List, [], ◌∷◌, ◌++◌, Option, none, some, leb, ltb,
  if◌then◌else◌, All, Perm,
}
use fabric_sdk_go_gm.Common.Int.{ℤ, pos, negsuc}
use fabric_sdk_go_gm.Common.Outcome.{Outcome, done, ◌>>=◌}
use fabric_sdk_go_gm.Selection.{Peer}
use fabric_sdk_go_gm.Selection.Heights.{get_max_block_height, is_accepted, accepted_peers}

-- `peerSorter.Less`, for two heights.
abbrev pub lower : Option ℕ → Option ℕ → Bool
lower none b = false
lower (some h) none = false
lower (some h) (some k) = ltb h k

unfoldable pub less : Peer → Peer → Bool
less p q = lower p.block_height q.block_height

-- The other list of the loop: the peers that did not make the cutoff.
abbrev pub other_peers : ℕ → List Peer → List Peer
other_peers cutoff [] = []
other_peers cutoff (p ∷ ps) =
    let rest = other_peers cutoff ps in if is_accepted cutoff p.block_height then rest else p ∷ rest

abbrev pub Sort : Type 0
Sort = (Peer → Peer → Bool) → List Peer → List Peer

module _ {S : Type 0} (sort : Sort) (balancer : List Peer → Outcome (List Peer × S))
    (state : S) where
  -- From the cutoff height on.
  unfoldable pub sort_by_cutoff : ℕ → List Peer → Outcome (List Peer × S)
  sort_by_cutoff cutoff peers = balancer (accepted_peers cutoff peers) >>= λ r.
      done (r.0 ++ sort (λ p q. less q p) (other_peers cutoff peers), r.1)

  unfoldable pub sort_by_height : ℤ → List Peer → Outcome (List Peer × S)
  unfolding sort_by_cutoff
  sort_by_height (negsuc n) peers = balancer peers
  sort_by_height (pos threshold) peers =
      if leb (get_max_block_height peers) threshold
      then balancer peers
      else sort_by_cutoff (get_max_block_height peers - threshold) peers

  -- `Sort`, with the state of the balancer.
  unfoldable pub sort_peers : ℤ → List Peer → Outcome (List Peer × S)
  unfolding sort_by_height
  sort_peers threshold [] = done ([], state)
  sort_peers threshold (p ∷ []) = done (p ∷ [], state)
  sort_peers threshold (p ∷ q ∷ ps) = sort_by_height threshold (p ∷ q ∷ ps)

-- In the order of a key.
abbrev pub IsAscending : (Peer → ℕ) → List Peer → Type 0
IsAscending key [] = Unit
IsAscending key (p ∷ ps) = All (λ q. key p ≤ key q) ps × IsAscending key ps

-- What the library says of its sort, for a test that compares the elements by a key.
abbrev pub IsSort : Sort → Type 0
IsSort sort =
    (test : Peer → Peer → Bool) (key : Peer → ℕ) (ps : List Peer)
    → All (λ p. All (λ q. test p q ≡ ltb (key p) (key q)) ps) ps
    → Perm (sort test ps) ps × IsAscending key (sort test ps)
