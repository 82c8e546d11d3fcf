-- ===== src/Selection/Balancer.antt =====
-- balancer/balancer.go, rollingcounter.go of pkg/util/concurrent and the round-robin policy of
-- dynamicselection/pgresolver/lbpolicyimpl.go. A random number is an argument.
pub mod Rotation
use fabric_sdk_go_gm.Common.{
  ℕ, zero, suc, ◌+◌, ◌-◌, Bool, List, [], ◌∷◌, ◌++◌, Option, none, some, length, get_elem?, leb,
  ltb, ◌==◌, if◌then◌else◌,
}
use fabric_sdk_go_gm.Common.Int.{ℤ, pos, negsuc}
use fabric_sdk_go_gm.Common.Outcome.{
  Outcome, done, panics, ◌>>=◌, explicit_panic, index_out_of_range,
}
use fabric_sdk_go_gm.Selection.{Peer}

-- One round of the loop of `Next`, from the index -1 or from another, to the new index.
unfoldable pub advance : ℕ → ℕ → ℤ → ℕ
advance random n (pos i) = if leb n (i + 1) then 0 else i + 1
advance random n (negsuc zero) = random
advance random n (negsuc (suc i)) = 0

-- `Counter.Next` without another thread between the load and the compare-and-swap: the new index
-- is the counter's, and the result. An index below -1 does not come up.
unfoldable pub next : ℕ → ℕ → ℤ → Outcome (ℕ × ℤ)
next random n index =
    if n == 0
    then panics explicit_panic
    else done (advance random n index, pos (advance random n index))

-- The loops of the round-robin balancer: `k` peers from index `i` on.
unfoldable pub copy_range : {A : Type 0} → List A → ℕ → ℕ → List A
copy_range peers i zero = []
copy_range peers i (suc k) = elim (get_elem? peers i) [
  | none ↦ []
  | some p ↦ p ∷ copy_range peers (suc i) k
]

unfoldable pub balance_from : {A : Type 0} → ℕ → List A → List A
balance_from index peers = copy_range peers index (length peers - index) ++ copy_range peers 0 index

-- The function that `RoundRobin` returns, with its counter.
unfoldable pub round_robin : ℕ → ℤ → List Peer → Outcome (List Peer × ℤ)
round_robin random index peers =
    next random (length peers) index >>= λ r. done (balance_from r.0 peers, r.1)

-- `roundRobinLBP.Choose`: a group of peers, or none for the empty group. The policy starts at -1,
-- and no index below -1 comes up.
unfoldable pub choose_index : ℕ → ℕ → ℤ → ℕ
choose_index random n (negsuc zero) = if leb n random then 0 else random
choose_index random n (negsuc (suc i)) = 0
choose_index random n (pos i) = if leb n (i + 1) then 0 else i + 1

unfoldable pub choose : {A : Type 0} → ℕ → ℤ → List A → Outcome (Option A × ℤ)
choose random index [] = done (none, index)
choose random index (g ∷ groups) =
    let i = choose_index random (length (g ∷ groups)) index in
    elim (get_elem? (g ∷ groups) i) [
      | none ↦ panics index_out_of_range
      | some group ↦ done (some group, pos i)
    ]
