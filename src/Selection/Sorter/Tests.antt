-- ===== src/Selection/Sorter/Tests.antt =====
-- The theorem on the sorter at concrete peers, and a run of it.
use fabric_sdk_go_gm.Common.{ℕ, ◌≡◌, ◌≢◌, refl, List, [], ◌∷◌, Option, none, some, arith, Perm}
use fabric_sdk_go_gm.Common.Int.{ℤ, pos}
use fabric_sdk_go_gm.Common.Outcome.{Outcome, done, Returns, Returns-mono}
use fabric_sdk_go_gm.Selection.{Peer}
use fabric_sdk_go_gm.Selection.Heights.{get_max_block_height}
use fabric_sdk_go_gm.Selection.Balancer.{round_robin, next, balance_from, advance, copy_range}
use fabric_sdk_go_gm.Selection.Balancer.Rotation.{Turns, round_robin_lem}
use fabric_sdk_go_gm.Selection.Sorter.{sort_peers, less}
use fabric_sdk_go_gm.Selection.Sorter.Sorted.{IsOrdered, sort_peers-IsOrdered}
use fabric_sdk_go_gm.Selection.Sorter.Insertion.{sort_by_insertion, insertion-IsSort}

abbrev peer : ℕ → Option ℕ → Peer
peer n h = record { addr = n; url = n ∷ []; msp_id = []; block_height = h }

abbrev peers : List Peer
peers =
    peer 1 (some 80) ∷ peer 2 (some 97) ∷ peer 3 none ∷ peer 4 (some 90) ∷ peer 5 (some 100) ∷ []

abbrev balancer : List Peer → Outcome (List Peer × ℤ)
balancer ps = round_robin 0 (pos 0) ps

balancer-Perm : (ps : List Peer) → ps ≢ [] → Returns (λ x. Perm x.0 ps) (balancer ps)
balancer-Perm [] n = absurd (n refl)
balancer-Perm (p ∷ ps) n =
    Returns-mono (Turns 0 (pos 0) (p ∷ ps)) (λ x. Perm x.0 (p ∷ ps))
      (round_robin 0 (pos 0) (p ∷ ps)) (λ x (e, (q, rest)). q)
      (round_robin_lem 0 (pos 0) (p ∷ ps) (omega arith))

sort_peers-IsOrdered_example :
    Returns
      (λ x. IsOrdered 5 peers x.0)
      (sort_peers sort_by_insertion balancer (pos 0) (pos 5) peers)
sort_peers-IsOrdered_example =
    sort_peers-IsOrdered sort_by_insertion insertion-IsSort balancer balancer-Perm (pos 0) 5 peers

-- The balancer starts with the second of the three peers that are up to date.
sort_peers-peers :
    sort_peers sort_by_insertion balancer (pos 0) (pos 5) peers
    ≡ done (
      peer 3 none ∷ peer 5 (some 100) ∷ peer 2 (some 97) ∷ peer 4 (some 90) ∷ peer 1 (some 80) ∷ [],
      pos 1,
    )
unfolding sort_peers get_max_block_height sort_by_insertion less round_robin next balance_from
    advance copy_range
sort_peers-peers = refl
