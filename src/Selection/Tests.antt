-- ===== src/Selection/Tests.antt =====
-- The theorem on the round-robin balancer at a concrete input.
use fabric_sdk_go_gm.Common.{ℕ, ◌+◌, List, [], ◌∷◌, some, arith}
use fabric_sdk_go_gm.Common.Int.{pos}
use fabric_sdk_go_gm.Common.Outcome.{Returns}
use fabric_sdk_go_gm.Selection.{Peer}
use fabric_sdk_go_gm.Selection.Balancer.{round_robin}
use fabric_sdk_go_gm.Selection.Balancer.Rotation.{Turns, round_robin_lem}

abbrev peer : ℕ → Peer
peer n = record { addr = n; url = n ∷ []; msp_id = []; block_height = some (100 + n) }

abbrev peers : List Peer
peers = peer 1 ∷ peer 2 ∷ peer 3 ∷ []

round_robin_lem_example : Returns (Turns 0 (pos 1) peers) (round_robin 0 (pos 1) peers)
round_robin_lem_example = round_robin_lem 0 (pos 1) peers (omega arith)
