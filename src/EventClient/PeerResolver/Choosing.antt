-- ===== src/EventClient/PeerResolver/Choosing.antt =====
-- pkg/fab/events/client/lbp: the round-robin and the random load balancing policies.
use fabric_sdk_go_gm.Common.{
  ℕ, zero, suc, ◌<◌, ◌≡◌, refl, sym, subst, List, [], ◌∷◌, Option, none, some, length, get_elem?,
  arith,
}
use fabric_sdk_go_gm.Common.Int.{ℤ, pos, negsuc}
use fabric_sdk_go_gm.Common.Outcome.{Outcome, done, panics, ◌>>=◌, index_out_of_range, Returns}
use fabric_sdk_go_gm.Selection.{Peer}
use fabric_sdk_go_gm.Selection.Balancer.{next, advance}
use fabric_sdk_go_gm.Selection.Balancer.Rotation.{advance_lt, next_lem}
use fabric_sdk_go_gm.Selection.Heights.{IsAmong}

abbrev peer_at : {S : Type 0} → List Peer → ℕ → S → Outcome (Option Peer × S)
peer_at peers i s = elim (get_elem? peers i) [
  | none ↦ panics index_out_of_range
  | some p ↦ done (some p, s)
]

-- `Choose`, with the counter, and with rand.Intn as an argument.
unfoldable pub choose_round_robin : (ℕ → ℕ) → ℤ → List Peer → Outcome (Option Peer × ℤ)
choose_round_robin random index [] = done (none, index)
choose_round_robin random index (p ∷ ps) =
    next (random (length (p ∷ ps))) (length (p ∷ ps)) index >>= λ r. peer_at (p ∷ ps) r.0 r.1

unfoldable pub choose_random : (ℕ → ℕ) → List Peer → Outcome (Option Peer × ℤ)
choose_random random [] = done (none, negsuc 0)
choose_random random (p ∷ ps) = peer_at (p ∷ ps) (random (length (p ∷ ps))) (negsuc 0)

-- One of the peers, or none if there are none.
abbrev pub IsChosen : List Peer → Option Peer → Type 0
IsChosen [] o = o ≡ none
IsChosen (p ∷ ps) none = ⊥
IsChosen (p ∷ ps) (some q) = IsAmong (p ∷ ps) q

at-some : (ps : List Peer) (i : ℕ) → i < length ps → (p : Peer) × (get_elem? ps i ≡ some p)
at-some [] i h = absurd (omega arith)
at-some (p ∷ ps) zero h = (p, refl)
at-some (p ∷ ps) (suc i) h = at-some ps i (omega arith)

peer_at-IsChosen :
    {S : Type 0} (p : Peer) (ps : List Peer) (i : ℕ) (s : S)
    → i < length (p ∷ ps)
    → Returns (λ r. IsChosen (p ∷ ps) r.0) (peer_at (p ∷ ps) i s)
peer_at-IsChosen {S} p ps i s h =
    let (q, e) = at-some (p ∷ ps) i h in
    subst
      (λ o.
        Returns (λ (r : Option Peer × S). IsChosen (p ∷ ps) r.0)
          (elim o [ none ↦ panics index_out_of_range | some x ↦ done (some x, s) ]))
      (sym e) (i, e)

module _ (random : ℕ → ℕ) (in_range : (n : ℕ) → random (suc n) < suc n) where
  pub choose_round_robin-IsChosen :
      (index : ℤ) (ps : List Peer)
      → Returns (λ r. IsChosen ps r.0) (choose_round_robin random index ps)
  unfolding choose_round_robin
  choose_round_robin-IsChosen index [] = refl
  choose_round_robin-IsChosen index (p ∷ ps) =
      let n = suc (length ps) in
      let below = in_range (length ps) in
      rw (next_lem (random (suc (length ps))) (suc (length ps)) index (omega arith)) (
        peer_at-IsChosen p ps (advance (random (suc (length ps))) (suc (length ps)) index)
          (pos (advance (random (suc (length ps))) (suc (length ps)) index))
          (advance_lt (random (suc (length ps))) (suc (length ps)) index (omega arith) below))

  pub choose_random-IsChosen :
      (ps : List Peer) → Returns (λ r. IsChosen ps r.0) (choose_random random ps)
  unfolding choose_random
  choose_random-IsChosen [] = refl
  choose_random-IsChosen (p ∷ ps) =
      peer_at-IsChosen p ps (random (suc (length ps))) (negsuc 0) (in_range (length ps))
