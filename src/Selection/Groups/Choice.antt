-- ===== src/Selection/Groups/Choice.antt =====
-- pgresolverimpl.go: `Resolve`, from a signature policy to the peers that are chosen.
use fabric_sdk_go_gm.Common.{
  ℕ, zero, suc, ◌<◌, ◌≡◌, refl, sym, subst, true, false, List, [], ◌∷◌, arith, All, Option, none,
  some, Bool-cases, inl, inr, get_elem?, length,
}
use fabric_sdk_go_gm.Common.Int.{ℤ, pos, negsuc}
use fabric_sdk_go_gm.Common.Outcome.{
  done, panics, index_out_of_range, Returns, Returns->>=, Returns-mono,
}
use fabric_sdk_go_gm.Selection.{Peer}
use fabric_sdk_go_gm.Selection.Heights.{IsAmong}
use fabric_sdk_go_gm.Selection.Balancer.{choose, choose_index}
use fabric_sdk_go_gm.Selection.Groups.{Group}
use fabric_sdk_go_gm.Selection.Groups.Policy.{SignaturePolicy, MspPrincipal, Decoder, ok, compile}
use fabric_sdk_go_gm.Selection.Groups.Satisfaction.{satisfied, IsWellFormed}
use fabric_sdk_go_gm.Selection.Groups.Serving.{served}
use fabric_sdk_go_gm.Selection.Groups.Coverage.{Endorses, get_peer_groups-Endorses}
use fabric_sdk_go_gm.Selection.Groups.Resolver.{retriever, get_peer_groups, resolve}

-- A choice from a list that is empty, or from all of whose elements something holds.
abbrev IsChoice : {A : Type 0} → (A → Type 0) → List A → Option A → Type 0
IsChoice P xs none = xs ≡ []
IsChoice P xs (some x) = P x

choose_index-lt : (random n : ℕ) (index : ℤ) → choose_index random (suc n) index < suc n
unfolding choose_index
choose_index-lt random n (negsuc zero) = ground arith
choose_index-lt random n (negsuc (suc i)) = ground arith
choose_index-lt random n (pos i) = ground arith

element_at :
    {A : Type 0} (P : A → Type 0) (xs : List A) (i : ℕ)
    → i < length xs
    → All P xs
    → (x : A) × (get_elem? xs i ≡ some x) × P x
element_at P [] i h a = absurd (omega arith)
element_at P (x ∷ xs) zero h a = (x, refl, a.0)
element_at P (x ∷ xs) (suc i) h a = element_at P xs i (omega arith) a.1

choose-IsChoice :
    {A : Type 0} (P : A → Type 0) (random : ℕ) (index : ℤ) (xs : List A)
    → All P xs
    → Returns (λ r. IsChoice P xs r.0) (choose random index xs)
unfolding choose
choose-IsChoice {A} P random index [] a = refl
choose-IsChoice {A} P random index (x ∷ xs) a =
    let i = choose_index random (length (x ∷ xs)) index in
    let (y, e, p) = element_at P (x ∷ xs) i (choose_index-lt random (length xs) index) a in
    subst
      (λ o.
        Returns (λ (r : Option A × ℤ). IsChoice P (x ∷ xs) r.0)
          (elim o [ none ↦ panics index_out_of_range | some group ↦ done (some group, pos i) ]))
      (sym e) p

module _ (peers : List Peer) (d : Decoder) (ids : List MspPrincipal) (p : SignaturePolicy) where
  -- The choice for a policy: available peers whose MSPs satisfy it, or else none, and then the MSPs
  -- of all available peers do not.
  abbrev pub Endorsed : Option (List Peer) → Type 0
  Endorsed none = satisfied d ids (served peers) p ≡ false
  Endorsed (some ps) = (satisfied d ids (served ps) p ≡ true) × All (IsAmong peers) ps

  choice-Endorsed :
      (pss : List (List Peer)) (o : Option (List Peer))
      → Endorses peers d ids p pss
      → IsChoice (λ ps. Endorsed (some ps)) pss o
      → Endorsed o
  choice-Endorsed pss (some ps) e c = c
  choice-Endorsed pss none e c = elim (Bool-cases (satisfied d ids (served peers) p)) [
    | inl s ↦ absurd (e.1 s c)
    | inr s ↦ s
  ]

  -- A well-formed policy is compiled to a hierarchy of groups, and for that hierarchy `Resolve`, with
  -- the round-robin policy in any state, returns. The peers that it chooses are available and their
  -- MSPs satisfy the policy; if it chooses none, the MSPs of all available peers do not satisfy it.
  pub resolve-Endorsed :
      (random : ℕ) (index : ℤ)
      → IsWellFormed d ids p
      → (g : Group) × (compile (retriever peers) d ids p ≡ ok (ok g))
        × Returns (λ r. Endorsed r.0) (resolve random index peers g)
  unfolding resolve
  resolve-Endorsed random index w =
      let (g, c, r) = get_peer_groups-Endorses peers d ids p w in
      (
        g,
        c,
        Returns->>= (Endorses peers d ids p) (λ r. Endorsed r.0)
            (get_peer_groups (retriever peers) g) (λ pss. choose random index pss) r
            λ pss e.
              Returns-mono (λ r. IsChoice (λ ps. Endorsed (some ps)) pss r.0) (λ r. Endorsed r.0)
                (choose random index pss) (λ r. choice-Endorsed pss r.0 e)
                (choose-IsChoice (λ ps. Endorsed (some ps)) random index pss e.0),
      )
