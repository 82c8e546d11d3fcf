-- ===== src/Selection/Groups/Coverage.antt =====
-- pgresolverimpl.go: `getPeerGroups`, from a signature policy to the groups of peers that satisfy it.
use fabric_sdk_go_gm.Common.{
  ◌≡◌, ◌≢◌, refl, sym, ◌∙◌, Bool, true, false, ◌||◌, List, [], ◌∷◌, ◌++◌, arith, All, All-append,
  All-mono,
}
use fabric_sdk_go_gm.Common.Outcome.{done, ◌>>=◌, Returns, Returns->>=, Returns-mono}
use fabric_sdk_go_gm.Selection.{Peer}
use fabric_sdk_go_gm.Selection.Heights.{IsAmong}
use fabric_sdk_go_gm.Selection.Groups.{Group}
use fabric_sdk_go_gm.Selection.Groups.Combination.{reduce}
use fabric_sdk_go_gm.Selection.Groups.Meaning.{holds, any_holds}
use fabric_sdk_go_gm.Selection.Groups.Collapsing.{IsFlat}
use fabric_sdk_go_gm.Selection.Groups.Reduction.{IsPolicy, Reduced, reduce-Meaning}
use fabric_sdk_go_gm.Selection.Groups.Policy.{SignaturePolicy, MspPrincipal, Decoder, ok, compile}
use fabric_sdk_go_gm.Selection.Groups.Satisfaction.{satisfied, IsWellFormed, compile-Meaning}
use fabric_sdk_go_gm.Selection.Groups.Serving.{served}
use fabric_sdk_go_gm.Selection.Groups.Resolution.{Resolved, must_get_peer_groups-Resolved}
use fabric_sdk_go_gm.Selection.Groups.Resolver.{
  retriever, must_get_peer_groups, all_peer_groups, get_peer_groups,
}

module _ (peers : List Peer) where
  abbrev AllResolved : List Group → List (List Peer) → Type 0
  AllResolved gs pss =
      All (λ ps. (any_holds (served ps) gs ≡ true) × All (IsAmong peers) ps) pss
      × (any_holds (served peers) gs ≡ true → pss ≢ [])

  joined-ne :
      (a b : Bool) (xs ys : List (List Peer))
      → (a ≡ true → xs ≢ [])
      → (b ≡ true → ys ≢ [])
      → (a || b) ≡ true
      → (xs ++ ys) ≢ []
  joined-ne a b (x ∷ xs) ys h k e = λ f. cc
  joined-ne true b [] ys h k e = absurd (h refl refl)
  joined-ne false b [] ys h k e = k e

  all_peer_groups-AllResolved :
      (gs : List Group)
      → All IsFlat gs
      → Returns (AllResolved gs) (all_peer_groups (retriever peers) gs)
  unfolding all_peer_groups
  all_peer_groups-AllResolved [] a = (tt, λ e. cc)
  all_peer_groups-AllResolved (g ∷ gs) (f, a) =
      Returns->>= (Resolved peers g) (AllResolved (g ∷ gs))
        (must_get_peer_groups (retriever peers) g)
        (λ pss. all_peer_groups (retriever peers) gs >>= λ rest. done (pss ++ rest))
        (must_get_peer_groups-Resolved peers g f)
        λ pss r.
          Returns->>= (AllResolved gs) (AllResolved (g ∷ gs)) (all_peer_groups (retriever peers) gs)
            (λ rest. done (pss ++ rest)) (all_peer_groups-AllResolved gs a)
            λ rest q. (
              All-append _ pss rest
                  (All-mono (λ ps. (holds (served ps) g ≡ true) × All (IsAmong peers) ps) _ pss
                    (λ ps s. (ground (arith, s.0), s.1)) r.0)
                  (All-mono (λ ps. (any_holds (served ps) gs ≡ true) × All (IsAmong peers) ps)
                    (λ ps. (any_holds (served ps) (g ∷ gs) ≡ true) × All (IsAmong peers) ps) rest
                    (λ ps s. (either (holds (served ps) g) s.0, s.1)) q.0),
              joined-ne (holds (served peers) g) (any_holds (served peers) gs) pss rest r.1 q.1,
            )
    where
      either : (t : Bool) {u : Bool} → u ≡ true → (t || u) ≡ true
      either true e = refl
      either false e = e

  pub get_peer_groups-Resolved :
      (g : Group) → IsPolicy g → Returns (Resolved peers g) (get_peer_groups (retriever peers) g)
  unfolding get_peer_groups
  get_peer_groups-Resolved g p =
      Returns->>= (Reduced g) (Resolved peers g) (reduce (retriever peers) g)
        (all_peer_groups (retriever peers)) (reduce-Meaning (retriever peers) g p)
        λ rs (flat, same).
          Returns-mono (AllResolved rs) (Resolved peers g) (all_peer_groups (retriever peers) rs)
            (λ pss r. (
              All-mono (λ ps. (any_holds (served ps) rs ≡ true) × All (IsAmong peers) ps) _ pss
                  (λ ps s. (sym (same (served ps)) ∙ s.0, s.1)) r.0,
              λ h. r.1 (same (served peers) ∙ h),
            ))
            (all_peer_groups-AllResolved rs flat)

  -- Groups of available peers, each of which satisfies the policy.
  abbrev pub Endorses : Decoder → List MspPrincipal → SignaturePolicy → List (List Peer) → Type 0
  Endorses d ids p pss =
      All (λ ps. (satisfied d ids (served ps) p ≡ true) × All (IsAmong peers) ps) pss
      × (satisfied d ids (served peers) p ≡ true → pss ≢ [])

  -- A well-formed policy is compiled to a hierarchy of groups. For that hierarchy `getPeerGroups`
  -- returns groups of available peers, the MSPs of each of which satisfy the policy, and at least
  -- one group if the MSPs of all available peers satisfy the policy.
  pub get_peer_groups-Endorses :
      (d : Decoder) (ids : List MspPrincipal) (p : SignaturePolicy)
      → IsWellFormed d ids p
      → (g : Group) × (compile (retriever peers) d ids p ≡ ok (ok g))
        × Returns (Endorses d ids p) (get_peer_groups (retriever peers) g)
  get_peer_groups-Endorses d ids p w =
      let (g, (c, q, same)) = compile-Meaning d ids (retriever peers) p w in
      (
        g,
        c,
        Returns-mono (Resolved peers g) (Endorses d ids p) (get_peer_groups (retriever peers) g)
            (λ pss r. (
              All-mono (λ ps. (holds (served ps) g ≡ true) × All (IsAmong peers) ps) _ pss
                  (λ ps s. (sym (same (served ps)) ∙ s.0, s.1)) r.0,
              λ h. r.1 (same (served peers) ∙ h),
            ))
            (get_peer_groups-Resolved g q),
      )
