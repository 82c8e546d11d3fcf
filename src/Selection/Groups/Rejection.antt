-- ===== src/Selection/Groups/Rejection.antt =====
-- pgresolverimpl.go: the policies for which the compilation or the group retriever fails.
use fabric_sdk_go_gm.Common.{
  ℕ, zero, suc, ◌≤◌, ◌≡◌, ◌↔◌, refl, sym, ap, ◌∙◌, List, [], ◌∷◌, arith, length, ltb, Bool-cases,
  inl, inr,
}
use fabric_sdk_go_gm.Common.Int.{ℤ, pos, negsuc}
use fabric_sdk_go_gm.Selection.Groups.{Group, Retriever}
use fabric_sdk_go_gm.Selection.Groups.Policy.{
  SignaturePolicy, nil_policy, signed_by, n_out_of, unknown_policy, SignaturePolicies, end, rule,
  MspPrincipal, Decoder, Result, ok, err, panicked, ◌>>=◌, msp_principal_to_string, identity_at,
  n_of, retrieve_all, compile, compile_rules, signature_policy_signed_by,
}
use fabric_sdk_go_gm.Selection.Groups.Principals.{
  IsAdmissible, well_formed-IsAdmissible, admissible-IsWellFormed,
}
use fabric_sdk_go_gm.Selection.Groups.Satisfaction.{
  signer, Succeeds, IsWellFormed, AreWellFormed, count_rules, compile-Meaning,
}

-- What a chain of two steps that succeeds says of each.
bind-parts :
    {A B : Type 0} (next : A → Result B) (first : Result A) {b : B}
    → (first >>= next) ≡ ok b
    → (a : A) × (first ≡ ok a) × (next a ≡ ok b)
bind-parts next (panicked p) e = cc
bind-parts next (err x) e = cc
bind-parts next (ok a) e = (a, refl, e)

module _ (retrieve : Retriever) (d : Decoder) (ids : List MspPrincipal) where
  -- What `IsWellFormed` says of the rules that were compiled.
  abbrev FromRules : SignaturePolicies → List Group → Type 0
  FromRules ps gs = AreWellFormed d ids ps × (length gs ≡ count_rules d ids ps)

  signed-Succeeds :
      (i : ℤ) (g : Group)
      → signature_policy_signed_by retrieve d ids i ≡ ok g
      → Succeeds (signer d ids i)
  unfolding signature_policy_signed_by
  signed-Succeeds i g e =
      let (p, found, f) = bind-parts _ (identity_at ids i) e in
      let (m, named, _) = bind-parts _ (msp_principal_to_string d p) f in
      (m, ap (λ r. r >>= msp_principal_to_string d) found ∙ named)

  n_of-reached :
      (k : ℕ) (gs : List Group) (g : Group)
      → n_of retrieve (pos (suc k)) gs ≡ ok g
      → suc k ≤ length gs
  unfolding n_of
  n_of-reached k gs g e = elim (Bool-cases (ltb (length gs) (suc k))) [
    | inl t ↦ let f = rw t at e in cc
    | inr t ↦ ground arith
  ]

  mutual
    unfolding compile retrieve_all IsWellFormed

    compiled-IsWellFormed :
        (p : SignaturePolicy) (r : Result Group) (g : Group)
        → compile retrieve d ids p ≡ ok r
        → r ≡ ok g
        → IsWellFormed d ids p
    compiled-IsWellFormed nil_policy r g c e = cc
    compiled-IsWellFormed unknown_policy r g c e = cc
    compiled-IsWellFormed (signed_by i) r g c e =
        let same : signature_policy_signed_by retrieve d ids i ≡ r = cc in
        signed-Succeeds i g (same ∙ e)
    compiled-IsWellFormed (n_out_of (pos zero) rules) r g c e = tt
    compiled-IsWellFormed (n_out_of (pos (suc k)) rules) r g c e =
        let (fs, cs, f) = bind-parts _ (compile_rules retrieve d ids rules) c in
        let same : (retrieve_all retrieve d ids fs >>= n_of retrieve (pos (suc k))) ≡ r = cc in
        let (gs, a, n) =
          bind-parts (n_of retrieve (pos (suc k))) (retrieve_all retrieve d ids fs) (same ∙ e) in
        let (w, l) = compiled_rules-AreWellFormed rules fs gs cs a in
        let reached = n_of-reached k gs g n in (omega (arith, l, reached), w)
    compiled-IsWellFormed (n_out_of (negsuc k) rules) r g c e =
        let (fs, cs, f) = bind-parts _ (compile_rules retrieve d ids rules) c in
        let same : (retrieve_all retrieve d ids fs >>= n_of retrieve (negsuc k)) ≡ r = cc in
        let (gs, a, n) =
          bind-parts (n_of retrieve (negsuc k)) (retrieve_all retrieve d ids fs) (same ∙ e) in
        cc

    compiled_rules-AreWellFormed :
        (ps : SignaturePolicies) (fs : List (Result Group)) (gs : List Group)
        → compile_rules retrieve d ids ps ≡ ok fs
        → retrieve_all retrieve d ids fs ≡ ok gs
        → FromRules ps gs
    compiled_rules-AreWellFormed end fs gs c a =
        let none_left : [] ≡ fs = cc in
        let all : ok [] ≡ ok gs = ap (retrieve_all retrieve d ids) none_left ∙ a in
        let same : [] ≡ gs = cc in (tt, sym (ap length same))
    compiled_rules-AreWellFormed (rule p ps) fs gs c a =
        let (r, cp, f) = bind-parts _ (compile retrieve d ids p) c in
        let (rs, cr, h) = bind-parts _ (compile_rules retrieve d ids ps) f in
        let same : (r ∷ rs) ≡ fs = cc in
        let all : retrieve_all retrieve d ids (r ∷ rs) ≡ ok gs =
          ap (retrieve_all retrieve d ids) same ∙ a in
        let (g, e, b) = bind-parts _ r all in
        let (hs, eh, bh) = bind-parts _ (retrieve_all retrieve d ids rs) b in
        let joined : (g ∷ hs) ≡ gs = cc in
        let (w, l) = compiled_rules-AreWellFormed ps rs hs cr eh in
        ((compiled-IsWellFormed p r g cp e, w), sym (ap length joined) ∙ ap suc l)

  -- The compilation of a policy and its group retriever succeed exactly if, below no threshold of 0,
  -- each signer is the index of an identity that is a role or an organization unit of an MSP, no policy
  -- is missing or of another type, and each threshold is positive and at most the number of its rules.
  pub compile-IsAdmissible :
      (p : SignaturePolicy)
      → ((g : Group) × (compile retrieve d ids p ≡ ok (ok g))) ↔ IsAdmissible d ids p
  compile-IsAdmissible p = (
    (λ (g, c). well_formed-IsAdmissible d ids p (compiled-IsWellFormed p (ok g) g c refl)),
    (λ w.
        let (g, (c, policy, same)) =
          compile-Meaning d ids retrieve p (admissible-IsWellFormed d ids p w) in
        (g, c)),
  )
