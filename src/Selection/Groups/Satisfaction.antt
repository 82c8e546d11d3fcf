-- ===== src/Selection/Groups/Satisfaction.antt =====
-- pgresolverimpl.go: what a signature policy asks for, and the groups that it is compiled to.
use fabric_sdk_go_gm.Common.{
  ℕ, zero, suc, ◌≤◌, ◌≡◌, refl, sym, ap, ◌∙◌, subst, Bool, true, false, List, [], ◌∷◌, map, arith,
  All, length, leb, if◌then◌else◌,
}
use fabric_sdk_go_gm.Common.Int.{ℤ, pos, negsuc}
use fabric_sdk_go_gm.Common.Text.{Text}
use fabric_sdk_go_gm.Selection.Groups.{
  group_item, Group, group, groups, peer_group, msp_group, Retriever, from_list,
  new_group_of_groups, items_of,
}
use fabric_sdk_go_gm.Selection.Groups.Combination.{get_combinations}
use fabric_sdk_go_gm.Selection.Groups.Meaning.{holds, holds-new_group_of_groups, to_list-from_list}
use fabric_sdk_go_gm.Selection.Groups.Reduction.{IsPolicy}
use fabric_sdk_go_gm.Selection.Groups.Threshold.{
  IsPolicyItem, IsCombination, count_holding, from_list-ArePolicies, get_combinations-IsCombination,
  get_combinations-any,
}
use fabric_sdk_go_gm.Selection.Groups.Policy.{
  SignaturePolicy, nil_policy, signed_by, n_out_of, unknown_policy, SignaturePolicies, end, rule,
  MspPrincipal, Decoder, Result, ok, err, panicked, ◌>>=◌, msp_principal_to_string, identity_at,
  n_of, retrieve_all, compile, compile_rules,
}

-- The MSP of a signer.
abbrev pub signer : Decoder → List MspPrincipal → ℤ → Result Text
signer d ids i = identity_at ids i >>= msp_principal_to_string d

abbrev pub accepted : (Text → Bool) → Result Text → Bool
accepted v (ok m) = v m
accepted v (err e) = false
accepted v (panicked p) = false

abbrev pub Succeeds : {A : Type 0} → Result A → Type 0
Succeeds {A} r = (a : A) × (r ≡ ok a)

module _ (d : Decoder) (ids : List MspPrincipal) where
  unfoldable mutual
    -- Whether the MSPs that `v` accepts satisfy a policy. An empty identifier stands for any MSP.
    pub satisfied : (Text → Bool) → SignaturePolicy → Bool
    satisfied v nil_policy = false
    satisfied v (signed_by i) = accepted v (signer d ids i)
    satisfied v (n_out_of (pos zero) rules) = v []
    satisfied v (n_out_of (pos (suc k)) rules) = leb (suc k) (count_satisfied v rules)
    satisfied v (n_out_of (negsuc k) rules) = true
    satisfied v unknown_policy = false

    pub count_satisfied : (Text → Bool) → SignaturePolicies → ℕ
    count_satisfied v end = 0
    count_satisfied v (rule p ps) =
        if satisfied v p then suc (count_satisfied v ps) else count_satisfied v ps

  abbrev pub count_rules : SignaturePolicies → ℕ
  count_rules end = 0
  count_rules (rule p ps) = suc (count_rules ps)

  -- A policy whose signers are MSPs of the policy's identities, and whose thresholds can be reached.
  unfoldable mutual
    pub IsWellFormed : SignaturePolicy → Type 0
    IsWellFormed nil_policy = ⊥
    IsWellFormed (signed_by i) = Succeeds (signer d ids i)
    IsWellFormed (n_out_of (pos zero) rules) = Unit
    IsWellFormed (n_out_of (pos (suc k)) rules) = (suc k ≤ count_rules rules) × AreWellFormed rules
    IsWellFormed (n_out_of (negsuc k) rules) = ⊥
    IsWellFormed unknown_policy = ⊥

    pub AreWellFormed : SignaturePolicies → Type 0
    AreWellFormed end = Unit
    AreWellFormed (rule p ps) = IsWellFormed p × AreWellFormed ps

  combination-policies :
      (gs : List Group) → All IsCombination gs → All IsPolicyItem (map group_item gs)
  unfolding IsPolicy
  combination-policies [] a = tt
  combination-policies (group is ∷ gs) a = (a.0, combination-policies gs a.1)
  combination-policies (groups is ∷ gs) a = elim (a.0) [ ]
  combination-policies (peer_group ws ∷ gs) a = elim (a.0) [ ]
  combination-policies (msp_group m ∷ gs) a = elim (a.0) [ ]

  module _ (retrieve : Retriever) where
    -- The hierarchy of a policy, which accepts what satisfies the policy.
    abbrev pub Compiled : SignaturePolicy → Group → Type 0
    Compiled p g =
        (compile retrieve d ids p ≡ ok (ok g))
        × IsPolicy g
        × ((v : Text → Bool) → holds v g ≡ satisfied v p)

    abbrev CompiledRules : SignaturePolicies → List Group → Type 0
    CompiledRules ps gs =
        (compile_rules retrieve d ids ps ≡ ok (map ok gs))
        × All IsPolicyItem (map group_item gs)
        × (length gs ≡ count_rules ps)
        × ((v : Text → Bool) → count_holding v (map group_item gs) ≡ count_satisfied v ps)

    retrieve_all-ok : (gs : List Group) → retrieve_all retrieve d ids (map ok gs) ≡ ok gs
    unfolding retrieve_all
    retrieve_all-ok [] = refl
    retrieve_all-ok (g ∷ gs) = rw (retrieve_all-ok gs)

    -- `Nof`: a threshold that can be reached is reached by what the group of groups accepts.
    pub n_of-Meaning :
        (k : ℕ) (gs : List Group)
        → All IsPolicyItem (map group_item gs)
        → suc k ≤ length gs
        → (g : Group) × (n_of retrieve (pos (suc k)) gs ≡ ok g)
          × IsPolicy g
          × ((v : Text → Bool) → holds v g ≡ leb (suc k) (count_holding v (map group_item gs)))
    unfolding n_of items_of new_group_of_groups IsPolicy
    n_of-Meaning k gs a h =
        let items = to_list-from_list (map group_item gs) in
        let given = subst (All IsPolicyItem) (sym items) a in
        let combos = get_combinations retrieve k (items_of retrieve (new_group_of_groups gs)) in
        (
          new_group_of_groups combos,
          ground arith,
          from_list-ArePolicies (map group_item combos) (
              combination-policies combos (
                get_combinations-IsCombination retrieve k
                  (items_of retrieve (new_group_of_groups gs)) given)),
          λ v.
              holds-new_group_of_groups v combos
              ∙ get_combinations-any retrieve v k (items_of retrieve (new_group_of_groups gs)) given
              ∙ ap (λ l. leb (suc k) (count_holding v l)) items,
        )

    threshold-Compiled :
        (k : ℕ) (ps : SignaturePolicies) (gs : List Group)
        → suc k ≤ count_rules ps
        → CompiledRules ps gs
        → (g : Group) × Compiled (n_out_of (pos (suc k)) ps) g
    unfolding satisfied compile
    threshold-Compiled k ps gs h (c, a, l, m) =
        let (g, e, p, f) = n_of-Meaning k gs a (omega (arith, l, h)) in
        (
          g,
          (
            rw c (ap ok (ap (λ r. r >>= n_of retrieve (pos (suc k))) (retrieve_all-ok gs) ∙ e)),
            p,
            λ v. f v ∙ ap (leb (suc k)) (m v),
          ),
        )

    rule-CompiledRules :
        (p : SignaturePolicy) (ps : SignaturePolicies) (g : Group) (gs : List Group)
        → Compiled p g
        → CompiledRules ps gs
        → CompiledRules (rule p ps) (g ∷ gs)
    unfolding satisfied compile
    rule-CompiledRules p ps g gs (c, q, f) (cs, a, l, m) = (
      rw c (rw cs refl),
      (q, a),
      ap suc l,
      λ v. let e = f v in let n = m v in ground (arith, e, n),
    )

    signed-ok :
        (r : Result MspPrincipal) (m : Text)
        → (r >>= msp_principal_to_string d) ≡ ok m
        → (r >>= λ p.
            msp_principal_to_string d p >>= λ n. ok (new_group_of_groups (msp_group n ∷ [])))
          ≡ ok (new_group_of_groups (msp_group m ∷ []))
    signed-ok (ok p) m e = rw e refl
    signed-ok (err e) m f = cc
    signed-ok (panicked p) m e = cc

    signer-Compiled : (i : ℤ) → Succeeds (signer d ids i) → (g : Group) × Compiled (signed_by i) g
    unfolding satisfied compile IsPolicy holds new_group_of_groups from_list
    signer-Compiled i (m, e) = (
      new_group_of_groups (msp_group m ∷ []),
      (ap ok (signed-ok (identity_at ids i) m e), (tt, tt), λ v. rw e (ground arith)),
    )

    any_signer-Compiled :
        (rules : SignaturePolicies) → (g : Group) × Compiled (n_out_of (pos zero) rules) g
    unfolding satisfied compile IsPolicy holds new_group_of_groups from_list
    any_signer-Compiled rules =
        (new_group_of_groups (msp_group [] ∷ []), (refl, (tt, tt), λ v. ground arith))

    mutual
      unfolding satisfied IsWellFormed compile

      compiles : (p : SignaturePolicy) → IsWellFormed p → (g : Group) × Compiled p g
      compiles nil_policy w = elim w [ ]
      compiles unknown_policy w = elim w [ ]
      compiles (signed_by i) w = signer-Compiled i w
      compiles (n_out_of (pos zero) rules) w = any_signer-Compiled rules
      compiles (n_out_of (pos (suc k)) rules) w =
          let (gs, c) = compiles_rules rules w.1 in threshold-Compiled k rules gs w.0 c
      compiles (n_out_of (negsuc k) rules) w = elim w [ ]

      compiles_rules :
          (ps : SignaturePolicies) → AreWellFormed ps → (gs : List Group) × CompiledRules ps gs
      compiles_rules end w = ([], (refl, tt, refl, λ v. refl))
      compiles_rules (rule p ps) w =
          let (g, c) = compiles p w.0 in
          let (gs, cs) = compiles_rules ps w.1 in (g ∷ gs, rule-CompiledRules p ps g gs c cs)

    -- A well-formed policy is compiled, its group retriever returns a hierarchy of MSPs, and a set of
    -- MSPs is accepted by the hierarchy exactly when it satisfies the policy.
    pub compile-Meaning : (p : SignaturePolicy) → IsWellFormed p → (g : Group) × Compiled p g
    unfolding compiles
    compile-Meaning p w = compiles p w
