-- ===== src/Selection/Groups/Reduction.antt =====
-- groupsimpl.go: the reduction of a hierarchy of groups to simple groups.
use fabric_sdk_go_gm.Common.{
  ℕ, zero, suc, ◌≡◌, ◌≢◌, refl, sym, ap, ◌∙◌, subst, Bool, true, List, [], ◌∷◌, map, arith, All,
  All-append, All-mono, some, get_elem?,
}
use fabric_sdk_go_gm.Common.Text.{Text}
use fabric_sdk_go_gm.Common.Outcome.{done, ◌>>=◌, Returns, Returns->>=}
use fabric_sdk_go_gm.Selection.Groups.{
  Item, peer_item, wrapper_item, group_item, Group, group, groups, peer_group, msp_group, Items,
  nil, cons, Retriever, to_list, from_list, new_group, new_group_of_groups, items_of,
}
use fabric_sdk_go_gm.Selection.Groups.Combination.{
  and, collapse, prune, combine, concat, reduce, reduce_each,
}
use fabric_sdk_go_gm.Selection.Groups.Meaning.{
  holds, all_items, any_hold, any_holds, any_holds-append, any_hold-map, to_list-from_list,
  holds-new_group,
}
use fabric_sdk_go_gm.Selection.Groups.Conjunction.{every_any, and-any, and-IsPick, Picks, IsPick}
use fabric_sdk_go_gm.Selection.Groups.Collapsing.{
  IsLeaf, IsFlat, Collapses, AllCollapse, items-Collapses, flat-Collapses,
}
use fabric_sdk_go_gm.Selection.Groups.Pruning.{IsMspGroup, prune_lem}

-- A hierarchy of MSPs: a group wants all of at least one hierarchy, a group of groups wants one.
unfoldable mutual
  unfolding to_list

  pub IsPolicy : Group → Type 0
  IsPolicy (group is) = ArePolicies is × (to_list is ≢ [])
  IsPolicy (groups is) = ArePolicies is
  IsPolicy (peer_group ws) = ⊥
  IsPolicy (msp_group m) = Unit

  pub ArePolicies : Items → Type 0
  ArePolicies nil = Unit
  ArePolicies (cons (group_item g) is) = IsPolicy g × ArePolicies is
  ArePolicies (cons (peer_item p) is) = ⊥
  ArePolicies (cons (wrapper_item w) is) = ⊥

-- The groups that a hierarchy is reduced to: simple groups, one of which is accepted exactly when
-- the hierarchy is.
abbrev pub Reduced : Group → List Group → Type 0
Reduced g rs = All IsFlat rs × ((v : Text → Bool) → any_holds v rs ≡ holds v g)

abbrev EachReduced : Items → List (List Group) → Type 0
EachReduced nil [] = Unit
EachReduced nil (r ∷ rs) = ⊥
EachReduced (cons (group_item g) is) [] = ⊥
EachReduced (cons (group_item g) is) (r ∷ rs) = Reduced g r × EachReduced is rs
EachReduced (cons (peer_item p) is) rs = ⊥
EachReduced (cons (wrapper_item w) is) rs = ⊥

module _ (retrieve : Retriever) where
  picked-Collapses :
      (r : List Group) (k : ℕ) (i : Item) (is : List Item)
      → All IsFlat r
      → get_elem? (map group_item r) k ≡ some i
      → AllCollapse retrieve is
      → AllCollapse retrieve (i ∷ is)
  picked-Collapses [] k i is a e h = cc
  picked-Collapses (g ∷ r) zero i is a e h =
      let same : group_item g ≡ i = cc in
      subst (λ j. AllCollapse retrieve (j ∷ is)) same (flat-Collapses retrieve g a.0, h)
  picked-Collapses (g ∷ r) (suc k) i is a e h = picked-Collapses r k i is a.1 e h

  items_of-new_group_of_groups :
      (r : List Group) → items_of retrieve (new_group_of_groups r) ≡ map group_item r
  unfolding items_of new_group_of_groups
  items_of-new_group_of_groups r = to_list-from_list (map group_item r)

  Picks-AllCollapse :
      (rs : List (List Group)) (is : List Item)
      → All (All IsFlat) rs
      → Picks retrieve is (map new_group_of_groups rs)
      → AllCollapse retrieve is
  Picks-AllCollapse [] [] a p = tt
  Picks-AllCollapse [] (i ∷ is) a p = elim p [ ]
  Picks-AllCollapse (r ∷ rs) [] a p = tt
  Picks-AllCollapse (r ∷ rs) (i ∷ is) a ((k, e), p) =
      picked-Collapses r k i is a.0
        (sym (ap (λ l. get_elem? l k) (items_of-new_group_of_groups r)) ∙ e)
        (Picks-AllCollapse rs is a.1 p)

  pick-Collapses :
      (rs : List (List Group))
      → All (All IsFlat) rs
      → (g : Group) → IsPick retrieve [] (map new_group_of_groups rs) g
      → Collapses retrieve g
  unfolding new_group
  pick-Collapses rs a g p =
      let e = to_list-from_list p.picked in
      subst (Collapses retrieve) (sym p.is_group) (
        items-Collapses retrieve (from_list p.picked)
          (subst (AllCollapse retrieve) (sym e) (Picks-AllCollapse rs p.picked a p.picks))
          (subst (λ l. l ≢ []) (sym e) p.non_empty))

  collapse-IsMspGroup : (g : Group) → Collapses retrieve g → IsMspGroup (collapse retrieve g)
  unfolding new_group
  collapse-IsMspGroup g c =
      let e = to_list-from_list c.final in
      subst IsMspGroup (sym c.is_group)
        (subst (All IsLeaf) (sym e) c.leaves, subst (λ l. l ≢ []) (sym e) c.non_empty)

  collapse-any :
      (v : Text → Bool) (gs : List Group)
      → All (Collapses retrieve) gs
      → All IsMspGroup (map (collapse retrieve) gs)
        × (any_holds v (map (collapse retrieve) gs) ≡ any_holds v gs)
  collapse-any v [] a = (tt, refl)
  collapse-any v (g ∷ gs) (c, a) =
      let (l, e) = collapse-any v gs a in
      let f = ap (holds v) c.is_group ∙ holds-new_group v c.final ∙ c.meaning v in
      ((collapse-IsMspGroup g c, l), ground (arith, f, e))

  each-IsFlat : (is : Items) (rs : List (List Group)) → EachReduced is rs → All (All IsFlat) rs
  each-IsFlat nil [] h = tt
  each-IsFlat nil (r ∷ rs) h = elim h [ ]
  each-IsFlat (cons (group_item g) is) [] h = tt
  each-IsFlat (cons (group_item g) is) (r ∷ rs) h = (h.0.0, each-IsFlat is rs h.1)
  each-IsFlat (cons (peer_item p) is) rs h = elim h [ ]
  each-IsFlat (cons (wrapper_item w) is) rs h = elim h [ ]

  each-every :
      (v : Text → Bool) (is : Items) (rs : List (List Group))
      → EachReduced is rs
      → every_any retrieve v (map new_group_of_groups rs) ≡ all_items v is
  unfolding holds
  each-every v nil [] h = refl
  each-every v nil (r ∷ rs) h = elim h [ ]
  each-every v (cons (group_item g) is) [] h = elim h [ ]
  each-every v (cons (group_item g) is) (r ∷ rs) h =
      let e = ap (any_hold v) (items_of-new_group_of_groups r) ∙ any_hold-map v r ∙ h.0.1 v in
      let f = each-every v is rs h.1 in ground (arith, e, f)
  each-every v (cons (peer_item p) is) rs h = elim h [ ]
  each-every v (cons (wrapper_item w) is) rs h = elim h [ ]

  msp_group-IsFlat : (g : Group) → IsMspGroup g → IsFlat g
  msp_group-IsFlat (group is) h = h
  msp_group-IsFlat (groups is) h = h
  msp_group-IsFlat (peer_group ws) h = h
  msp_group-IsFlat (msp_group m) h = tt

  -- The general case of `groupImpl.Reduce`.
  joined-Reduced :
      (is : Items) (rs : List (List Group))
      → EachReduced is rs
      → rs ≢ []
      → Reduced
          (group is)
          (prune retrieve [] (map (collapse retrieve) (and retrieve (map new_group_of_groups rs))))
  unfolding holds
  joined-Reduced is rs h n = (
    All-mono IsMspGroup IsFlat _ msp_group-IsFlat (pruned (λ t. true)).0,
    λ v.
        (pruned v).1
        ∙ (collapse-any v conjunctions simple).1
        ∙ and-any retrieve v (map new_group_of_groups rs) (mapped rs n)
        ∙ each-every v is rs h,
  )
    where
      mapped : (xs : List (List Group)) → xs ≢ [] → map new_group_of_groups xs ≢ []
      mapped [] k = absurd (k refl)
      mapped (x ∷ xs) k = λ e. cc

      conjunctions : List Group
      conjunctions = and retrieve (map new_group_of_groups rs)

      simple : All (Collapses retrieve) conjunctions
      simple =
          All-mono (IsPick retrieve [] (map new_group_of_groups rs)) (Collapses retrieve)
            conjunctions (pick-Collapses rs (each-IsFlat is rs h))
            (and-IsPick retrieve (map new_group_of_groups rs))

      pruned :
          (v : Text → Bool)
          → All IsMspGroup (prune retrieve [] (map (collapse retrieve) conjunctions))
            × (any_holds v (prune retrieve [] (map (collapse retrieve) conjunctions))
                ≡ any_holds v (map (collapse retrieve) conjunctions))
      pruned v =
          prune_lem retrieve v [] (map (collapse retrieve) conjunctions) tt
            (collapse-any v conjunctions simple).0

  combine-Reduced :
      (is : Items) (rs : List (List Group))
      → EachReduced is rs
      → to_list is ≢ []
      → Reduced (group is) (combine retrieve rs)
  unfolding combine holds to_list
  combine-Reduced nil rs h n = absurd (n refl)
  combine-Reduced (cons (peer_item p) is) rs h n = elim h [ ]
  combine-Reduced (cons (wrapper_item w) is) rs h n = elim h [ ]
  combine-Reduced (cons (group_item g) is) [] h n = elim h [ ]
  combine-Reduced (cons (group_item g) nil) (r ∷ []) h n =
      (h.0.0, λ v. let e = h.0.1 v in ground (arith, e))
  combine-Reduced (cons (group_item g) (cons (group_item i) is)) (r ∷ []) h n = elim (h.1) [ ]
  combine-Reduced (cons (group_item g) (cons (peer_item i) is)) (r ∷ []) h n = elim (h.1) [ ]
  combine-Reduced (cons (group_item g) (cons (wrapper_item i) is)) (r ∷ []) h n = elim (h.1) [ ]
  combine-Reduced (cons (group_item g) is) (r ∷ s ∷ rs) h n =
      joined-Reduced (cons (group_item g) is) (r ∷ s ∷ rs) h (λ e. cc)

  concat-Reduced :
      (is : Items) (rs : List (List Group)) → EachReduced is rs → Reduced (groups is) (concat rs)
  unfolding holds
  concat-Reduced nil [] h = (tt, λ v. refl)
  concat-Reduced nil (r ∷ rs) h = elim h [ ]
  concat-Reduced (cons (group_item g) is) [] h = elim h [ ]
  concat-Reduced (cons (group_item g) is) (r ∷ rs) h =
      let (l, e) = concat-Reduced is rs h.1 in
      (
        All-append IsFlat r (concat rs) h.0.0 l,
        λ v.
            let f = any_holds-append v r (concat rs) in
            let a = e v in let b = h.0.1 v in ground (arith, f, a, b),
      )
  concat-Reduced (cons (peer_item p) is) rs h = elim h [ ]
  concat-Reduced (cons (wrapper_item w) is) rs h = elim h [ ]

  mutual
    unfolding IsPolicy reduce holds

    reduce_policy : (g : Group) → IsPolicy g → Returns (Reduced g) (reduce retrieve g)
    reduce_policy (group is) p =
        Returns->>= (EachReduced is) (Reduced (group is)) (reduce_each retrieve is)
          (λ rs. done (combine retrieve rs)) (reduce_policies is p.0)
          λ rs h. combine-Reduced is rs h p.1
    reduce_policy (groups is) p =
        Returns->>= (EachReduced is) (Reduced (groups is)) (reduce_each retrieve is)
          (λ rs. done (concat rs)) (reduce_policies is p) λ rs h. concat-Reduced is rs h
    reduce_policy (peer_group ws) p = elim p [ ]
    reduce_policy (msp_group m) p = ((tt, tt), λ v. ground arith)

    reduce_policies :
        (is : Items) → ArePolicies is → Returns (EachReduced is) (reduce_each retrieve is)
    reduce_policies nil p = tt
    reduce_policies (cons (group_item g) is) p =
        Returns->>= (Reduced g) (EachReduced (cons (group_item g) is)) (reduce retrieve g)
          (λ r. reduce_each retrieve is >>= λ rs. done (r ∷ rs)) (reduce_policy g p.0)
          λ r a.
            Returns->>= (EachReduced is) (EachReduced (cons (group_item g) is))
              (reduce_each retrieve is) (λ rs. done (r ∷ rs)) (reduce_policies is p.1)
              λ rs b. (a, b)
    reduce_policies (cons (peer_item i) is) p = elim p [ ]
    reduce_policies (cons (wrapper_item w) is) p = elim p [ ]

  -- The reduction of a hierarchy of MSPs returns simple groups, and a set of MSPs is accepted by one
  -- of them exactly when the hierarchy accepts it.
  pub reduce-Meaning : (g : Group) → IsPolicy g → Returns (Reduced g) (reduce retrieve g)
  unfolding reduce_policy
  reduce-Meaning g p = reduce_policy g p
