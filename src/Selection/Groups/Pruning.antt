-- ===== src/Selection/Groups/Pruning.antt =====
-- groupsimpl.go: the removal of equal groups.
use fabric_sdk_go_gm.Common.{
  ◌≡◌, ◌≢◌, refl, sym, ◌∙◌, Bool, true, false, ◌||◌, List, [], ◌∷◌, ◌++◌, arith, All, All-append,
  Bool-cases, inl, inr, if◌then◌else◌,
}
use fabric_sdk_go_gm.Common.Text.{Text}
use fabric_sdk_go_gm.Selection.Groups.{
  Item, Group, group, groups, peer_group, msp_group, Items, nil, cons, Retriever, to_list, items_of,
}
use fabric_sdk_go_gm.Selection.Groups.Equality.{equals, all_items_in, contains_item, contains_group}
use fabric_sdk_go_gm.Selection.Groups.Combination.{prune}
use fabric_sdk_go_gm.Selection.Groups.Meaning.{
  holds, hold, all_items, all_hold, any_holds, any_holds-append, all_items-to_list,
}
use fabric_sdk_go_gm.Selection.Groups.Collapsing.{IsLeaf, contains-hold}

-- A group of some MSPs.
abbrev pub IsMspGroup : Group → Type 0
IsMspGroup (group is) = All IsLeaf (to_list is) × (to_list is ≢ [])
IsMspGroup (groups is) = ⊥
IsMspGroup (peer_group ws) = ⊥
IsMspGroup (msp_group m) = ⊥

module _ (retrieve : Retriever) (v : Text → Bool) where
  included :
      (is : Items) (os : List Item)
      → All IsLeaf (to_list is)
      → All IsLeaf os
      → all_items_in retrieve is os ≡ true
      → all_hold v os ≡ true
      → all_items v is ≡ true
  unfolding equals holds to_list
  included nil os a b c h = refl
  included (cons i is) os a b c h =
      let first : contains_item retrieve i os ≡ true = ground (arith, c) in
      let rest : all_items_in retrieve is os ≡ true = ground (arith, c) in
      let held : hold v i ≡ true = contains-hold retrieve v i os a.0 b first h in
      let others : all_hold v (to_list is) ≡ true =
        sym (all_items-to_list v is) ∙ included is os a.1 b rest h in
      all_items-to_list v (cons i is) ∙ ground (arith, held, others)

  -- A group that is equal to one that holds.
  equal-holds :
      (g h : Group)
      → IsMspGroup g
      → IsMspGroup h
      → equals retrieve h g ≡ true
      → holds v g ≡ true
      → holds v h ≡ true
  unfolding equals holds to_list items_of
  equal-holds (group os) (group is) a b e k =
      included is (to_list os) b.0 a.0 (ground (arith, e)) (sym (all_items-to_list v os) ∙ k)
  equal-holds (group os) (groups is) a b e k = elim b [ ]
  equal-holds (group os) (peer_group ws) a b e k = elim b [ ]
  equal-holds (group os) (msp_group m) a b e k = elim b [ ]
  equal-holds (groups os) h a b e k = elim a [ ]
  equal-holds (peer_group ws) h a b e k = elim a [ ]
  equal-holds (msp_group m) h a b e k = elim a [ ]

  contained-holds :
      (hs : List Group) (g : Group)
      → All IsMspGroup hs
      → IsMspGroup g
      → contains_group retrieve hs g ≡ true
      → holds v g ≡ true
      → any_holds v hs ≡ true
  unfolding contains_group
  contained-holds [] g a b c k = cc
  contained-holds (h ∷ hs) g a b c k = elim (Bool-cases (equals retrieve h g)) [
    | inl e ↦ let p = equal-holds g h b a.0 e k in ground (arith, p)
    | inr e ↦
        let later : contains_group retrieve hs g ≡ true = ground (arith, c, e) in
        let p = contained-holds hs g a.1 b later k in ground (arith, p)
  ]

  kept-any :
      (hs : List Group) (g : Group)
      → All IsMspGroup hs
      → IsMspGroup g
      → any_holds v (if contains_group retrieve hs g then hs else hs ++ g ∷ [])
        ≡ (any_holds v hs || holds v g)
  kept-any hs g a b = elim (Bool-cases (contains_group retrieve hs g)) [
    | inl e ↦ rw e (elim (Bool-cases (holds v g)) [
      | inl k ↦ let p = contained-holds hs g a b e k in ground (arith, k, p)
      | inr k ↦ ground (arith, k)
    ])
    | inr e ↦ rw e (let s = any_holds-append v hs (g ∷ []) in ground (arith, s))
  ]

  pub prune_lem :
      (hs gs : List Group)
      → All IsMspGroup hs
      → All IsMspGroup gs
      → All IsMspGroup (prune retrieve hs gs)
        × (any_holds v (prune retrieve hs gs) ≡ (any_holds v hs || any_holds v gs))
  unfolding prune
  prune_lem hs [] a b = (a, ground arith)
  prune_lem hs (g ∷ gs) a b =
      let hs1 = if contains_group retrieve hs g then hs else hs ++ g ∷ [] in
      let (l, e) = prune_lem hs1 gs (kept (contains_group retrieve hs g)) b.1 in
      let f = kept-any hs g a b.0 in (l, e ∙ ground (arith, f))
    where
      kept : (t : Bool) → All IsMspGroup (if t then hs else hs ++ g ∷ [])
      kept true = a
      kept false = All-append IsMspGroup hs (g ∷ []) a (b.0, tt)
