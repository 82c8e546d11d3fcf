-- ===== src/Selection/Groups/Collapsing.antt =====
-- groupsimpl.go: the collapse of a group of flat groups, and the removal of equal groups.
use fabric_sdk_go_gm.Common.{
  ◌≡◌, ◌≢◌, refl, sym, ap, ◌∙◌, subst, Bool, true, false, ◌&&◌, List, [], ◌∷◌, ◌++◌, arith, All,
  All-append, Bool-cases, inl, inr, if◌then◌else◌,
}
use fabric_sdk_go_gm.Common.Text.{Text, text_eq, text_eq→eq}
use fabric_sdk_go_gm.Selection.Groups.{
  Item, peer_item, wrapper_item, group_item, Group, group, groups, peer_group, msp_group, Items,
  nil, cons, Retriever, to_list, new_group, items_of,
}
use fabric_sdk_go_gm.Selection.Groups.Equality.{any_group, equals, contains_item}
use fabric_sdk_go_gm.Selection.Groups.Combination.{add_items, collapsed, collapse, collapse_items}
use fabric_sdk_go_gm.Selection.Groups.Meaning.{
  holds, hold, all_items, all_hold, all_hold-append, to_list-from_list,
}

-- A group of the peers of one MSP.
abbrev pub IsLeaf : Item → Type 0
IsLeaf (group_item (msp_group m)) = Unit
IsLeaf (group_item (group is)) = ⊥
IsLeaf (group_item (groups is)) = ⊥
IsLeaf (group_item (peer_group ws)) = ⊥
IsLeaf (peer_item p) = ⊥
IsLeaf (wrapper_item w) = ⊥

-- A simple group: an MSP, or some MSPs all of which are wanted.
abbrev pub IsFlat : Group → Type 0
IsFlat (msp_group m) = Unit
IsFlat (group is) = All IsLeaf (to_list is) × (to_list is ≢ [])
IsFlat (groups is) = ⊥
IsFlat (peer_group ws) = ⊥

pub new_group-IsFlat : (is : List Item) → All IsLeaf is → is ≢ [] → IsFlat (new_group is)
unfolding new_group
new_group-IsFlat is a n =
    let e = to_list-from_list is in (subst (All IsLeaf) (sym e) a, subst (λ l. l ≢ []) (sym e) n)

pub items_of-new_group :
    (retrieve : Retriever) (is : List Item) → items_of retrieve (new_group is) ≡ is
unfolding items_of new_group
items_of-new_group retrieve is = to_list-from_list is

module _ (retrieve : Retriever) (v : Text → Bool) where
  -- An item that is contained is accepted if all are.
  pub contains-hold :
      (i : Item) (os : List Item)
      → IsLeaf i
      → All IsLeaf os
      → contains_item retrieve i os ≡ true
      → all_hold v os ≡ true
      → hold v i ≡ true
  unfolding equals holds
  contains-hold (peer_item p) os l a c h = elim l [ ]
  contains-hold (wrapper_item w) os l a c h = elim l [ ]
  contains-hold (group_item (group is)) os l a c h = elim l [ ]
  contains-hold (group_item (groups is)) os l a c h = elim l [ ]
  contains-hold (group_item (peer_group ws)) os l a c h = elim l [ ]
  contains-hold (group_item (msp_group m)) [] l a c h = cc
  contains-hold (group_item (msp_group m)) (peer_item p ∷ os) l a c h = elim (a.0) [ ]
  contains-hold (group_item (msp_group m)) (wrapper_item w ∷ os) l a c h = elim (a.0) [ ]
  contains-hold (group_item (msp_group m)) (group_item (group is) ∷ os) l a c h = elim (a.0) [ ]
  contains-hold (group_item (msp_group m)) (group_item (groups is) ∷ os) l a c h = elim (a.0) [ ]
  contains-hold (group_item (msp_group m)) (group_item (peer_group ws) ∷ os) l a c h =
      elim (a.0) [ ]
  contains-hold (group_item (msp_group m)) (group_item (msp_group n) ∷ os) l a c h =
      elim (Bool-cases (text_eq n m)) [
        | inl e ↦ let same = text_eq→eq n m e in let held = ap v same in ground (arith, h, held)
        | inr e ↦
            let later : any_group (equals retrieve (msp_group m)) os ≡ true =
              ground (arith, c, e) in
            let rest : all_hold v os ≡ true = ground (arith, h) in
            contains-hold (group_item (msp_group m)) os l a.1 later rest
      ]

  add_item-hold :
      (i : Item) (c : List Item)
      → IsLeaf i
      → All IsLeaf c
      → all_hold v (if contains_item retrieve i c then c else c ++ i ∷ [])
        ≡ (all_hold v c && hold v i)
  add_item-hold i c l a = elim (Bool-cases (contains_item retrieve i c)) [
    | inl e ↦ rw e (elim (Bool-cases (all_hold v c)) [
      | inl h ↦ let k = contains-hold i c l a e h in ground (arith, h, k)
      | inr h ↦ ground (arith, h)
    ])
    | inr e ↦ rw e (let s = all_hold-append v c (i ∷ []) in ground (arith, s))
  ]

  pub add_items-hold :
      (c is : List Item)
      → All IsLeaf c
      → All IsLeaf is
      → All IsLeaf (add_items retrieve c is)
        × (all_hold v (add_items retrieve c is) ≡ (all_hold v c && all_hold v is))
  unfolding add_items
  add_items-hold c [] a b = (a, ground arith)
  add_items-hold c (i ∷ is) a b =
      let c1 = if contains_item retrieve i c then c else c ++ i ∷ [] in
      let a1 = added (contains_item retrieve i c) in
      let (l, e) = add_items-hold c1 is a1 b.1 in
      let f = add_item-hold i c b.0 a in (l, e ∙ ground (arith, f))
    where
      added : (t : Bool) → All IsLeaf (if t then c else c ++ i ∷ [])
      added true = a
      added false = All-append IsLeaf c (i ∷ []) a (b.0, tt)

module _ (retrieve : Retriever) where
  add_items-ne : (c is : List Item) → c ≢ [] → add_items retrieve c is ≢ []
  unfolding add_items
  add_items-ne c [] n = n
  add_items-ne c (i ∷ is) n =
      add_items-ne (if contains_item retrieve i c then c else c ++ i ∷ []) is
        (grown (contains_item retrieve i c))
    where
      grown : (t : Bool) → (if t then c else c ++ i ∷ []) ≢ []
      grown true = n
      grown false = grows c
        where
          grows : (xs : List Item) → (xs ++ i ∷ []) ≢ []
          grows [] = λ e. cc
          grows (x ∷ xs) = λ e. cc

  contains-nil : (i : Item) → contains_item retrieve i [] ≡ false
  unfolding equals
  contains-nil (peer_item p) = refl
  contains-nil (wrapper_item w) = refl
  contains-nil (group_item g) = refl

  add_items-started : (is : List Item) → is ≢ [] → add_items retrieve [] is ≢ []
  unfolding add_items
  add_items-started [] n = absurd (n refl)
  add_items-started (i ∷ is) n = rw (contains-nil i) (add_items-ne (i ∷ []) is (λ e. cc))

  add_items-some : (c is : List Item) → is ≢ [] → add_items retrieve c is ≢ []
  add_items-some [] is n = add_items-started is n
  add_items-some (i ∷ c) is n = add_items-ne (i ∷ c) is (λ e. cc)

  -- What a group collapses to: the group of some MSPs that means the same.
  pub record Collapses (g : Group) : Type 0 where
    pub final : List Item
    pub is_group : collapse retrieve g ≡ new_group final
    pub leaves : All IsLeaf final
    pub non_empty : final ≢ []
    pub meaning : (v : Text → Bool) → all_hold v final ≡ holds v g

  abbrev pub AllCollapse : List Item → Type 0
  AllCollapse [] = Unit
  AllCollapse (group_item g ∷ is) = Collapses g × AllCollapse is
  AllCollapse (peer_item p ∷ is) = ⊥
  AllCollapse (wrapper_item w ∷ is) = ⊥

  collapsed-none : (c : List Item) → collapsed retrieve c [] ≡ new_group c
  unfolding collapsed
  collapsed-none [] = refl
  collapsed-none (i ∷ c) = refl

  -- What the loop of `Collapse` gathers, from the list `c` on.
  record Gathers (c : List Item) (is : Items) : Type 0 where
    final : List Item
    is_group : collapse_items retrieve is c [] ≡ new_group final
    leaves : All IsLeaf final
    kept : c ≢ [] → final ≢ []
    started : is ≢ nil → final ≢ []
    meaning : (v : Text → Bool) → all_hold v final ≡ (all_hold v c && all_items v is)

  gathers : (is : Items) (c : List Item) → AllCollapse (to_list is) → All IsLeaf c → Gathers c is
  unfolding collapse holds to_list
  gathers nil c k a = record {
    final = c;
    is_group = collapsed-none c;
    leaves = a;
    kept = λ n. n;
    started = λ n. absurd (n refl);
    meaning = λ v. ground arith;
  }
  gathers (cons (group_item g) is) c (q, k) a =
      let items : items_of retrieve (collapse retrieve g) ≡ q.final =
        ap (items_of retrieve) q.is_group ∙ items_of-new_group retrieve q.final in
      let c1 = add_items retrieve c (items_of retrieve (collapse retrieve g)) in
      let leafs : All IsLeaf (items_of retrieve (collapse retrieve g)) =
        subst (All IsLeaf) (sym items) q.leaves in
      let step = λ (v : Text → Bool).
        add_items-hold retrieve v c (items_of retrieve (collapse retrieve g)) a leafs in
      let r = gathers is c1 k (step (λ t. true)).0 in
      record {
        final = r.final;
        is_group = r.is_group;
        leaves = r.leaves;
        kept = λ n. r.kept (add_items-ne c (items_of retrieve (collapse retrieve g)) n);
        started = λ _. r.kept (
            add_items-some c (items_of retrieve (collapse retrieve g))
              (λ e. q.non_empty (sym items ∙ e)));
        meaning = λ v.
            let e = r.meaning v in
            let f = (step v).1 in
            let m = ap (all_hold v) items ∙ q.meaning v in e ∙ ground (arith, f, m);
      }
  gathers (cons (peer_item p) is) c k a = elim k [ ]
  gathers (cons (wrapper_item w) is) c k a = elim k [ ]

  leaf-Collapses : (i : Item) (is : List Item) → IsLeaf i → AllCollapse is → AllCollapse (i ∷ is)
  unfolding collapse holds
  leaf-Collapses (group_item (msp_group m)) is l k = (
    record {
      final = group_item (msp_group m) ∷ [];
      is_group = refl;
      leaves = (tt, tt);
      non_empty = λ e. cc;
      meaning = λ v. ground arith;
    },
    k,
  )
  leaf-Collapses (group_item (group x)) is l k = elim l [ ]
  leaf-Collapses (group_item (groups x)) is l k = elim l [ ]
  leaf-Collapses (group_item (peer_group x)) is l k = elim l [ ]
  leaf-Collapses (peer_item p) is l k = elim l [ ]
  leaf-Collapses (wrapper_item w) is l k = elim l [ ]

  leaves-AllCollapse : (is : List Item) → All IsLeaf is → AllCollapse is
  leaves-AllCollapse [] a = tt
  leaves-AllCollapse (i ∷ is) a = leaf-Collapses i is a.0 (leaves-AllCollapse is a.1)

  pub items-Collapses :
      (is : Items) → AllCollapse (to_list is) → to_list is ≢ [] → Collapses (group is)
  unfolding collapse holds to_list
  items-Collapses nil k n = absurd (n refl)
  items-Collapses (cons i is) k n =
      let r = gathers (cons i is) [] k tt in
      record {
        final = r.final;
        is_group = r.is_group;
        leaves = r.leaves;
        non_empty = r.started (λ e. cc);
        meaning = r.meaning;
      }

  pub flat-Collapses : (g : Group) → IsFlat g → Collapses g
  unfolding to_list
  flat-Collapses (msp_group m) f = (leaves-AllCollapse (group_item (msp_group m) ∷ []) (tt, tt)).0
  flat-Collapses (group is) f = items-Collapses is (leaves-AllCollapse (to_list is) f.0) f.1
  flat-Collapses (groups is) f = elim f [ ]
  flat-Collapses (peer_group ws) f = elim f [ ]
