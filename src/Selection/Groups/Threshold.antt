-- ===== src/Selection/Groups/Threshold.antt =====
-- groupsimpl.go: what the combinations of a threshold mean.
use fabric_sdk_go_gm.Common.{
  ℕ, zero, suc, ◌-◌, ◌≤◌, ◌≡◌, ◌≢◌, refl, sym, ap, ◌∙◌, subst, Bool, ◌&&◌, List, [], ◌∷◌, map,
  arith, All, All-append, Option, none, some, get_elem?, drop, length, leb, if◌then◌else◌,
  Bool-cases, inl, inr,
}
use fabric_sdk_go_gm.Common.Text.{Text}
use fabric_sdk_go_gm.Selection.Groups.{
  Item, peer_item, wrapper_item, group_item, Group, group, groups, peer_group, msp_group, Items,
  nil, cons, Retriever, to_list, from_list, new_group, items_of,
}
use fabric_sdk_go_gm.Selection.Groups.Combination.{rounds, get_combinations}
use fabric_sdk_go_gm.Selection.Groups.Meaning.{
  holds, hold, all_hold, any_holds, any_holds-append, all_items-to_list, holds-new_group,
  to_list-from_list,
}
use fabric_sdk_go_gm.Selection.Groups.Reduction.{IsPolicy, ArePolicies}

abbrev pub IsPolicyItem : Item → Type 0
IsPolicyItem (group_item g) = IsPolicy g
IsPolicyItem (peer_item p) = ⊥
IsPolicyItem (wrapper_item w) = ⊥

-- A group of hierarchies of MSPs.
abbrev pub IsCombination : Group → Type 0
IsCombination (group is) = ArePolicies is × (to_list is ≢ [])
IsCombination (groups is) = ⊥
IsCombination (peer_group ws) = ⊥
IsCombination (msp_group m) = ⊥

-- The number of the items that are accepted.
abbrev pub count_holding : (Text → Bool) → List Item → ℕ
count_holding v [] = 0
count_holding v (i ∷ is) = if hold v i then suc (count_holding v is) else count_holding v is

count_holding_le : (v : Text → Bool) (is : List Item) → count_holding v is ≤ length is
count_holding_le v [] = omega arith
count_holding_le v (i ∷ is) = ground (arith, count_holding_le v is)

drop-cons :
    {A : Type 0} (items : List A) (i : ℕ) (x : A) (xs : List A)
    → drop i items ≡ x ∷ xs
    → (get_elem? items i ≡ some x) × (drop (suc i) items ≡ xs)
drop-cons [] zero x xs e = cc
drop-cons [] (suc i) x xs e = cc
drop-cons (y ∷ items) zero x xs e = (cc, cc)
drop-cons (y ∷ items) (suc i) x xs e = drop-cons items i x xs e

All-drop : {A : Type 0} (P : A → Type 0) (i : ℕ) (xs : List A) → All P xs → All P (drop i xs)
All-drop P zero xs a = a
All-drop P (suc i) [] a = tt
All-drop P (suc i) (x ∷ xs) a = All-drop P i xs a.1

All-get_elem? :
    {A : Type 0} (P : A → Type 0) (xs : List A) (i : ℕ) (x : A)
    → All P xs
    → get_elem? xs i ≡ some x
    → P x
All-get_elem? P [] i x a e = cc
All-get_elem? P (y ∷ xs) zero x a e = let same : y ≡ x = cc in subst P same a.0
All-get_elem? P (y ∷ xs) (suc i) x a e = All-get_elem? P xs i x a.1 e

rounds-All :
    {B : Type 0} (P : B → Type 0) (n i : ℕ) (f : ℕ → List B)
    → ((j : ℕ) → All P (f j))
    → All P (rounds n i f)
unfolding rounds
rounds-All P zero i f h = tt
rounds-All P (suc n) i f h =
    All-append P (f i) (rounds n (suc i) f) (h i) (rounds-All P n (suc i) f h)

pub from_list-ArePolicies : (is : List Item) → All IsPolicyItem is → ArePolicies (from_list is)
unfolding IsPolicy from_list
from_list-ArePolicies [] a = tt
from_list-ArePolicies (group_item g ∷ is) a = (a.0, from_list-ArePolicies is a.1)
from_list-ArePolicies (peer_item p ∷ is) a = elim (a.0) [ ]
from_list-ArePolicies (wrapper_item w ∷ is) a = elim (a.0) [ ]

to_list-All : (is : Items) → ArePolicies is → All IsPolicyItem (to_list is)
unfolding IsPolicy to_list
to_list-All nil a = tt
to_list-All (cons (group_item g) is) a = (a.0, to_list-All is a.1)
to_list-All (cons (peer_item p) is) a = elim a [ ]
to_list-All (cons (wrapper_item w) is) a = elim a [ ]

new_group-IsCombination :
    (i : Item) (is : List Item)
    → IsPolicyItem i
    → All IsPolicyItem is
    → IsCombination (new_group (i ∷ is))
unfolding new_group
new_group-IsCombination i is a b = (
  from_list-ArePolicies (i ∷ is) (a, b),
  subst (λ l. l ≢ []) (sym (to_list-from_list (i ∷ is))) (λ e. cc),
)

module _ (retrieve : Retriever) where
  combination-items : (g : Group) → IsCombination g → All IsPolicyItem (items_of retrieve g)
  unfolding items_of
  combination-items (group is) c = to_list-All is c.0
  combination-items (groups is) c = elim c [ ]
  combination-items (peer_group ws) c = elim c [ ]
  combination-items (msp_group m) c = elim c [ ]

  with_left-IsCombination :
      (left : Item) (gs : List Group)
      → IsPolicyItem left
      → All IsCombination gs
      → All IsCombination (map (λ g. new_group (left ∷ items_of retrieve g)) gs)
  with_left-IsCombination left [] a b = tt
  with_left-IsCombination left (g ∷ gs) a b = (
    new_group-IsCombination left (items_of retrieve g) a (combination-items g b.0),
    with_left-IsCombination left gs a b.1,
  )

  alone-IsCombination :
      (is : List Item) → All IsPolicyItem is → All IsCombination (map (λ i. new_group (i ∷ [])) is)
  alone-IsCombination [] a = tt
  alone-IsCombination (i ∷ is) a = (new_group-IsCombination i [] a.0 tt, alone-IsCombination is a.1)

  pub get_combinations-IsCombination :
      (k : ℕ) (items : List Item)
      → All IsPolicyItem items
      → All IsCombination (get_combinations retrieve k items)
  unfolding get_combinations
  get_combinations-IsCombination zero items a = alone-IsCombination items a
  get_combinations-IsCombination (suc k) items a =
      rounds-All IsCombination (length items - suc k) 0 _ λ i.
        from i (get_elem? items i) (λ x e. All-get_elem? IsPolicyItem items i x a e)
          (get_combinations-IsCombination k (drop (suc i) items)
            (All-drop IsPolicyItem (suc i) items a))
    where
      from :
          (i : ℕ) (o : Option Item)
          → ((x : Item) → o ≡ some x → IsPolicyItem x)
          → All IsCombination (get_combinations retrieve k (drop (suc i) items))
          → All IsCombination (elim o [
            | none ↦ []
            | some left ↦
                map
                  (λ g. new_group (left ∷ items_of retrieve g))
                  (get_combinations retrieve k (drop (suc i) items))
          ])
      from i none h b = tt
      from i (some left) h b =
          with_left-IsCombination left (get_combinations retrieve k (drop (suc i) items))
            (h left refl) b

  module _ (v : Text → Bool) where
    combination-holds : (g : Group) → IsCombination g → all_hold v (items_of retrieve g) ≡ holds v g
    unfolding items_of holds
    combination-holds (group is) c = sym (all_items-to_list v is)
    combination-holds (groups is) c = elim c [ ]
    combination-holds (peer_group ws) c = elim c [ ]
    combination-holds (msp_group m) c = elim c [ ]

    with_left-any :
        (left : Item) (gs : List Group)
        → All IsCombination gs
        → any_holds v (map (λ g. new_group (left ∷ items_of retrieve g)) gs)
          ≡ (hold v left && any_holds v gs)
    with_left-any left [] a = ground arith
    with_left-any left (g ∷ gs) a =
        let e = holds-new_group v (left ∷ items_of retrieve g) in
        let f = combination-holds g a.0 in
        let h = with_left-any left gs a.1 in ground (arith, e, f, h)

    alone-any :
        (is : List Item)
        → any_holds v (map (λ i. new_group (i ∷ [])) is) ≡ leb 1 (count_holding v is)
    alone-any [] = refl
    alone-any (i ∷ is) =
        let e = holds-new_group v (i ∷ []) in let h = alone-any is in ground (arith, e, h)

    -- The loop of `getCombinations` from the index `i` on, at which the items `xs` are left.
    module _ (k : ℕ) (items : List Item) (policies : All IsPolicyItem items)
        (shorter : (ys : List Item)
          → All IsPolicyItem ys
          → any_holds v (get_combinations retrieve k ys) ≡ leb (suc k) (count_holding v ys)) where
      abbrev started : ℕ → Option Item → List Group
      started i o = elim o [
        | none ↦ []
        | some left ↦
            map (λ g. new_group (left ∷ items_of retrieve g))
              (get_combinations retrieve k (drop (suc i) items))
      ]

      abbrev round : ℕ → List Group
      round i = started i (get_elem? items i)

      round-any :
          (i : ℕ) (x : Item) (xs : List Item)
          → drop i items ≡ x ∷ xs
          → any_holds v (round i) ≡ (hold v x && leb (suc k) (count_holding v xs))
      round-any i x xs e =
          let (found, rest) = drop-cons items i x xs e in
          let left = All-drop IsPolicyItem (suc i) items policies in
          let combinations = get_combinations-IsCombination k (drop (suc i) items) left in
          let s = shorter (drop (suc i) items) left in
          let counted = ap (λ l. leb (suc k) (count_holding v l)) rest in
          ap (λ o. any_holds v (started i o)) found
          ∙ with_left-any x (get_combinations retrieve k (drop (suc i) items)) combinations
          ∙ ap (hold v x &&◌) (s ∙ counted)

      rounds-any :
          (i : ℕ) (xs : List Item)
          → drop i items ≡ xs
          → any_holds v (rounds (length xs - suc k) i round)
            ≡ leb (suc (suc k)) (count_holding v xs)
      unfolding rounds
      rounds-any i [] e = let none_left : 0 - suc k ≡ 0 = omega arith in rw none_left (ground arith)
      rounds-any i (x ∷ xs) e = elim (Bool-cases (leb (length xs) k)) [
        | inl short ↦
            let none_left : suc (length xs) - suc k ≡ 0 = ground arith in
            let few = count_holding_le v xs in rw none_left (ground (arith, few, short))
        | inr long ↦
            let more : suc (length xs) - suc k ≡ suc (length xs - suc k) = ground arith in
            let ih = rounds-any (suc i) xs ((drop-cons items i x xs e).1) in
            let here = round-any i x xs e in
            let joined = any_holds-append v (round i) (rounds (length xs - suc k) (suc i) round) in
            rw more (joined ∙ ground (arith, here, ih))
      ]

    -- Of hierarchies of MSPs, one of the combinations of a length is accepted exactly when at least as
    -- many of the hierarchies are accepted as the combination is long.
    pub get_combinations-any :
        (k : ℕ) (items : List Item)
        → All IsPolicyItem items
        → any_holds v (get_combinations retrieve k items) ≡ leb (suc k) (count_holding v items)
    unfolding get_combinations
    get_combinations-any zero items a = alone-any items
    get_combinations-any (suc k) items a =
        rounds-any k items a (get_combinations-any k) 0 items refl
