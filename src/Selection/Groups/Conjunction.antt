-- ===== src/Selection/Groups/Conjunction.antt =====
-- groupsimpl.go: what the `and` of groups means, and what it picks.
use mathlib.Core.List.{append-nil, append_assoc}
use fabric_sdk_go_gm.Common.{
  ℕ, suc, ◌+◌, ◌≡◌, ◌≢◌, refl, sym, ap, ◌∙◌, subst, Bool, true, ◌&&◌, List, [], ◌∷◌, ◌++◌, Option,
  none, some, arith, All, All-append, All-mono, get_elem?,
}
use fabric_sdk_go_gm.Common.Text.{Text}
use fabric_sdk_go_gm.Selection.Groups.{Item, Group, Retriever, new_group, items_of}
use fabric_sdk_go_gm.Selection.Groups.Combination.{
  each_index, stacked_items, group_unless_empty, and_groups, and,
}
use fabric_sdk_go_gm.Selection.Groups.Meaning.{
  hold, all_hold, any_hold, any_holds, all_hold-append, any_holds-append, holds-new_group,
}

-- A loop over the indices: what all rounds give, and what one of them does.
each_index-All :
    {A B : Type 0} (P : B → Type 0) (xs : List A) (j : ℕ) (f : ℕ → List B)
    → ((k : ℕ) (x : A) → get_elem? xs k ≡ some x → All P (f (j + k)))
    → All P (each_index xs j f)
unfolding each_index
each_index-All P [] j f h = tt
each_index-All P (x ∷ xs) j f h =
    let first : j + 0 ≡ j = omega arith in
    All-append P (f j) (each_index xs (suc j) f) (subst (λ n. All P (f n)) first (h 0 x refl)) (
      each_index-All P xs (suc j) f λ k y e.
        let next : j + suc k ≡ suc j + k = omega arith in
        subst (λ n. All P (f n)) next (h (suc k) y e))

module _ (v : Text → Bool) where
  each_index-any :
      (xs : List Item) (j : ℕ) (f : ℕ → List Group) (a b : Bool)
      → ((k : ℕ) (x : Item)
          → get_elem? xs k ≡ some x
          → any_holds v (f (j + k)) ≡ (a && (hold v x && b)))
      → any_holds v (each_index xs j f) ≡ (a && (any_hold v xs && b))
  unfolding each_index
  each_index-any [] j f a b h = ground arith
  each_index-any (x ∷ xs) j f a b h =
      let first : j + 0 ≡ j = omega arith in
      let p : any_holds v (f j) ≡ (a && (hold v x && b)) =
        subst (λ n. any_holds v (f n) ≡ (a && (hold v x && b))) first (h 0 x refl) in
      let q : any_holds v (each_index xs (suc j) f) ≡ (a && (any_hold v xs && b)) =
        each_index-any xs (suc j) f a b (λ k y e.
          let next : j + suc k ≡ suc j + k = omega arith in
          subst (λ n. any_holds v (f n) ≡ (a && (hold v y && b))) next (h (suc k) y e)) in
      any_holds-append v (f j) (each_index xs (suc j) f) ∙ ground (arith, p, q)

pub append-ne-nil : {A : Type 0} (xs : List A) (x : A) → (xs ++ x ∷ []) ≢ []
append-ne-nil [] x = λ e. cc
append-ne-nil (y ∷ xs) x = λ e. cc

module _ (retrieve : Retriever) where
  pub stacked-append :
      (stack : List (Group × ℕ)) (g : Group) (j : ℕ) (x : Item)
      → get_elem? (items_of retrieve g) j ≡ some x
      → stacked_items retrieve (stack ++ (g, j) ∷ []) ≡ stacked_items retrieve stack ++ x ∷ []
  unfolding stacked_items
  stacked-append [] g j x e = rw (e, stacked_items)
  stacked-append ((h, k) ∷ stack) g j x e =
      pushed (get_elem? (items_of retrieve h) k) (stacked-append stack g j x e)
    where
      pushed :
          (o : Option Item)
          → stacked_items retrieve (stack ++ (g, j) ∷ []) ≡ stacked_items retrieve stack ++ x ∷ []
          → (elim o [
            | none ↦ stacked_items retrieve (stack ++ (g, j) ∷ [])
            | some i ↦ i ∷ stacked_items retrieve (stack ++ (g, j) ∷ [])
          ])
            ≡ (elim o [
              | none ↦ stacked_items retrieve stack
              | some i ↦ i ∷ stacked_items retrieve stack
            ])
              ++ x ∷ []
      pushed none ih = ih
      pushed (some i) ih = ap (i ∷◌) ih

  -- Every group has an item that is accepted.
  abbrev pub every_any : (Text → Bool) → List Group → Bool
  every_any v [] = true
  every_any v (g ∷ gs) = any_hold v (items_of retrieve g) && every_any v gs

  unless_empty-any :
      (v : Text → Bool) (is : List Item)
      → is ≢ []
      → any_holds v (group_unless_empty retrieve is) ≡ all_hold v is
  unless_empty-any v [] h = absurd (h refl)
  unless_empty-any v (i ∷ is) h = let e = holds-new_group v (i ∷ is) in ground (arith, e)

  and_groups-any :
      (v : Text → Bool) (gs : List Group) (stack : List (Group × ℕ))
      → (stacked_items retrieve stack ≡ [] → gs ≢ [])
      → any_holds v (and_groups retrieve gs stack)
        ≡ (all_hold v (stacked_items retrieve stack) && every_any v gs)
  unfolding and_groups
  and_groups-any v [] stack h =
      let e = unless_empty-any v (stacked_items retrieve stack) (λ f. h f refl) in ground (arith, e)
  and_groups-any v (g ∷ gs) stack h =
      each_index-any v (items_of retrieve g) 0 (λ j. and_groups retrieve gs (stack ++ (g, j) ∷ []))
        (all_hold v (stacked_items retrieve stack)) (every_any v gs)
        λ k x e.
          let z : 0 + k ≡ k = omega arith in
          let s = stacked-append stack g k x e in
          let ih =
            and_groups-any v gs (stack ++ (g, k) ∷ [])
              (λ f. absurd (append-ne-nil (stacked_items retrieve stack) x (sym s ∙ f))) in
          let split = all_hold-append v (stacked_items retrieve stack) (x ∷ []) in
          let held = ap (all_hold v) s ∙ split in
          subst
            (λ n.
              any_holds v (and_groups retrieve gs (stack ++ (g, n) ∷ []))
              ≡ (all_hold v (stacked_items retrieve stack) && (hold v x && every_any v gs)))
            (sym z) (ih ∙ ground (arith, held))

  pub and-any :
      (v : Text → Bool) (gs : List Group) → gs ≢ [] → any_holds v (and retrieve gs) ≡ every_any v gs
  unfolding and stacked_items
  and-any v gs h = and_groups-any v gs [] (λ _. h)

  -- One item of each group.
  abbrev pub Picks : List Item → List Group → Type 0
  Picks [] [] = Unit
  Picks [] (g ∷ gs) = ⊥
  Picks (i ∷ is) [] = ⊥
  Picks (i ∷ is) (g ∷ gs) = ((k : ℕ) × (get_elem? (items_of retrieve g) k ≡ some i)) × Picks is gs

  -- A group of items, one of each of the groups, after others.
  pub record IsPick (before : List Item) (gs : List Group) (g : Group) : Type 0 where
    pub picked : List Item
    pub picks : Picks picked gs
    pub is_group : g ≡ new_group (before ++ picked)
    pub non_empty : (before ++ picked) ≢ []

  unless_empty-IsPick : (is : List Item) → All (IsPick is []) (group_unless_empty retrieve is)
  unless_empty-IsPick [] = tt
  unless_empty-IsPick (i ∷ is) = (
    record {
      picked = [];
      picks = tt;
      is_group = ap new_group (sym (append-nil (i ∷ is)));
      non_empty = λ e. cc;
    },
    tt,
  )

  and_groups-IsPick :
      (gs : List Group) (stack : List (Group × ℕ))
      → All (IsPick (stacked_items retrieve stack) gs) (and_groups retrieve gs stack)
  unfolding and_groups
  and_groups-IsPick [] stack = unless_empty-IsPick (stacked_items retrieve stack)
  and_groups-IsPick (g ∷ gs) stack =
      each_index-All _ (items_of retrieve g) 0 (λ j. and_groups retrieve gs (stack ++ (g, j) ∷ []))
        λ k x e.
          let z : 0 + k ≡ k = omega arith in
          let s = stacked-append stack g k x e in
          subst
            (λ n.
              All (IsPick (stacked_items retrieve stack) (g ∷ gs))
                (and_groups retrieve gs (stack ++ (g, n) ∷ [])))
            (sym z)
            (All-mono (IsPick (stacked_items retrieve (stack ++ (g, k) ∷ [])) gs) _ _
              (λ h p.
                let reassoc =
                  ap (λ l. l ++ p.picked) s
                  ∙ append_assoc (stacked_items retrieve stack) (x ∷ []) p.picked in
                record {
                  picked = x ∷ p.picked;
                  picks = ((k, e), p.picks);
                  is_group = p.is_group ∙ ap new_group reassoc;
                  non_empty = λ f. p.non_empty (reassoc ∙ f);
                })
              (and_groups-IsPick gs (stack ++ (g, k) ∷ [])))

  pub and-IsPick : (gs : List Group) → All (IsPick [] gs) (and retrieve gs)
  unfolding and stacked_items
  and-IsPick gs = and_groups-IsPick gs []
