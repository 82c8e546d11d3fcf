-- ===== src/Selection/Groups/Combination.antt =====
-- groupsimpl.go: the `and` of groups, the combinations of a threshold, the collapse and the reduction.
use fabric_sdk_go_gm.Common.{
  ℕ, zero, suc, ◌-◌, List, [], ◌∷◌, ◌++◌, map, none, some, length, get_elem?, drop, if◌then◌else◌,
}
use fabric_sdk_go_gm.Common.Outcome.{Outcome, done, panics, ◌>>=◌, explicit_panic}
use fabric_sdk_go_gm.Selection.Groups.{
  Item, peer_item, wrapper_item, group_item, Group, group, groups, peer_group, msp_group, Items,
  nil, cons, Retriever, new_group, new_group_of_groups, items_of,
}
use fabric_sdk_go_gm.Selection.Groups.Equality.{contains_item, contains_group}

-- A loop over the indices of a list, from `j` on, that appends what each round gives.
unfoldable pub each_index : {A B : Type 0} → List A → ℕ → (ℕ → List B) → List B
each_index [] j f = []
each_index (x ∷ xs) j f = f j ++ each_index xs (suc j) f

-- A counted loop of the same kind.
unfoldable pub rounds : {B : Type 0} → ℕ → ℕ → (ℕ → List B) → List B
rounds zero i f = []
rounds (suc n) i f = f i ++ rounds n (suc i) f

abbrev pub concat : {A : Type 0} → List (List A) → List A
concat [] = []
concat (xs ∷ xss) = xs ++ concat xss

module _ (retrieve : Retriever) where
  -- The items that the stack of `andOperation` stands for.
  unfoldable pub stacked_items : List (Group × ℕ) → List Item
  stacked_items [] = []
  stacked_items ((g, j) ∷ stack) = elim (get_elem? (items_of retrieve g) j) [
    | none ↦ stacked_items stack
    | some i ↦ i ∷ stacked_items stack
  ]

  abbrev pub group_unless_empty : List Item → List Group
  group_unless_empty [] = []
  group_unless_empty (i ∷ is) = new_group (i ∷ is) ∷ []

  -- The recursion of `andOperation.and`, with its stack, to the groups that it appends.
  unfoldable pub and_groups : List Group → List (Group × ℕ) → List Group
  and_groups [] stack = group_unless_empty (stacked_items stack)
  and_groups (g ∷ gs) stack =
      each_index (items_of retrieve g) 0 (λ j. and_groups gs (stack ++ (g, j) ∷ []))

  unfoldable pub and : List Group → List Group
  unfolding and_groups
  and gs = and_groups gs []

  -- `getCombinations` for the length `suc k`.
  unfoldable pub get_combinations : ℕ → List Item → List Group
  get_combinations zero items = map (λ i. new_group (i ∷ [])) items
  get_combinations (suc k) items = rounds (length items - suc k) 0 (λ i. elim (get_elem? items i) [
    | none ↦ []
    | some left ↦
        map (λ g. new_group (left ∷ items_of retrieve g)) (get_combinations k (drop (suc i) items))
  ])

  unfoldable pub add_items : List Item → List Item → List Item
  add_items collapsable [] = collapsable
  add_items collapsable (i ∷ is) =
      add_items
        (if contains_item retrieve i collapsable then collapsable else collapsable ++ i ∷ []) is

  -- The last lines of `Collapse`.
  unfoldable pub collapsed : List Item → List Item → Group
  collapsed [] others = new_group others
  collapsed (c ∷ cs) [] = new_group (c ∷ cs)
  collapsed (c ∷ cs) (o ∷ os) = new_group ((o ∷ os) ++ group_item (new_group (c ∷ cs)) ∷ [])

  unfoldable mutual
    unfolding add_items collapsed

    pub collapse : Group → Group
    collapse (group is) = collapse_items is [] []
    collapse (groups is) = groups is
    collapse (peer_group ws) = new_group (group_item (peer_group ws) ∷ [])
    collapse (msp_group m) = new_group (group_item (msp_group m) ∷ [])

    -- The loop of `Collapse`, with its two lists.
    pub collapse_items : Items → List Item → List Item → Group
    collapse_items nil collapsable others = collapsed collapsable others
    collapse_items (cons (group_item g) is) collapsable others =
        collapse_items is (add_items collapsable (items_of retrieve (collapse g))) others
    collapse_items (cons (peer_item p) is) collapsable others =
        collapse_items is collapsable (add_items others (peer_item p ∷ []))
    collapse_items (cons (wrapper_item w) is) collapsable others =
        collapse_items is collapsable (add_items others (wrapper_item w ∷ []))

  -- The last loop of `Reduce`.
  unfoldable pub prune : List Group → List Group → List Group
  prune pruned [] = pruned
  prune pruned (g ∷ gs) =
      prune (if contains_group retrieve pruned g then pruned else pruned ++ g ∷ []) gs

  -- `groupImpl.Reduce`, from the reductions of its items on.
  unfoldable pub combine : List (List Group) → List Group
  combine (r ∷ []) = r
  combine rs = prune [] (map collapse (and (map new_group_of_groups rs)))

  unfoldable mutual
    unfolding combine

    pub reduce : Group → Outcome (List Group)
    reduce (group is) = reduce_each is >>= λ rs. done (combine rs)
    reduce (groups is) = reduce_each is >>= λ rs. done (concat rs)
    reduce (peer_group ws) = done (peer_group ws ∷ [])
    reduce (msp_group m) = done (msp_group m ∷ [])

    -- The items must be groups, or else `Reduce` panics.
    pub reduce_each : Items → Outcome (List (List Group))
    reduce_each nil = done []
    reduce_each (cons (group_item g) is) = reduce g >>= λ r. reduce_each is >>= λ rs. done (r ∷ rs)
    reduce_each (cons (peer_item p) is) = panics explicit_panic
    reduce_each (cons (wrapper_item w) is) = panics explicit_panic
