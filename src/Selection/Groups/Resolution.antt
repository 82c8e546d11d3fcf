-- ===== src/Selection/Groups/Resolution.antt =====
-- pgresolverimpl.go: `mustGetPeerGroups` of a simple group.
use fabric_sdk_go_gm.Common.{
  ℕ, suc, ◌≡◌, ◌≢◌, refl, sym, ap, ◌∙◌, subst, Bool, true, List, [], ◌∷◌, ◌++◌, map, arith, All,
  All-mono, some, get_elem?,
}
use fabric_sdk_go_gm.Common.Text.{Text}
use fabric_sdk_go_gm.Common.Outcome.{done, Returns, Returns-mono}
use fabric_sdk_go_gm.Selection.{Peer}
use fabric_sdk_go_gm.Selection.Heights.{IsAmong}
use fabric_sdk_go_gm.Selection.Groups.{
  Item, peer_item, wrapper_item, group_item, Group, group, groups, peer_group, msp_group, to_list,
  items_of,
}
use fabric_sdk_go_gm.Selection.Groups.Combination.{
  each_index, stacked_items, group_unless_empty, and_groups, and,
}
use fabric_sdk_go_gm.Selection.Groups.Meaning.{holds, all_hold, all_items-to_list}
use fabric_sdk_go_gm.Selection.Groups.Conjunction.{and-IsPick, stacked-append, append-ne-nil}
use fabric_sdk_go_gm.Selection.Groups.Collapsing.{IsLeaf, IsFlat}
use fabric_sdk_go_gm.Selection.Groups.Serving.{
  served, retriever-served, Serve, AllServe, each-Serve, Serve-holds, Serve-IsAmong,
}
use fabric_sdk_go_gm.Selection.Groups.Resolver.{
  retriever, must_get_each, as_peer_groups, peer_groups_of, must_get_peer_groups,
}

module _ (peers : List Peer) where
  abbrev leaf : Text → Item
  leaf m = group_item (msp_group m)

  leaf-names : (i : Item) → IsLeaf i → (m : Text) × (i ≡ leaf m)
  leaf-names (group_item (msp_group m)) l = (m, refl)
  leaf-names (group_item (group x)) l = elim l [ ]
  leaf-names (group_item (groups x)) l = elim l [ ]
  leaf-names (group_item (peer_group x)) l = elim l [ ]
  leaf-names (peer_item p) l = elim l [ ]
  leaf-names (wrapper_item w) l = elim l [ ]

  leaves-names : (is : List Item) → All IsLeaf is → (ms : List Text) × (is ≡ map leaf ms)
  leaves-names [] a = ([], refl)
  leaves-names (i ∷ is) (l, a) =
      let (m, e) = leaf-names i l in
      let (ms, f) = leaves-names is a in (m ∷ ms, ap (◌∷ is) e ∙ ap (leaf m ∷◌) f)

  as_peer_groups-leaves : (ms : List Text) → as_peer_groups (map leaf ms) ≡ done (map msp_group ms)
  unfolding as_peer_groups
  as_peer_groups-leaves [] = refl
  as_peer_groups-leaves (m ∷ ms) = rw (as_peer_groups-leaves ms) refl

  all_hold-leaves :
      (v : Text → Bool) (ms : List Text)
      → All (λ m. v m ≡ true) ms
      → all_hold v (map leaf ms) ≡ true
  unfolding holds
  all_hold-leaves v [] a = refl
  all_hold-leaves v (m ∷ ms) (e, a) = let f = all_hold-leaves v ms a in ground (arith, e, f)

  leaves-hold :
      (v : Text → Bool) (ms : List Text)
      → all_hold v (map leaf ms) ≡ true
      → All (λ m. v m ≡ true) ms
  unfolding holds
  leaves-hold v [] e = tt
  leaves-hold v (m ∷ ms) e = (ground (arith, e), leaves-hold v ms (ground (arith, e)))

  -- The groups of peers that the MSPs stand for: each serves them all and has available peers only,
  -- and there is one if all are served.
  abbrev Serving : List Text → List (List Peer) → Type 0
  Serving ms pss =
      All (λ ps. All (λ m. served ps m ≡ true) ms × All (IsAmong peers) ps) pss
      × (All (λ m. served peers m ≡ true) ms → pss ≢ [])

  append-ne : {A : Type 0} (xs ys : List A) → xs ≢ [] → (xs ++ ys) ≢ []
  append-ne [] ys n = absurd (n refl)
  append-ne (x ∷ xs) ys n = λ e. cc

  each_index-ne :
      (xs : List Item) (j : ℕ) (f : ℕ → List Group)
      → xs ≢ []
      → ((x : Item) → get_elem? xs 0 ≡ some x → f j ≢ [])
      → each_index xs j f ≢ []
  unfolding each_index
  each_index-ne [] j f n h = absurd (n refl)
  each_index-ne (x ∷ xs) j f n h = append-ne (f j) (each_index xs (suc j) f) (h x refl)

  some_group : (is : List Item) → is ≢ [] → group_unless_empty (retriever peers) is ≢ []
  some_group [] k = absurd (k refl)
  some_group (i ∷ is) k = λ e. cc

  peer_items-ne : (ps : List Peer) → ps ≢ [] → map peer_item ps ≢ []
  peer_items-ne [] n = absurd (n refl)
  peer_items-ne (p ∷ ps) n = λ e. cc

  and_groups-ne :
      (ms : List Text) (stack : List (Group × ℕ))
      → All (λ m. served peers m ≡ true) ms
      → (ms ≡ [] → stacked_items (retriever peers) stack ≢ [])
      → and_groups (retriever peers) (map msp_group ms) stack ≢ []
  unfolding and_groups items_of
  and_groups-ne [] stack a n = some_group (stacked_items (retriever peers) stack) (n refl)
  and_groups-ne (m ∷ ms) stack (e, a) n =
      each_index-ne (items_of (retriever peers) (msp_group m)) 0
        (λ j. and_groups (retriever peers) (map msp_group ms) (stack ++ (msp_group m, j) ∷ []))
        (peer_items-ne (retriever peers m) (retriever-served peers m e))
        λ x f. and_groups-ne ms (stack ++ (msp_group m, 0) ∷ []) a λ _ g.
          append-ne-nil (stacked_items (retriever peers) stack) x
            (sym (stacked-append (retriever peers) stack (msp_group m) 0 x f) ∙ g)

  conjunction-Serving :
      (ms : List Text)
      → ms ≢ []
      → Returns
          (Serving ms)
          (must_get_each (retriever peers) (and (retriever peers) (map msp_group ms)))
  unfolding and
  conjunction-Serving ms n =
      Returns-mono (AllServe peers ms conjunctions) (Serving ms)
        (must_get_each (retriever peers) conjunctions)
        (λ pss r. (
          All-mono (Serve peers ms)
              (λ ps. All (λ m. served ps m ≡ true) ms × All (IsAmong peers) ps) pss
              (λ ps s. (Serve-holds peers ms ps s, Serve-IsAmong peers ms ps s)) r.0,
          λ a. r.1 (and_groups-ne ms [] a (λ e. absurd (n e))),
        ))
        (each-Serve peers ms conjunctions (and-IsPick (retriever peers) (map msp_group ms)))
    where
      conjunctions : List Group
      conjunctions = and (retriever peers) (map msp_group ms)

  -- The groups of peers of a simple group.
  abbrev pub Resolved : Group → List (List Peer) → Type 0
  Resolved g pss =
      All (λ ps. (holds (served ps) g ≡ true) × All (IsAmong peers) ps) pss
      × (holds (served peers) g ≡ true → pss ≢ [])

  alone-Serving :
      (m : Text) (qs : List Peer)
      → (served peers m ≡ true → qs ≢ [])
      → Returns
          (Serving (m ∷ []))
          (peer_groups_of (retriever peers) (msp_group m) (map peer_item qs))
  unfolding must_get_peer_groups as_peer_groups
  alone-Serving m [] n = (tt, λ a. absurd (n a.0 refl))
  alone-Serving m (q ∷ qs) n = conjunction-Serving (m ∷ []) (λ e. cc)

  together-Serving :
      (g : Group) (ms : List Text)
      → ms ≢ []
      → Returns (Serving ms) (peer_groups_of (retriever peers) g (map leaf ms))
  unfolding must_get_peer_groups
  together-Serving g [] n = absurd (n refl)
  together-Serving g (m ∷ ms) n =
      rw (as_peer_groups-leaves (m ∷ ms)) (conjunction-Serving (m ∷ ms) n)

  Serving-Resolved :
      (g : Group) (ms : List Text) (pss : List (List Peer))
      → ((v : Text → Bool) → holds v g ≡ all_hold v (map leaf ms))
      → Serving ms pss
      → Resolved g pss
  Serving-Resolved g ms pss e s = (
    All-mono (λ ps. All (λ m. served ps m ≡ true) ms × All (IsAmong peers) ps) _ pss
        (λ ps r. (e (served ps) ∙ all_hold-leaves (served ps) ms r.0, r.1)) s.0,
    λ h. s.1 (leaves-hold (served peers) ms (sym (e (served peers)) ∙ h)),
  )

  pub must_get_peer_groups-Resolved :
      (g : Group) → IsFlat g → Returns (Resolved g) (must_get_peer_groups (retriever peers) g)
  unfolding must_get_peer_groups items_of holds
  must_get_peer_groups-Resolved (msp_group m) f =
      Returns-mono (Serving (m ∷ [])) (Resolved (msp_group m)) _
        (λ pss. Serving-Resolved (msp_group m) (m ∷ []) pss (λ v. ground arith))
        (alone-Serving m (retriever peers m) (retriever-served peers m))
  must_get_peer_groups-Resolved (group is) (a, n) =
      let (ms, e) = leaves-names (to_list is) a in
      Returns-mono (Serving ms) (Resolved (group is)) _
        (λ pss.
          Serving-Resolved (group is) ms pss (λ v. all_items-to_list v is ∙ ap (all_hold v) e))
        (subst (λ l. Returns (Serving ms) (peer_groups_of (retriever peers) (group is) l)) (sym e)
          (together-Serving (group is) ms (λ f. n (e ∙ ap (map leaf) f))))
  must_get_peer_groups-Resolved (groups is) f = elim f [ ]
  must_get_peer_groups-Resolved (peer_group ws) f = elim f [ ]
