-- ===== src/Selection/Groups/Meaning.antt =====
-- What a hierarchy of groups means: which sets of MSPs it accepts.
use mathlib.Core.Bool.{◌&&◌, ◌||◌}
use fabric_sdk_go_gm.Common.{◌≡◌, refl, ap, ◌∙◌, Bool, true, false, List, [], ◌∷◌, ◌++◌, map, arith}
use fabric_sdk_go_gm.Common.Text.{Text}
use fabric_sdk_go_gm.Selection.Groups.{
  Item, peer_item, wrapper_item, group_item, Group, group, groups, peer_group, msp_group, Items,
  nil, cons, to_list, from_list, new_group, new_group_of_groups,
}

module _ (v : Text → Bool) where
  -- An MSP is accepted by `v`; all items of a group are wanted, and one of a group of groups. Peers
  -- that stand in a group by themselves are wanted by no policy.
  unfoldable mutual
    pub holds : Group → Bool
    holds (group is) = all_items is
    holds (groups is) = any_item is
    holds (peer_group ws) = false
    holds (msp_group m) = v m

    pub all_items : Items → Bool
    all_items nil = true
    all_items (cons (group_item g) is) = holds g && all_items is
    all_items (cons (peer_item p) is) = false
    all_items (cons (wrapper_item w) is) = false

    pub any_item : Items → Bool
    any_item nil = false
    any_item (cons (group_item g) is) = holds g || any_item is
    any_item (cons (peer_item p) is) = any_item is
    any_item (cons (wrapper_item w) is) = any_item is

  abbrev pub hold : Item → Bool
  hold (group_item g) = holds g
  hold (peer_item p) = false
  hold (wrapper_item w) = false

  abbrev pub all_hold : List Item → Bool
  all_hold [] = true
  all_hold (i ∷ is) = hold i && all_hold is

  abbrev pub any_hold : List Item → Bool
  any_hold [] = false
  any_hold (i ∷ is) = hold i || any_hold is

  abbrev pub any_holds : List Group → Bool
  any_holds [] = false
  any_holds (g ∷ gs) = holds g || any_holds gs

  pub all_items-to_list : (is : Items) → all_items is ≡ all_hold (to_list is)
  unfolding holds to_list
  all_items-to_list nil = refl
  all_items-to_list (cons (group_item g) is) = ap (holds g &&◌) (all_items-to_list is)
  all_items-to_list (cons (peer_item p) is) = refl
  all_items-to_list (cons (wrapper_item w) is) = refl

  pub any_item-to_list : (is : Items) → any_item is ≡ any_hold (to_list is)
  unfolding holds to_list
  any_item-to_list nil = refl
  any_item-to_list (cons (group_item g) is) = ap (holds g ||◌) (any_item-to_list is)
  any_item-to_list (cons (peer_item p) is) = any_item-to_list is
  any_item-to_list (cons (wrapper_item w) is) = any_item-to_list is

  pub all_hold-append : (xs ys : List Item) → all_hold (xs ++ ys) ≡ (all_hold xs && all_hold ys)
  all_hold-append [] ys = refl
  all_hold-append (x ∷ xs) ys = ground (arith, all_hold-append xs ys)

  pub any_holds-append :
      (xs ys : List Group) → any_holds (xs ++ ys) ≡ (any_holds xs || any_holds ys)
  any_holds-append [] ys = refl
  any_holds-append (x ∷ xs) ys = ground (arith, any_holds-append xs ys)

pub to_list-from_list : (is : List Item) → to_list (from_list is) ≡ is
unfolding to_list from_list
to_list-from_list [] = refl
to_list-from_list (i ∷ is) = ap (i ∷◌) (to_list-from_list is)

pub holds-new_group : (v : Text → Bool) (is : List Item) → holds v (new_group is) ≡ all_hold v is
unfolding holds new_group
holds-new_group v is = all_items-to_list v (from_list is) ∙ ap (all_hold v) (to_list-from_list is)

pub any_hold-map :
    (v : Text → Bool) (gs : List Group) → any_hold v (map group_item gs) ≡ any_holds v gs
any_hold-map v [] = refl
any_hold-map v (g ∷ gs) = ap (holds v g ||◌) (any_hold-map v gs)

pub holds-new_group_of_groups :
    (v : Text → Bool) (gs : List Group) → holds v (new_group_of_groups gs) ≡ any_holds v gs
unfolding holds new_group_of_groups
holds-new_group_of_groups v gs =
    any_item-to_list v (from_list (map group_item gs))
    ∙ ap (any_hold v) (to_list-from_list (map group_item gs))
    ∙ any_hold-map v gs
