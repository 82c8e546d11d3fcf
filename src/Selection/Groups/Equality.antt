-- ===== src/Selection/Groups/Equality.antt =====
-- groupsimpl.go: when two groups are equal, and what a list of items or groups contains.
use fabric_sdk_go_gm.Common.{Bool, true, false, ◌&&◌, ◌||◌, List, [], ◌∷◌, length, ◌==◌}
use fabric_sdk_go_gm.Common.Text.{text_eq}
use fabric_sdk_go_gm.Selection.{Peer}
use fabric_sdk_go_gm.Selection.Groups.{
  Item, peer_item, wrapper_item, group_item, Group, group, groups, peer_group, msp_group, Items,
  nil, cons, PeerWrapper, Retriever, to_list, items_of,
}

abbrev pub any_peer : Peer → List Item → Bool
any_peer p [] = false
any_peer p (peer_item q ∷ is) = q.addr == p.addr || any_peer p is
any_peer p (_ ∷ is) = any_peer p is

abbrev pub any_wrapper : PeerWrapper → List Item → Bool
any_wrapper w [] = false
any_wrapper w (wrapper_item x ∷ is) = x.wrapper_addr == w.wrapper_addr || any_wrapper w is
any_wrapper w (_ ∷ is) = any_wrapper w is

abbrev pub any_group : (Group → Bool) → List Item → Bool
any_group test [] = false
any_group test (group_item g ∷ is) = test g || any_group test is
any_group test (_ ∷ is) = any_group test is

abbrev pub all_wrappers_in : List PeerWrapper → List Item → Bool
all_wrappers_in [] os = true
all_wrappers_in (w ∷ ws) os = any_wrapper w os && all_wrappers_in ws os

module _ (retrieve : Retriever) where
  unfoldable mutual
    unfolding to_list items_of

    -- `Equals` of the four types of groups: `equals g other` is g.Equals(other).
    pub equals : Group → Group → Bool
    equals (group is) other =
        length (to_list is) == length (items_of retrieve other)
        && all_items_in is (items_of retrieve other)
    equals (groups is) other =
        length (to_list is) == length (items_of retrieve other)
        && all_items_in is (items_of retrieve other)
    equals (peer_group ws) other =
        length ws == length (items_of retrieve other)
        && all_wrappers_in ws (items_of retrieve other)
    equals (msp_group m) (msp_group n) = text_eq n m
    equals (msp_group m) other = false

    pub all_items_in : Items → List Item → Bool
    all_items_in nil os = true
    all_items_in (cons i is) os = contains_item i os && all_items_in is os

    -- `containsItem`.
    pub contains_item : Item → List Item → Bool
    contains_item (peer_item p) os = any_peer p os
    contains_item (wrapper_item w) os = any_wrapper w os
    contains_item (group_item g) os = any_group (equals g) os

  -- `containsGroup`.
  unfoldable pub contains_group : List Group → Group → Bool
  contains_group [] g = false
  contains_group (h ∷ hs) g = equals h g || contains_group hs g
