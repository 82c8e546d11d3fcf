-- ===== src/Selection/Groups.antt =====
-- pkg/client/common/selection/dynamicselection/pgresolver: groups.go and groupsimpl.go, the groups of
-- peers that an endorsement policy asks for. A group that holds peers holds them through wrappers,
-- which Go compares by their addresses.
pub mod Equality
pub mod Combination
pub mod Meaning
pub mod Conjunction
pub mod Collapsing
pub mod Pruning
pub mod Reduction
pub mod Threshold
pub mod Satisfaction
pub mod Principals
pub mod Rejection
pub mod Serving
pub mod Resolution
pub mod Coverage
pub mod Choice
pub mod Tests
pub mod Policy
pub mod Resolver
use fabric_sdk_go_gm.Common.{ℕ, List, [], ◌∷◌, map}
use fabric_sdk_go_gm.Common.Text.{Text}
use fabric_sdk_go_gm.Selection.{Peer}

pub record PeerWrapper : Type 0 where
  pub wrapper_addr : ℕ
  pub target : Peer

-- `group` is groupImpl, all of whose items are wanted; `groups` is groupsImpl, any of whose items is
-- wanted. All mspPeerGroups of a policy have the same retriever, which is an argument below.
mutual
  pub data Item : Type 0 where
    peer_item : Peer → Item
    wrapper_item : PeerWrapper → Item
    group_item : Group → Item

  pub data Group : Type 0 where
    group : Items → Group
    groups : Items → Group
    peer_group : List PeerWrapper → Group
    msp_group : Text → Group

  pub data Items : Type 0 where
    nil : Items
    cons : Item → Items → Items

unfoldable pub to_list : Items → List Item
to_list nil = []
to_list (cons i is) = i ∷ to_list is

unfoldable pub from_list : List Item → Items
from_list [] = nil
from_list (i ∷ is) = cons i (from_list is)

unfoldable pub new_group : List Item → Group
new_group is = group (from_list is)

unfoldable pub new_group_of_groups : List Group → Group
new_group_of_groups gs = groups (from_list (map group_item gs))

abbrev pub Retriever : Type 0
Retriever = Text → List Peer

unfoldable pub items_of : Retriever → Group → List Item
items_of retrieve (group is) = to_list is
items_of retrieve (groups is) = to_list is
items_of retrieve (peer_group ws) = map wrapper_item ws
items_of retrieve (msp_group m) = map peer_item (retrieve m)
