-- ===== src/Selection/Groups/Resolver.antt =====
-- pgresolverimpl.go: the groups of peers of a policy, and the choice of one.
use fabric_sdk_go_gm.Common.{
  ℕ, Bool, true, false, ◌||◌, List, [], ◌∷◌, ◌++◌, Option, map, if◌then◌else◌,
}
use fabric_sdk_go_gm.Common.Int.{ℤ}
use fabric_sdk_go_gm.Common.Text.{Text, text_eq}
use fabric_sdk_go_gm.Common.Outcome.{Outcome, done, panics, ◌>>=◌, explicit_panic}
use fabric_sdk_go_gm.Selection.{Peer}
use fabric_sdk_go_gm.Selection.Balancer.{choose}
use fabric_sdk_go_gm.Selection.Groups.{
  Item, peer_item, group_item, Group, peer_group, msp_group, Retriever, items_of,
}
use fabric_sdk_go_gm.Selection.Groups.Combination.{and, reduce}

abbrev pub is_empty : Text → Bool
is_empty [] = true
is_empty (b ∷ bs) = false

-- The retriever of `Resolve`: the peers of an MSP, or all for the empty identifier.
unfoldable pub retriever : List Peer → Retriever
retriever [] msp_id = []
retriever (p ∷ ps) msp_id =
    let rest = retriever ps msp_id in
    if is_empty msp_id || text_eq p.msp_id msp_id then p ∷ rest else rest

-- The items of a group of peers, as peers.
unfoldable pub must_get_peers : List Item → Outcome (List Peer)
must_get_peers [] = done []
must_get_peers (peer_item p ∷ is) = must_get_peers is >>= λ ps. done (p ∷ ps)
must_get_peers (_ ∷ is) = panics explicit_panic

-- The peers of `mustGetPeerGroup`: of a PeerGroup its own, of any other group its items.
unfoldable pub must_get_peer_group : Retriever → Group → Outcome (List Peer)
must_get_peer_group retrieve (msp_group m) = done (retrieve m)
must_get_peer_group retrieve (peer_group ws) = done (map (λ w. w.target) ws)
must_get_peer_group retrieve g = must_get_peers (items_of retrieve g)

unfoldable pub must_get_each : Retriever → List Group → Outcome (List (List Peer))
must_get_each retrieve [] = done []
must_get_each retrieve (g ∷ gs) =
    must_get_peer_group retrieve g >>= λ ps. must_get_each retrieve gs >>= λ pss. done (ps ∷ pss)

-- The items must be PeerGroups.
unfoldable pub as_peer_groups : List Item → Outcome (List Group)
as_peer_groups [] = done []
as_peer_groups (group_item (msp_group m) ∷ is) = as_peer_groups is >>= λ gs. done (msp_group m ∷ gs)
as_peer_groups (group_item (peer_group ws) ∷ is) =
    as_peer_groups is >>= λ gs. done (peer_group ws ∷ gs)
as_peer_groups (_ ∷ is) = panics explicit_panic

-- A group whose first item is no group is wrapped.
unfoldable pub wrapped_items : Group → List Item → List Item
wrapped_items g [] = []
wrapped_items g (group_item h ∷ is) = group_item h ∷ is
wrapped_items g (i ∷ is) = group_item g ∷ []

unfoldable pub peer_groups_of : Retriever → Group → List Item → Outcome (List (List Peer))
peer_groups_of retrieve g [] = done []
peer_groups_of retrieve g (i ∷ is) =
    as_peer_groups (wrapped_items g (i ∷ is)) >>= λ gs. must_get_each retrieve (and retrieve gs)

unfoldable pub must_get_peer_groups : Retriever → Group → Outcome (List (List Peer))
unfolding peer_groups_of wrapped_items
must_get_peer_groups retrieve g = peer_groups_of retrieve g (items_of retrieve g)

unfoldable pub all_peer_groups : Retriever → List Group → Outcome (List (List Peer))
all_peer_groups retrieve [] = done []
all_peer_groups retrieve (g ∷ gs) = must_get_peer_groups retrieve g >>= λ pss.
    all_peer_groups retrieve gs >>= λ rest. done (pss ++ rest)

-- `getPeerGroups`, from the groups of the group retriever on: a peer group by its peers.
unfoldable pub get_peer_groups : Retriever → Group → Outcome (List (List Peer))
get_peer_groups retrieve g = reduce retrieve g >>= all_peer_groups retrieve

-- `Resolve` with the round-robin policy: `none` is the peer group without peers.
unfoldable pub resolve : ℕ → ℤ → List Peer → Group → Outcome (Option (List Peer) × ℤ)
resolve random index peers g =
    get_peer_groups (retriever peers) g >>= λ pss. choose random index pss
