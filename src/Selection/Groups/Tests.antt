-- ===== src/Selection/Groups/Tests.antt =====
-- The theorems on peer groups at a concrete policy, and the groups of peers that it resolves to.
use fabric_sdk_go_gm.Common.{ℕ, ◌≡◌, ◌↔◌, refl, List, [], ◌∷◌, some, none, arith, leb, All}
use fabric_sdk_go_gm.Common.Int.{pos, negsuc}
use fabric_sdk_go_gm.Common.Text.{Text, text_eq}
use fabric_sdk_go_gm.Common.Outcome.{done, Returns}
use fabric_sdk_go_gm.Selection.{Peer}
use fabric_sdk_go_gm.Selection.Groups.{
  Item, Group, group_item, msp_group, new_group, new_group_of_groups, from_list, to_list,
}
use fabric_sdk_go_gm.Selection.Groups.Combination.{
  and, reduce, get_combinations, collapse, prune, each_index, stacked_items,
}
use fabric_sdk_go_gm.Selection.Groups.Equality.{equals, contains_group}
use fabric_sdk_go_gm.Selection.Groups.Meaning.{any_holds}
use fabric_sdk_go_gm.Selection.Groups.Reduction.{IsPolicy, Reduced, reduce-Meaning}
use fabric_sdk_go_gm.Selection.Groups.Threshold.{IsPolicyItem, count_holding, get_combinations-any}
use fabric_sdk_go_gm.Selection.Groups.Policy.{
  SignaturePolicy, signed_by, n_out_of, end, rule, MspPrincipal, role, Decoder, ok, compile,
  identity_at, msp_principal_to_string,
}
use fabric_sdk_go_gm.Selection.Groups.Satisfaction.{IsWellFormed, Compiled, compile-Meaning}
use fabric_sdk_go_gm.Selection.Groups.Principals.{IsAdmissible}
use fabric_sdk_go_gm.Selection.Groups.Rejection.{compile-IsAdmissible}
use fabric_sdk_go_gm.Selection.Groups.Resolver.{
  retriever, get_peer_groups, resolve, must_get_peer_group, must_get_peers, must_get_each,
  must_get_peer_groups, all_peer_groups, as_peer_groups,
}
use fabric_sdk_go_gm.Selection.Groups.Choice.{Endorsed, resolve-Endorsed}

abbrev org : ℕ → Text
org n = n ∷ []

abbrev peer : ℕ → ℕ → Peer
peer n m = record { addr = n; url = n ∷ []; msp_id = org m; block_height = none }

abbrev peers : List Peer
peers = peer 1 1 ∷ peer 2 1 ∷ peer 3 2 ∷ []

-- The principal is the MSP identifier itself.
abbrev decoder : Decoder
decoder = record { role_msp = λ b. some b; unit_msp = λ b. some b }

abbrev identity_of : ℕ → MspPrincipal
identity_of n = record { principal_classification = role; principal = org n }

abbrev identities : List MspPrincipal
identities = identity_of 1 ∷ identity_of 2 ∷ identity_of 3 ∷ []

-- Two of: the first MSP, the second, and one of the first and the third.
abbrev policy : SignaturePolicy
policy = n_out_of (pos 2) (
    rule (signed_by (pos 0)) (
      rule (signed_by (pos 1))
        (rule (n_out_of (pos 1) (rule (signed_by (pos 0)) (rule (signed_by (pos 2)) end))) end)))

policy-IsWellFormed : IsWellFormed decoder identities policy
unfolding IsWellFormed identity_at msp_principal_to_string
policy-IsWellFormed = (
  omega arith,
  ((org 1, refl), ((org 2, refl), ((omega arith, ((org 1, refl), ((org 3, refl), tt))), tt))),
)

resolve-Endorsed_example :
    (g : Group) × (compile (retriever peers) decoder identities policy ≡ ok (ok g))
    × Returns (λ r. Endorsed peers decoder identities policy r.0) (resolve 1 (negsuc 0) peers g)
resolve-Endorsed_example =
    resolve-Endorsed peers decoder identities policy 1 (negsuc 0) policy-IsWellFormed

compile-Meaning_example : (g : Group) × Compiled decoder identities (retriever peers) policy g
compile-Meaning_example =
    compile-Meaning decoder identities (retriever peers) policy policy-IsWellFormed

compile-IsAdmissible_example :
    ((g : Group) × (compile (retriever peers) decoder identities policy ≡ ok (ok g)))
    ↔ IsAdmissible decoder identities policy
compile-IsAdmissible_example = compile-IsAdmissible (retriever peers) decoder identities policy

-- Both of the first MSP and one of the second and the third.
abbrev hierarchy : Group
hierarchy = new_group (
    group_item (msp_group (org 1))
    ∷ group_item (new_group_of_groups (msp_group (org 2) ∷ msp_group (org 3) ∷ []))
    ∷ [])

hierarchy-IsPolicy : IsPolicy hierarchy
unfolding IsPolicy new_group new_group_of_groups from_list to_list each_index stacked_items text_eq
    all_peer_groups as_peer_groups must_get_each must_get_peer_group
hierarchy-IsPolicy = ((tt, ((tt, (tt, tt)), tt)), λ e. cc)

reduce-Meaning_example : Returns (Reduced hierarchy) (reduce (retriever peers) hierarchy)
reduce-Meaning_example = reduce-Meaning (retriever peers) hierarchy hierarchy-IsPolicy

abbrev items : List Item
items =
    group_item (msp_group (org 1))
    ∷ group_item (msp_group (org 2))
    ∷ group_item (msp_group (org 3))
    ∷ []

items-policies : All IsPolicyItem items
unfolding IsPolicy
items-policies = (tt, (tt, (tt, tt)))

get_combinations-any_example :
    any_holds (text_eq (org 1)) (get_combinations (retriever peers) 1 items)
    ≡ leb 2 (count_holding (text_eq (org 1)) items)
get_combinations-any_example =
    get_combinations-any (retriever peers) (text_eq (org 1)) 1 items items-policies

-- The groups of peers of `hierarchy`.
get_peer_groups-hierarchy :
    get_peer_groups (retriever peers) hierarchy
    ≡ done ((peer 1 1 ∷ peer 3 2 ∷ []) ∷ (peer 2 1 ∷ peer 3 2 ∷ []) ∷ [])
unfolding get_peer_groups reduce collapse and prune contains_group equals retriever
    must_get_peer_groups must_get_peers new_group new_group_of_groups from_list to_list each_index
    stacked_items text_eq all_peer_groups as_peer_groups must_get_each must_get_peer_group
get_peer_groups-hierarchy = refl
