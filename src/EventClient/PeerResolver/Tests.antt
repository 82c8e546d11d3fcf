-- ===== src/EventClient/PeerResolver/Tests.antt =====
-- The theorems on the peer resolvers at concrete peers, and runs of the resolvers.
use fabric_sdk_go_gm.Common.{
  ℕ, ◌+◌, ◌≤◌, ◌<◌, ◌≡◌, ◌≢◌, ◌↔◌, refl, true, false, List, [], ◌∷◌, Option, some, arith, All,
}
use fabric_sdk_go_gm.Common.Int.{ℤ, pos, negsuc}
use fabric_sdk_go_gm.Common.Text.{text_eq}
use fabric_sdk_go_gm.Common.Outcome.{Outcome, Returns}
use fabric_sdk_go_gm.Selection.{Peer}
use fabric_sdk_go_gm.Selection.Heights.{IsAmong, IsAtLeast, get_max_block_height}
use fabric_sdk_go_gm.EventClient.PeerResolver.{
  Params, min_height, filter, should_disconnect, resolve_prefer_org, resolve_prefer_peer,
  any_of_org, is_preferred,
}
use fabric_sdk_go_gm.EventClient.PeerResolver.Selecting.{any_peer}
use fabric_sdk_go_gm.EventClient.PeerResolver.Choosing.{
  IsChosen, choose_round_robin, choose_round_robin-IsChosen,
}
use fabric_sdk_go_gm.EventClient.PeerResolver.Filtering.{IsWithin, filter-Reaches, filter-IsWithin}
use fabric_sdk_go_gm.EventClient.PeerResolver.Leaving.{received, should_disconnect_iff}
use fabric_sdk_go_gm.EventClient.PeerResolver.Preferring.{
  IsPicked, PrefersOrg, PrefersPeer, resolve_prefer_org-PrefersOrg, resolve_prefer_peer-PrefersPeer,
  Leaves, resolve_prefer_peer-Leaves,
}

abbrev peer : ℕ → ℕ → Option ℕ → Peer
peer n m h = record { addr = n; url = n ∷ []; msp_id = m ∷ []; block_height = h }

abbrev peers : List Peer
peers = peer 1 1 (some 100) ∷ peer 2 2 (some 97) ∷ peer 3 1 (some 90) ∷ []

abbrev params : Params
params = record {
  block_height_lag_threshold = pos 5;
  reconnect_block_height_lag_threshold = pos 10;
  min_block_height = 0;
}

abbrev params_from_96 : Params
params_from_96 = record params { min_block_height = 96 }

abbrev policy : List Peer → Outcome (Option Peer × ℤ)
policy = choose_round_robin (λ n. 0) (negsuc 0)

policy-IsChosen : (ps : List Peer) → Returns (λ x. IsChosen ps x.0) (policy ps)
policy-IsChosen ps = choose_round_robin-IsChosen (λ n. 0) (λ n. omega arith) (negsuc 0) ps

reached : IsAtLeast (min_height params_from_96 95) (peer 2 2 (some 97))
unfolding min_height
reached = omega arith

own_org : any_of_org (2 ∷ []) (filter params 95 peers) ≡ true
unfolding any_of_org filter get_max_block_height text_eq
own_org = refl

filter-Reaches_example :
    (filter params_from_96 95 peers ≢ [])
    × All (IsAmong peers) (filter params_from_96 95 peers)
    × All (IsAtLeast (min_height params_from_96 95)) (filter params_from_96 95 peers)
filter-Reaches_example =
    filter-Reaches params_from_96 95 peers (peer 2 2 (some 97)) (1, refl) reached

filter-IsWithin_example : All (λ p. All (IsWithin 5 p) peers) (filter params 95 peers)
filter-IsWithin_example = filter-IsWithin params 5 95 peers refl refl

should_disconnect_iff_example :
    (should_disconnect params 85 peers (peer 4 1 (some 86)) ≡ true)
    ↔ ((86 ≤ received 85) × (received 85 + 10 < get_max_block_height peers))
should_disconnect_iff_example =
    should_disconnect_iff params 10 85 peers (peer 4 1 (some 86)) 86 refl refl (omega arith)

resolve_prefer_org-PrefersOrg_example :
    Returns
      (λ x. IsPicked (PrefersOrg params 95 (2 ∷ []) peers) (peers ≡ []) x.0)
      (resolve_prefer_org policy params 95 (2 ∷ []) peers)
resolve_prefer_org-PrefersOrg_example =
    resolve_prefer_org-PrefersOrg params 95 (2 ∷ []) peers policy policy-IsChosen

resolve_prefer_peer-PrefersPeer_example :
    Returns
      (λ x.
        IsPicked (PrefersPeer params 95 (2 ∷ []) peers text_eq ((1 ∷ []) ∷ [])) (peers ≡ []) x.0)
      (resolve_prefer_peer text_eq ((1 ∷ []) ∷ []) policy policy params 95 (2 ∷ []) peers)
resolve_prefer_peer-PrefersPeer_example =
    resolve_prefer_peer-PrefersPeer params 95 (2 ∷ []) peers text_eq ((1 ∷ []) ∷ []) policy policy
      policy-IsChosen policy-IsChosen

some_preferred : any_peer (is_preferred text_eq ((1 ∷ []) ∷ [])) (filter params 95 peers) ≡ true
unfolding is_preferred filter get_max_block_height text_eq
some_preferred = refl

preferred_of_others :
    All
      (λ p. is_preferred text_eq ((1 ∷ []) ∷ []) p ≡ true → text_eq p.msp_id (2 ∷ []) ≡ false)
      (filter params 95 peers)
unfolding is_preferred filter get_max_block_height text_eq
preferred_of_others = ((λ e. refl), ((λ e. cc), tt))

resolve_prefer_peer-Leaves_example :
    Returns
      (λ x. IsPicked (Leaves params 95 (2 ∷ []) peers text_eq ((1 ∷ []) ∷ [])) ⊥ x.0)
      (resolve_prefer_peer text_eq ((1 ∷ []) ∷ []) policy policy params 95 (2 ∷ []) peers)
resolve_prefer_peer-Leaves_example =
    resolve_prefer_peer-Leaves params 95 (2 ∷ []) peers text_eq ((1 ∷ []) ∷ []) policy policy
      policy-IsChosen policy-IsChosen some_preferred preferred_of_others own_org
