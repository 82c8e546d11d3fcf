-- ===== src/EventClient/PeerResolver/Preferring.antt =====
-- preferorg.go and preferpeer.go: which peer is chosen, and whether the client then stays there.
use fabric_sdk_go_gm.Common.{
  ℕ, zero, suc, arith, ◌≡◌, ◌≢◌, refl, sym, ap, ◌∙◌, subst, Bool, true, false, ◌||◌, List, [], ◌∷◌,
  Option, none, some, All, All-mono, Bool-cases, inl, inr,
}
use fabric_sdk_go_gm.Common.Text.{Text, text_eq}
use fabric_sdk_go_gm.Common.Outcome.{Outcome, Returns, Returns-mono}
use fabric_sdk_go_gm.Selection.{Peer}
use fabric_sdk_go_gm.Selection.Heights.{IsAmong, all-IsAmong}
use fabric_sdk_go_gm.EventClient.PeerResolver.{
  Params, min_height, filter_by_lag, do_filter_by_block_height, filter_from, filter, or_else,
  choose_if_any, should_disconnect, org_peers, any_of_org, is_preferred, get_preferred_peers,
  resolve_prefer_org, should_disconnect_prefer_org, resolve_prefer_peer,
  should_disconnect_prefer_peer,
}
use fabric_sdk_go_gm.EventClient.PeerResolver.Selecting.{
  select, any_peer, NoneSelected, selected, org_peers-select, any_of_org-any, All-at, All-zip,
  choose_if_any-some,
}
use fabric_sdk_go_gm.EventClient.PeerResolver.Choosing.{IsChosen}
use fabric_sdk_go_gm.EventClient.PeerResolver.Filtering.{filter-ne, or_else-first}

-- A peer with a property, or none for a reason.
abbrev pub IsPicked : (Peer → Type 0) → Type 0 → Option Peer → Type 0
IsPicked P Q none = Q
IsPicked P Q (some q) = P q

chosen-IsPicked :
    (P : Peer → Type 0) (Q : Type 0) (ps : List Peer) (o : Option Peer)
    → All P ps
    → (ps ≡ [] → Q)
    → IsChosen ps o
    → IsPicked P Q o
chosen-IsPicked P Q [] none a f c = f refl
chosen-IsPicked P Q [] (some q) a f c = cc
chosen-IsPicked P Q (p ∷ ps) none a f c = elim c [ ]
chosen-IsPicked P Q (p ∷ ps) (some q) a f c = All-at P (p ∷ ps) q a c

module _ {S : Type 0} (choose : List Peer → Outcome (Option Peer × S))
    (chooses : (ps : List Peer) → Returns (λ x. IsChosen ps x.0) (choose ps)) where
  choose-IsPicked :
      (P : Peer → Type 0) (Q : Type 0) (ps : List Peer)
      → All P ps
      → (ps ≡ [] → Q)
      → Returns (λ x. IsPicked P Q x.0) (choose ps)
  choose-IsPicked P Q ps a f =
      Returns-mono (λ x. IsChosen ps x.0) (λ x. IsPicked P Q x.0) (choose ps)
        (λ x c. chosen-IsPicked P Q ps x.0 a f c) (chooses ps)

filter_by_lag-nil : (r : Params) → filter_by_lag r [] ≡ []
unfolding filter_by_lag
filter_by_lag-nil r = ground arith

filter_from-nil : (r : Params) (m : ℕ) → filter_from r m [] ≡ []
unfolding filter_from do_filter_by_block_height
filter_from-nil r zero = filter_by_lag-nil r
filter_from-nil r (suc zero) = rw (filter_by_lag-nil r) refl
filter_from-nil r (suc (suc k)) = rw (filter_by_lag-nil r) refl

module _ (r : Params) (last : ℕ) (msp_id : Text) (peers : List Peer) where
  -- A suitable peer that is of the organization exactly if some suitable peer is, and that is left
  -- only for its height.
  abbrev pub PrefersOrg : Peer → Type 0
  PrefersOrg q =
      IsAmong (filter r last peers) q
      × (text_eq q.msp_id msp_id ≡ any_of_org msp_id (filter r last peers))
      × (should_disconnect_prefer_org r last msp_id peers q ≡ should_disconnect r last peers q)

  stays :
      (q : Peer)
      → text_eq q.msp_id msp_id ≡ any_of_org msp_id (filter r last peers)
      → should_disconnect_prefer_org r last msp_id peers q ≡ should_disconnect r last peers q
  unfolding should_disconnect_prefer_org
  stays q e = elim (Bool-cases (text_eq q.msp_id msp_id)) [
    | inl t ↦ rw t refl
    | inr f ↦
        let none_there : any_of_org msp_id (filter r last peers) ≡ false = sym e ∙ f in
        rw (f, none_there) refl
  ]

  prefers :
      (b : Bool)
      → any_of_org msp_id (filter r last peers) ≡ b
      → (ps : List Peer)
      → All (λ q. (text_eq q.msp_id msp_id ≡ b) × IsAmong (filter r last peers) q) ps
      → All PrefersOrg ps
  prefers b e ps a =
      All-mono (λ q. (text_eq q.msp_id msp_id ≡ b) × IsAmong (filter r last peers) q) PrefersOrg ps
        (λ q (t, i). let same = t ∙ sym e in (i, same, stays q same)) a

  nobody : filter r last peers ≡ [] → peers ≡ []
  nobody e = none_left peers (λ n. filter-ne r last peers n e)
    where
      none_left : (ps : List Peer) → ¬ (ps ≢ []) → ps ≡ []
      none_left [] h = refl
      none_left (p ∷ ps) h = absurd (h (λ f. cc))

  org_candidates :
      All PrefersOrg (or_else (org_peers msp_id (filter r last peers)) (filter r last peers))
      × (or_else (org_peers msp_id (filter r last peers)) (filter r last peers) ≡ [] → peers ≡ [])
  org_candidates = elim (selected (λ p. text_eq p.msp_id msp_id) (filter r last peers)) [
    | inl s ↦
        let e = org_peers-select msp_id (filter r last peers) ∙ s.nothing in
        let f = any_of_org-any msp_id (filter r last peers) ∙ s.none_passes in
        rw e (
          prefers false f (filter r last peers) (
              All-zip (λ p. text_eq p.msp_id msp_id ≡ false) (IsAmong (filter r last peers))
                (filter r last peers) s.refused (all-IsAmong (filter r last peers))),
          nobody,
        )
    | inr s ↦
        let e = org_peers-select msp_id (filter r last peers) in
        let f = any_of_org-any msp_id (filter r last peers) ∙ s.one_passes in
        let g =
          or_else-first (select (λ p. text_eq p.msp_id msp_id) (filter r last peers))
            (filter r last peers) s.something in
        subst (λ l. All PrefersOrg l × (l ≡ [] → peers ≡ []))
          (sym (ap (λ l. or_else l (filter r last peers)) e ∙ g))
          (
            prefers true f (select (λ p. text_eq p.msp_id msp_id) (filter r last peers)) s.passed,
            λ h. absurd (s.something h),
          )
  ]

  -- With a policy that returns one of the peers that it is given, the resolver that prefers an
  -- organization returns, and returns no peer only if there are none. The peer is suitable, is of the
  -- organization exactly if some suitable peer is, and is left only for its height.
  pub resolve_prefer_org-PrefersOrg :
      {S : Type 0} (choose : List Peer → Outcome (Option Peer × S))
      → ((ps : List Peer) → Returns (λ x. IsChosen ps x.0) (choose ps))
      → Returns
          (λ x. IsPicked PrefersOrg (peers ≡ []) x.0)
          (resolve_prefer_org choose r last msp_id peers)
  unfolding resolve_prefer_org
  resolve_prefer_org-PrefersOrg choose chooses =
      choose-IsPicked choose chooses PrefersOrg (peers ≡ [])
        (or_else (org_peers msp_id (filter r last peers)) (filter r last peers)) org_candidates.0
        org_candidates.1

  module _ (contains : Text → Text → Bool) (urls : List Text) where
    -- A suitable peer that is preferred exactly if some suitable peer is, and that is preferred or of
    -- the organization exactly if some suitable peer is.
    abbrev pub PrefersPeer : Peer → Type 0
    PrefersPeer q =
        IsAmong (filter r last peers) q
        × (is_preferred contains urls q
            ≡ any_peer (is_preferred contains urls) (filter r last peers))
        × ((is_preferred contains urls q || text_eq q.msp_id msp_id) ≡ (
            any_peer (is_preferred contains urls) (filter r last peers)
            || any_of_org msp_id (filter r last peers)))

    preferred-select :
        (ps : List Peer)
        → get_preferred_peers contains urls ps ≡ select (is_preferred contains urls) ps
    unfolding get_preferred_peers
    preferred-select [] = refl
    preferred-select (p ∷ ps) = rw (preferred-select ps) refl

    org-PrefersPeer :
        (o : Option Peer)
        → NoneSelected (is_preferred contains urls) (filter r last peers)
        → IsPicked PrefersOrg (peers ≡ []) o
        → IsPicked PrefersPeer (peers ≡ []) o
    org-PrefersPeer none s c = c
    org-PrefersPeer (some q) s (i, e, f) =
        let refused =
          All-at (λ p. is_preferred contains urls p ≡ false) (filter r last peers) q s.refused i in
        (i, refused ∙ sym s.none_passes, rw (refused, s.none_passes) e)

    preferred-PrefersPeer :
        (q : Peer)
        → any_peer (is_preferred contains urls) (filter r last peers) ≡ true
        → (is_preferred contains urls q ≡ true) × IsAmong (filter r last peers) q
        → PrefersPeer q
    preferred-PrefersPeer q e (t, i) = (i, t ∙ sym e, rw (t, e) refl)

    -- With policies that return one of the peers that they are given, the resolver that prefers peers
    -- returns, and returns no peer only if there are none. The peer is suitable, is preferred exactly
    -- if some suitable peer is, and is preferred or of the organization exactly if some suitable peer
    -- is.
    pub resolve_prefer_peer-PrefersPeer :
        {S : Type 0} (choose choose_org : List Peer → Outcome (Option Peer × S))
        → ((ps : List Peer) → Returns (λ x. IsChosen ps x.0) (choose ps))
        → ((ps : List Peer) → Returns (λ x. IsChosen ps x.0) (choose_org ps))
        → Returns
            (λ x. IsPicked PrefersPeer (peers ≡ []) x.0)
            (resolve_prefer_peer contains urls choose choose_org r last msp_id peers)
    unfolding resolve_prefer_peer
    resolve_prefer_peer-PrefersPeer {S} choose choose_org chooses chooses_org =
        elim (selected (is_preferred contains urls) (filter r last peers)) [
          | inl s ↦
              subst
                (λ l.
                  Returns (λ (x : Option Peer × S). IsPicked PrefersPeer (peers ≡ []) x.0)
                    (choose_if_any choose l other))
                (sym (preferred-select (filter r last peers) ∙ s.nothing))
                (Returns-mono (λ x. IsPicked PrefersOrg (peers ≡ []) x.0)
                  (λ x. IsPicked PrefersPeer (peers ≡ []) x.0) other
                  (λ x c. org-PrefersPeer x.0 s c)
                  (resolve_prefer_org-PrefersOrg choose_org chooses_org))
          | inr s ↦
              subst (Returns (λ (x : Option Peer × S). IsPicked PrefersPeer (peers ≡ []) x.0))
                (sym (
                  ap (λ l. choose_if_any choose l other) (preferred-select (filter r last peers))
                  ∙ choose_if_any-some choose
                      (select (is_preferred contains urls) (filter r last peers)) other
                      s.something))
                (choose-IsPicked choose chooses PrefersPeer (peers ≡ [])
                  (select (is_preferred contains urls) (filter r last peers))
                  (All-mono
                    (λ q. (is_preferred contains urls q ≡ true) × IsAmong (filter r last peers) q)
                    PrefersPeer (select (is_preferred contains urls) (filter r last peers))
                    (λ q. preferred-PrefersPeer q s.one_passes) s.passed)
                  (λ e. absurd (s.something e)))
        ]
      where
        other : Outcome (Option Peer × S)
        other = resolve_prefer_org choose_org r last msp_id peers

    abbrev pub Leaves : Peer → Type 0
    Leaves q = should_disconnect_prefer_peer contains urls r last msp_id peers q ≡ true

    other_org-Leaves :
        (q : Peer)
        → any_peer (is_preferred contains urls) (filter r last peers) ≡ true
        → All
            (λ p. is_preferred contains urls p ≡ true → text_eq p.msp_id msp_id ≡ false)
            (filter r last peers)
        → any_of_org msp_id (filter r last peers) ≡ true
        → PrefersPeer q
        → Leaves q
    unfolding should_disconnect_prefer_peer should_disconnect_prefer_org
    other_org-Leaves q e f g (i, t, _) =
        let preferred = t ∙ e in
        let other = All-at _ (filter r last peers) q f i preferred in rw (preferred, other, g) refl

    none-left : any_of_org msp_id (filter r last peers) ≡ true → peers ≡ [] → ⊥
    unfolding filter any_of_org
    none-left g e =
        let none_suitable = ap (filter r last) e ∙ filter_from-nil r (min_height r last) in
        let h : false ≡ true = sym (ap (any_of_org msp_id) none_suitable) ∙ g in cc

    -- If a suitable peer is preferred, all suitable peers that are preferred are of other organizations,
    -- and some suitable peer is of the client's own organization, then the resolver that prefers peers,
    -- with policies that return one of the peers that they are given, returns a peer that the client
    -- leaves at once: ShouldDisconnect of the resolver is true for it, with the same peers and block.
    pub resolve_prefer_peer-Leaves :
        {S : Type 0} (choose choose_org : List Peer → Outcome (Option Peer × S))
        → ((ps : List Peer) → Returns (λ x. IsChosen ps x.0) (choose ps))
        → ((ps : List Peer) → Returns (λ x. IsChosen ps x.0) (choose_org ps))
        → any_peer (is_preferred contains urls) (filter r last peers) ≡ true
        → All
            (λ p. is_preferred contains urls p ≡ true → text_eq p.msp_id msp_id ≡ false)
            (filter r last peers)
        → any_of_org msp_id (filter r last peers) ≡ true
        → Returns
            (λ x. IsPicked Leaves ⊥ x.0)
            (resolve_prefer_peer contains urls choose choose_org r last msp_id peers)
    resolve_prefer_peer-Leaves {S} choose choose_org chooses chooses_org e f g =
        Returns-mono (λ (x : Option Peer × S). IsPicked PrefersPeer (peers ≡ []) x.0)
          (λ x. IsPicked Leaves ⊥ x.0)
          (resolve_prefer_peer contains urls choose choose_org r last msp_id peers)
          (λ x c. picked x.0 c)
          (resolve_prefer_peer-PrefersPeer choose choose_org chooses chooses_org)
      where
        picked : (o : Option Peer) → IsPicked PrefersPeer (peers ≡ []) o → IsPicked Leaves ⊥ o
        picked none c = none-left g c
        picked (some q) c = other_org-Leaves q e f g c
