-- ===== src/Selection/Groups/Serving.antt =====
-- pgresolverimpl.go: `mustGetPeerGroup` of one item of each MSP, by the MSPs that its peers serve.
use fabric_sdk_go_gm.Common.{
  ℕ, zero, suc, ◌≡◌, ◌≢◌, refl, sym, subst, Bool, true, false, ◌||◌, List, [], ◌∷◌, map, arith, All,
  All-mono, some, get_elem?, Bool-cases, inl, inr,
}
use fabric_sdk_go_gm.Common.Text.{Text, text_eq}
use fabric_sdk_go_gm.Common.Outcome.{done, ◌>>=◌, Returns, Returns->>=}
use fabric_sdk_go_gm.Selection.{Peer}
use fabric_sdk_go_gm.Selection.Heights.{IsAmong}
use fabric_sdk_go_gm.Selection.Groups.{Item, peer_item, Group, msp_group, new_group, items_of}
use fabric_sdk_go_gm.Selection.Groups.Meaning.{to_list-from_list}
use fabric_sdk_go_gm.Selection.Groups.Conjunction.{Picks, IsPick}
use fabric_sdk_go_gm.Selection.Groups.Resolver.{
  is_empty, retriever, must_get_peers, must_get_peer_group, must_get_each,
}

-- A peer is of an MSP; the empty identifier stands for any MSP.
abbrev pub serves : Text → Peer → Bool
serves m p = is_empty m || text_eq p.msp_id m

-- Some peer is of the MSP.
abbrev pub served : List Peer → Text → Bool
served [] m = false
served (p ∷ ps) m = serves m p || served ps m

kept-serves :
    (q : Peer) (peers : List Peer) (m : Text) (k : ℕ) (p : Peer)
    → serves m q ≡ true
    → ((j : ℕ) → get_elem? (retriever peers m) j ≡ some p → (serves m p ≡ true) × IsAmong peers p)
    → get_elem? (q ∷ retriever peers m) k ≡ some p
    → (serves m p ≡ true) × IsAmong (q ∷ peers) p
kept-serves q peers m zero p t h e =
    let same : q ≡ p = cc in (subst (λ r. serves m r ≡ true) same t, (0, e))
kept-serves q peers m (suc j) p t h e = let (s, (i, a)) = h j e in (s, (suc i, a))

retriever-serves :
    (peers : List Peer) (m : Text) (k : ℕ) (p : Peer)
    → get_elem? (retriever peers m) k ≡ some p
    → (serves m p ≡ true) × IsAmong peers p
unfolding retriever
retriever-serves [] m k p e = cc
retriever-serves (q ∷ peers) m k p e = elim (Bool-cases (serves m q)) [
  | inl t ↦ kept-serves q peers m k p t (λ j. retriever-serves peers m j p) (rw t at e)
  | inr f ↦ let (s, (j, a)) = retriever-serves peers m k p (rw f at e) in (s, (suc j, a))
]

pub retriever-served :
    (peers : List Peer) (m : Text) → served peers m ≡ true → retriever peers m ≢ []
unfolding retriever
retriever-served [] m e = cc
retriever-served (q ∷ peers) m e = elim (Bool-cases (serves m q)) [
  | inl t ↦ rw t (λ f. cc)
  | inr f ↦
      let later : served peers m ≡ true = ground (arith, e, f) in
      rw f (retriever-served peers m later)
]

module _ (peers : List Peer) where
  -- One peer for each MSP.
  abbrev pub Serve : List Text → List Peer → Type 0
  Serve [] [] = Unit
  Serve [] (p ∷ ps) = ⊥
  Serve (m ∷ ms) [] = ⊥
  Serve (m ∷ ms) (p ∷ ps) = (serves m p ≡ true) × IsAmong peers p × Serve ms ps

  peer_at :
      (qs : List Peer) (k : ℕ) (i : Item)
      → get_elem? (map peer_item qs) k ≡ some i
      → (p : Peer) × (i ≡ peer_item p) × (get_elem? qs k ≡ some p)
  peer_at [] k i e = cc
  peer_at (q ∷ qs) zero i e = (q, cc, refl)
  peer_at (q ∷ qs) (suc k) i e = peer_at qs k i e

  Picks-Serve :
      (ms : List Text) (is : List Item)
      → Picks (retriever peers) is (map msp_group ms)
      → Returns (Serve ms) (must_get_peers is)
  unfolding must_get_peers items_of
  Picks-Serve [] [] h = tt
  Picks-Serve [] (i ∷ is) h = elim h [ ]
  Picks-Serve (m ∷ ms) [] h = elim h [ ]
  Picks-Serve (m ∷ ms) (i ∷ is) ((k, e), h) =
      let (p, same, at) = peer_at (retriever peers m) k i e in
      let (s, a) = retriever-serves peers m k p at in
      rw same (
        Returns->>= (Serve ms) (Serve (m ∷ ms)) (must_get_peers is) (λ ps. done (p ∷ ps))
          (Picks-Serve ms is h) (λ ps r. (s, a, r)))

  pick-Serve :
      (ms : List Text) (g : Group)
      → IsPick (retriever peers) [] (map msp_group ms) g
      → Returns (Serve ms) (must_get_peer_group (retriever peers) g)
  unfolding must_get_peer_group items_of new_group
  pick-Serve ms g p =
      let e = to_list-from_list p.picked in
      subst (λ h. Returns (Serve ms) (must_get_peer_group (retriever peers) h)) (sym p.is_group)
        (subst (λ l. Returns (Serve ms) (must_get_peers l)) (sym e)
          (Picks-Serve ms p.picked p.picks))

  -- The groups of peers of a conjunction: each serves all MSPs, and there is one for each group.
  abbrev pub AllServe : List Text → List Group → List (List Peer) → Type 0
  AllServe ms gs pss = All (Serve ms) pss × (gs ≢ [] → pss ≢ [])

  pub each-Serve :
      (ms : List Text) (gs : List Group)
      → All (IsPick (retriever peers) [] (map msp_group ms)) gs
      → Returns (AllServe ms gs) (must_get_each (retriever peers) gs)
  unfolding must_get_each
  each-Serve ms [] a = (tt, λ n. absurd (n refl))
  each-Serve ms (g ∷ gs) (p, a) =
      Returns->>= (Serve ms) (AllServe ms (g ∷ gs)) (must_get_peer_group (retriever peers) g)
        (λ ps. must_get_each (retriever peers) gs >>= λ pss. done (ps ∷ pss)) (pick-Serve ms g p)
        λ ps s.
          Returns->>= (AllServe ms gs) (AllServe ms (g ∷ gs)) (must_get_each (retriever peers) gs)
            (λ pss. done (ps ∷ pss)) (each-Serve ms gs a) λ pss r. ((s, r.0), λ n e. cc)

  pub Serve-holds :
      (ms : List Text) (ps : List Peer) → Serve ms ps → All (λ m. served ps m ≡ true) ms
  Serve-holds [] ps h = tt
  Serve-holds (m ∷ ms) [] h = elim h [ ]
  Serve-holds (m ∷ ms) (p ∷ ps) (s, a, h) = (
    ground (arith, s),
    All-mono (λ n. served ps n ≡ true) (λ n. served (p ∷ ps) n ≡ true) ms (λ n e. ground (arith, e))
        (Serve-holds ms ps h),
  )

  pub Serve-IsAmong : (ms : List Text) (ps : List Peer) → Serve ms ps → All (IsAmong peers) ps
  Serve-IsAmong [] [] h = tt
  Serve-IsAmong [] (p ∷ ps) h = elim h [ ]
  Serve-IsAmong (m ∷ ms) [] h = elim h [ ]
  Serve-IsAmong (m ∷ ms) (p ∷ ps) (s, a, h) = (a, Serve-IsAmong ms ps h)
