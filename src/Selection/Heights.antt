-- ===== src/Selection/Heights.antt =====
-- blockheightsorter.go and minblockheight.go: peers by their block heights.
use fabric_sdk_go_gm.Common.{
  ℕ, zero, suc, ◌≤◌, ◌≡◌, ◌≢◌, ◌<◌, refl, ap, ◌∙◌, Bool, true, false, List, [], ◌∷◌, arith, All,
  All-mono, Option, none, some, leb, ltb, if◌then◌else◌, Bool-cases, inl, inr, get_elem?,
}
use fabric_sdk_go_gm.Selection.{Peer}

-- One round of `getMaxBlockHeight`.
abbrev pub higher : ℕ → Option ℕ → ℕ
higher height none = height
higher height (some h) = if ltb height h then h else height

abbrev pub max_from : ℕ → List Peer → ℕ
max_from height [] = height
max_from height (p ∷ ps) = max_from (higher height p.block_height) ps

unfoldable pub get_max_block_height : List Peer → ℕ
get_max_block_height peers = max_from 0 peers

-- Whether a peer is accepted: it has no state, or its height is at least the cutoff.
abbrev pub is_accepted : ℕ → Option ℕ → Bool
is_accepted cutoff none = true
is_accepted cutoff (some h) = leb cutoff h

-- The loop over the peers.
abbrev pub accepted_peers : ℕ → List Peer → List Peer
accepted_peers cutoff [] = []
accepted_peers cutoff (p ∷ ps) =
    let rest = accepted_peers cutoff ps in
    if is_accepted cutoff p.block_height then p ∷ rest else rest

abbrev pub HasAtLeast : ℕ → Option ℕ → Type 0
HasAtLeast m none = Unit
HasAtLeast m (some h) = m ≤ h

-- A peer without a state, or at the height at least.
abbrev pub IsAtLeast : ℕ → Peer → Type 0
IsAtLeast m p = HasAtLeast m p.block_height

abbrev pub IsAmong : List Peer → Peer → Type 0
IsAmong peers p = (k : ℕ) × (get_elem? peers k ≡ some p)

accepted-HasAtLeast : (c : ℕ) (o : Option ℕ) → is_accepted c o ≡ true → HasAtLeast c o
accepted-HasAtLeast c none e = tt
accepted-HasAtLeast c (some h) e = ground arith

HasAtLeast-accepted : (c : ℕ) (o : Option ℕ) → HasAtLeast c o → is_accepted c o ≡ true
HasAtLeast-accepted c none a = refl
HasAtLeast-accepted c (some h) a = ground arith

pub accepted_peers-IsAtLeast : (c : ℕ) (ps : List Peer) → All (IsAtLeast c) (accepted_peers c ps)
accepted_peers-IsAtLeast c [] = tt
accepted_peers-IsAtLeast c (p ∷ ps) = elim (Bool-cases (is_accepted c p.block_height)) [
  | inl e ↦ rw e (accepted-HasAtLeast c p.block_height e, accepted_peers-IsAtLeast c ps)
  | inr e ↦ rw e (accepted_peers-IsAtLeast c ps)
]

pub IsAmong-later : (q : Peer) (ps rs : List Peer) → All (IsAmong ps) rs → All (IsAmong (q ∷ ps)) rs
IsAmong-later q ps rs a = All-mono (IsAmong ps) (IsAmong (q ∷ ps)) rs (λ p (k, e). (suc k, e)) a

pub all-IsAmong : (ps : List Peer) → All (IsAmong ps) ps
all-IsAmong [] = tt
all-IsAmong (p ∷ ps) = ((0, refl), IsAmong-later p ps ps (all-IsAmong ps))

pub accepted_peers-IsAmong : (c : ℕ) (ps : List Peer) → All (IsAmong ps) (accepted_peers c ps)
accepted_peers-IsAmong c [] = tt
accepted_peers-IsAmong c (p ∷ ps) = elim (Bool-cases (is_accepted c p.block_height)) [
  | inl e ↦ rw e ((0, refl), IsAmong-later p ps (accepted_peers c ps) (accepted_peers-IsAmong c ps))
  | inr e ↦ rw e (IsAmong-later p ps (accepted_peers c ps) (accepted_peers-IsAmong c ps))
]

refused-higher : (c m : ℕ) (o : Option ℕ) → is_accepted c o ≡ false → c ≤ higher m o → c ≤ m
refused-higher c m none e h = h
refused-higher c m (some k) e h = ground arith

-- The highest of the peers is accepted by every cutoff that is not above it.
max_from-accepted :
    (c m : ℕ) (ps : List Peer) → c ≤ max_from m ps → accepted_peers c ps ≡ [] → c ≤ m
max_from-accepted c m [] h e = h
max_from-accepted c m (p ∷ ps) h e = elim (Bool-cases (is_accepted c p.block_height)) [
  | inl t ↦ let f = rw t at e in cc
  | inr t ↦
      refused-higher c m p.block_height t
        (max_from-accepted c (higher m p.block_height) ps h (rw t at e))
]

pub accepted_peers-ne :
    (c : ℕ) (ps : List Peer) → 0 < c → c ≤ get_max_block_height ps → accepted_peers c ps ≢ []
unfolding get_max_block_height
accepted_peers-ne c ps h k e = absurd (omega (arith, max_from-accepted c 0 ps k e))

-- A peer at the cutoff is accepted.
pub accepted_peers-one :
    (c : ℕ) (ps : List Peer) (k : ℕ) (p : Peer)
    → get_elem? ps k ≡ some p
    → IsAtLeast c p
    → accepted_peers c ps ≢ []
accepted_peers-one c [] k p e a = cc
accepted_peers-one c (q ∷ ps) zero p e a =
    let same : q ≡ p = cc in
    let t = ap (λ r. is_accepted c r.block_height) same ∙ HasAtLeast-accepted c p.block_height a in
    rw t (λ f. cc)
accepted_peers-one c (q ∷ ps) (suc k) p e a = elim (Bool-cases (is_accepted c q.block_height)) [
  | inl t ↦ rw t (λ f. cc)
  | inr t ↦ rw t (accepted_peers-one c ps k p e a)
]

abbrev pub HasAtMost : ℕ → Option ℕ → Type 0
HasAtMost m none = Unit
HasAtMost m (some h) = h ≤ m

-- No peer is higher than the maximum.
pub max-HasAtMost :
    (ps : List Peer) → All (λ p. HasAtMost (get_max_block_height ps) p.block_height) ps
unfolding get_max_block_height
max-HasAtMost ps = from 0 ps
  where
    from : (m : ℕ) (qs : List Peer) → All (λ p. HasAtMost (max_from m qs) p.block_height) qs
    from m [] = tt
    from m (q ∷ qs) = (one m q.block_height qs, from (higher m q.block_height) qs)
      where
        grows : (k : ℕ) (rs : List Peer) → k ≤ max_from k rs
        grows k [] = omega arith
        grows k (r ∷ rs) =
            up k r.block_height (max_from (higher k r.block_height) rs)
              (grows (higher k r.block_height) rs)
          where
            up : (k : ℕ) (o : Option ℕ) (n : ℕ) → higher k o ≤ n → k ≤ n
            up k none n h = h
            up k (some j) n h = ground arith

        one : (k : ℕ) (o : Option ℕ) (rs : List Peer) → HasAtMost (max_from (higher k o) rs) o
        one k none rs = tt
        one k (some j) rs = let g = grows (higher k (some j)) rs in ground (arith, g)
