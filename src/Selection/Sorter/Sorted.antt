-- ===== src/Selection/Sorter/Sorted.antt =====
-- blockheightsorter.go: the order that `Sort` gives to the peers.
use mathlib.Core.List.Perm
use mathlib.Core.List.{perm_middle, append-nil, Permᴰ}
use mathlib.Core.Logic.{∥∥₁_elim}
use native.Mathlib.Bridge.{le_prop}
use fabric_sdk_go_gm.Common.{
  ℕ, ◌-◌, ◌≤◌, ◌<◌, ◌≡◌, ◌≢◌, refl, sym, subst, false, List, [], ◌∷◌, ◌++◌, Option, none, some, leb,
  ltb, All, All-mono, Perm, arith, Bool-cases, inl, inr,
}
use fabric_sdk_go_gm.Common.Int.{pos}
use fabric_sdk_go_gm.Common.Outcome.{Outcome, done, Returns, Returns->>=, Returns-mono}
use fabric_sdk_go_gm.Selection.{Peer}
use fabric_sdk_go_gm.Selection.Heights.{
  get_max_block_height, is_accepted, accepted_peers, higher, IsAtLeast, HasAtLeast,
  accepted_peers-IsAtLeast, accepted_peers-ne,
}
use fabric_sdk_go_gm.Selection.Sorter.{
  lower, less, other_peers, Sort, sort_by_cutoff, sort_by_height, sort_peers, IsAscending, IsSort,
}

module _ (P : Peer → Type 0) where
  permuted-All : {ps qs : List Peer} → Permᴰ ps qs → All P ps → All P qs
  permuted-All Permᴰ.nil a = tt
  permuted-All (Permᴰ.cons e d) a = (subst P e a.0, permuted-All d a.1)
  permuted-All (Permᴰ.swap e f) (a, (b, c)) = (subst P f b, (subst P e a, c))
  permuted-All (Permᴰ.trans d e) a = permuted-All e (permuted-All d a)

  All-IsProp : (ps : List Peer) → ((p : Peer) → IsProp (P p)) → IsProp (All P ps)
  All-IsProp [] h = hlevel
  All-IsProp (p ∷ ps) h = λ a b i. (h p a.0 b.0 i, All-IsProp ps h a.1 b.1 i)

  Perm-All : (ps qs : List Peer) → ((p : Peer) → IsProp (P p)) → Perm ps qs → All P ps → All P qs
  Perm-All ps qs h d a = ∥∥₁_elim d (All-IsProp qs h) (λ e. permuted-All e a)

abbrev pub HasBelow : ℕ → Option ℕ → Type 0
HasBelow c none = ⊥
HasBelow c (some h) = h < c

-- A peer with a state, below a height.
abbrev pub IsBelow : ℕ → Peer → Type 0
IsBelow c p = HasBelow c p.block_height

HasBelow-IsProp : (c : ℕ) (o : Option ℕ) → IsProp (HasBelow c o)
HasBelow-IsProp c none = λ a b. elim a [ ]
HasBelow-IsProp c (some h) = le_prop

HasAtLeast-IsProp : (c : ℕ) (o : Option ℕ) → IsProp (HasAtLeast c o)
HasAtLeast-IsProp c none = hlevel
HasAtLeast-IsProp c (some h) = le_prop

refused-HasBelow : (c : ℕ) (o : Option ℕ) → is_accepted c o ≡ false → HasBelow c o
refused-HasBelow c none e = cc
refused-HasBelow c (some h) e = ground arith

other_peers-IsBelow : (c : ℕ) (ps : List Peer) → All (IsBelow c) (other_peers c ps)
other_peers-IsBelow c [] = tt
other_peers-IsBelow c (p ∷ ps) = elim (Bool-cases (is_accepted c p.block_height)) [
  | inl e ↦ rw e (other_peers-IsBelow c ps)
  | inr e ↦ rw e (refused-HasBelow c p.block_height e, other_peers-IsBelow c ps)
]

parted : (c : ℕ) (ps : List Peer) → Perm (accepted_peers c ps ++ other_peers c ps) ps
parted c [] = Perm.refl []
parted c (p ∷ ps) = elim (Bool-cases (is_accepted c p.block_height)) [
  | inl e ↦ rw e (Perm.cons p (parted c ps))
  | inr e ↦ rw e (
      Perm.trans (perm_middle (accepted_peers c ps) (other_peers c ps)) (Perm.cons p (parted c ps)))
]

height_of : Option ℕ → ℕ
height_of none = 0
height_of (some h) = h

-- How far a peer is below the cutoff.
depth : ℕ → Peer → ℕ
depth c p = c - height_of p.block_height

lower-depth :
    (c : ℕ) (a b : Option ℕ)
    → HasBelow c a
    → HasBelow c b
    → lower b a ≡ ltb (c - height_of a) (c - height_of b)
unfolding height_of
lower-depth c none b h k = elim h [ ]
lower-depth c (some x) none h k = elim k [ ]
lower-depth c (some x) (some y) h k = ground arith

abbrev pub HasAbove : Option ℕ → Option ℕ → Type 0
HasAbove none o = Unit
HasAbove (some h) none = Unit
HasAbove (some h) (some k) = k ≤ h

-- The first peer is not below the second, if both have a state.
abbrev pub IsAbove : Peer → Peer → Type 0
IsAbove p q = HasAbove p.block_height q.block_height

abbrev pub IsDescending : List Peer → Type 0
IsDescending [] = Unit
IsDescending (p ∷ ps) = All (IsAbove p) ps × IsDescending ps

depth-HasAbove :
    (c : ℕ) (a b : Option ℕ) → HasBelow c b → c - height_of a ≤ c - height_of b → HasAbove a b
unfolding height_of
depth-HasAbove c none b h k = tt
depth-HasAbove c (some x) none h k = tt
depth-HasAbove c (some x) (some y) h k = omega (arith, h, k)

ascending-IsDescending :
    (c : ℕ) (ps : List Peer) → All (IsBelow c) ps → IsAscending (depth c) ps → IsDescending ps
unfolding depth
ascending-IsDescending c [] b a = tt
ascending-IsDescending c (p ∷ ps) b a = (above ps b.1 a.0, ascending-IsDescending c ps b.1 a.1)
  where
    above :
        (qs : List Peer)
        → All (IsBelow c) qs
        → All (λ q. depth c p ≤ depth c q) qs
        → All (IsAbove p) qs
    above [] k l = tt
    above (q ∷ qs) k l = (depth-HasAbove c p.block_height q.block_height k.0 l.0, above qs k.1 l.1)

tests-depth :
    (c : ℕ) (ps : List Peer)
    → All (IsBelow c) ps
    → All (λ p. All (λ q. less q p ≡ ltb (depth c p) (depth c q)) ps) ps
unfolding less depth
tests-depth c ps b =
    All-mono (IsBelow c) (λ p. All (λ q. less q p ≡ ltb (depth c p) (depth c q)) ps) ps
      (λ p k.
        All-mono (IsBelow c) (λ q. less q p ≡ ltb (depth c p) (depth c q)) ps
          (λ q l. lower-depth c p.block_height q.block_height k l) b)
      b

-- The peers, those that are behind the highest by the lag at most or have no state before those that
-- are not, and these in descending order of their heights.
pub record IsOrdered (lag : ℕ) (peers : List Peer) (result : List Peer) : Type 0 where
  pub front : List Peer
  pub back : List Peer
  pub parts : result ≡ front ++ back
  pub same_peers : Perm result peers
  pub current : All (IsAtLeast (get_max_block_height peers - lag)) front
  pub behind : All (IsBelow (get_max_block_height peers - lag)) back
  pub descending : IsDescending back

module _ {S : Type 0} (sort : Sort) (sorts : IsSort sort)
    (balancer : List Peer → Outcome (List Peer × S))
    (balances : (ps : List Peer) → ps ≢ [] → Returns (λ x. Perm x.0 ps) (balancer ps))
    (state : S) where
  cutoff-IsOrdered :
      (lag : ℕ) (ps : List Peer)
      → lag < get_max_block_height ps
      → Returns
          (λ x. IsOrdered lag ps x.0)
          (sort_by_cutoff sort balancer state (get_max_block_height ps - lag) ps)
  unfolding sort_by_cutoff
  cutoff-IsOrdered lag ps h =
      let c = get_max_block_height ps - lag in
      let below = other_peers-IsBelow c ps in
      let (q, up) =
        sorts (λ x y. less y x) (depth c) (other_peers c ps)
          (tests-depth c (other_peers c ps) below) in
      let others = sort (λ x y. less y x) (other_peers c ps) in
      let still =
        Perm-All (IsBelow c) (other_peers c ps) others (λ x. HasBelow-IsProp c x.block_height)
          (Perm.symm q) below in
      Returns->>= (λ x. Perm x.0 (accepted_peers c ps)) (λ x. IsOrdered lag ps x.0)
        (balancer (accepted_peers c ps)) (λ r. done (r.0 ++ others, r.1))
        (balances (accepted_peers c ps)
          (accepted_peers-ne c ps (omega (arith, h)) (omega (arith, h))))
        λ r p. record {
          front = r.0;
          back = others;
          parts = refl;
          same_peers =
              Perm.trans (Perm.append_right others p)
                (Perm.trans (Perm.append_left (accepted_peers c ps) q) (parted c ps));
          current =
              Perm-All (IsAtLeast c) (accepted_peers c ps) r.0
                (λ x. HasAtLeast-IsProp c x.block_height) (Perm.symm p)
                (accepted_peers-IsAtLeast c ps);
          behind = still;
          descending = ascending-IsDescending c others still up;
        }

  all-current :
      (lag : ℕ) (ps qs : List Peer)
      → get_max_block_height ps ≤ lag
      → All (IsAtLeast (get_max_block_height ps - lag)) qs
  all-current lag ps [] h = tt
  all-current lag ps (q ∷ qs) h =
      (any (get_max_block_height ps) q.block_height h, all-current lag ps qs h)
    where
      any : (m : ℕ) (o : Option ℕ) → m ≤ lag → HasAtLeast (m - lag) o
      any m none k = tt
      any m (some x) k = omega (arith, k)

  front-IsOrdered :
      (lag : ℕ) (ps qs : List Peer)
      → Perm qs ps
      → All (IsAtLeast (get_max_block_height ps - lag)) qs
      → IsOrdered lag ps qs
  front-IsOrdered lag ps qs p a = record {
    front = qs;
    back = [];
    parts = sym (append-nil qs);
    same_peers = p;
    current = a;
    behind = tt;
    descending = tt;
  }

  height-IsOrdered :
      (lag : ℕ) (ps : List Peer)
      → ps ≢ []
      → Returns (λ x. IsOrdered lag ps x.0) (sort_by_height sort balancer state (pos lag) ps)
  unfolding sort_by_height
  height-IsOrdered lag ps n = elim (Bool-cases (leb (get_max_block_height ps) lag)) [
    | inl e ↦ rw e (
        Returns-mono (λ x. Perm x.0 ps) (λ x. IsOrdered lag ps x.0) (balancer ps)
          (λ x p. front-IsOrdered lag ps x.0 p (all-current lag ps x.0 (ground (arith, e))))
          (balances ps n))
    | inr e ↦ rw e (cutoff-IsOrdered lag ps (ground (arith, e)))
  ]

  alone-HasAtLeast : (lag : ℕ) (o : Option ℕ) → HasAtLeast (higher 0 o - lag) o
  alone-HasAtLeast lag none = tt
  alone-HasAtLeast lag (some h) = ground arith

  -- If the library's sort sorts, the balancer returns the peers that it is given, if there are any, in
  -- some order, and the lag threshold is not negative, then `Sort` returns all peers: first those
  -- whose heights are behind the highest by the threshold at most or that have no state, then the
  -- others in descending order of their heights.
  pub sort_peers-IsOrdered :
      (lag : ℕ) (ps : List Peer)
      → Returns (λ x. IsOrdered lag ps x.0) (sort_peers sort balancer state (pos lag) ps)
  unfolding sort_peers get_max_block_height
  sort_peers-IsOrdered lag [] = front-IsOrdered lag [] [] (Perm.refl []) tt
  sort_peers-IsOrdered lag (p ∷ []) =
      front-IsOrdered lag (p ∷ []) (p ∷ []) (Perm.refl (p ∷ []))
        (alone-HasAtLeast lag p.block_height, tt)
  sort_peers-IsOrdered lag (p ∷ q ∷ ps) = height-IsOrdered lag (p ∷ q ∷ ps) (λ e. cc)
