-- ===== src/Selection/Sorter/Insertion.antt =====
-- A sort by insertion, which does what the library says of its sort.
use mathlib.Core.List.Perm
use fabric_sdk_go_gm.Common.{
  ℕ, ◌≤◌, ◌≡◌, sym, ◌∙◌, Bool, List, [], ◌∷◌, ltb, if◌then◌else◌, All, All-mono, Perm, arith,
  Bool-cases, inl, inr,
}
use fabric_sdk_go_gm.Selection.{Peer}
use fabric_sdk_go_gm.Selection.Sorter.{Sort, IsAscending, IsSort}

-- Before the first element that is not less.
place : (Peer → Peer → Bool) → Peer → List Peer → List Peer
place test p [] = p ∷ []
place test p (q ∷ qs) = let rest = place test p qs in if test q p then q ∷ rest else p ∷ q ∷ qs

unfoldable pub sort_by_insertion : Sort
unfolding place
sort_by_insertion test [] = []
sort_by_insertion test (p ∷ ps) = place test p (sort_by_insertion test ps)

module _ (test : Peer → Peer → Bool) where
  place-All :
      (P : Peer → Type 0) (p : Peer) (qs : List Peer) → P p → All P qs → All P (place test p qs)
  unfolding place
  place-All P p [] h a = (h, tt)
  place-All P p (q ∷ qs) h a = elim (Bool-cases (test q p)) [
    | inl e ↦ rw e (a.0, place-All P p qs h a.1)
    | inr e ↦ rw e (h, a)
  ]

  place-Perm : (p : Peer) (qs : List Peer) → Perm (place test p qs) (p ∷ qs)
  unfolding place
  place-Perm p [] = Perm.refl (p ∷ [])
  place-Perm p (q ∷ qs) = elim (Bool-cases (test q p)) [
    | inl e ↦ rw e (Perm.trans (Perm.cons q (place-Perm p qs)) (Perm.swap p q qs))
    | inr e ↦ rw e (Perm.refl (p ∷ q ∷ qs))
  ]

  sort-All : (P : Peer → Type 0) (ps : List Peer) → All P ps → All P (sort_by_insertion test ps)
  unfolding sort_by_insertion
  sort-All P [] a = tt
  sort-All P (p ∷ ps) a = place-All P p (sort_by_insertion test ps) a.0 (sort-All P ps a.1)

  module _ (key : Peer → ℕ) where
    place-IsAscending :
        (p : Peer) (qs : List Peer)
        → All (λ q. test q p ≡ ltb (key q) (key p)) qs
        → IsAscending key qs
        → IsAscending key (place test p qs)
    unfolding place
    place-IsAscending p [] h a = (tt, tt)
    place-IsAscending p (q ∷ qs) h a = elim (Bool-cases (test q p)) [
      | inl e ↦
          let first : key q ≤ key p = let t = sym h.0 ∙ e in ground (arith, t) in
          rw e (place-All (λ x. key q ≤ key x) p qs first a.0, place-IsAscending p qs h.1 a.1)
      | inr e ↦
          let first : key p ≤ key q = let t = sym h.0 ∙ e in ground (arith, t) in
          rw e (
            (
              first,
              All-mono (λ x. key q ≤ key x) (λ x. key p ≤ key x) qs (λ x k. omega (arith, k, first))
                  a.0,
            ),
            a,
          )
    ]

    sort-IsAscending :
        (ps : List Peer)
        → All (λ p. All (λ q. test p q ≡ ltb (key p) (key q)) ps) ps
        → IsAscending key (sort_by_insertion test ps)
    unfolding sort_by_insertion
    sort-IsAscending [] h = tt
    sort-IsAscending (p ∷ ps) h =
        place-IsAscending p (sort_by_insertion test ps)
          (sort-All (λ q. test q p ≡ ltb (key q) (key p)) ps
            (All-mono (λ q. All (λ r. test q r ≡ ltb (key q) (key r)) (p ∷ ps))
              (λ q. test q p ≡ ltb (key q) (key p)) ps (λ q k. k.0) h.1))
          (sort-IsAscending ps (
            All-mono (λ q. All (λ r. test q r ≡ ltb (key q) (key r)) (p ∷ ps))
              (λ q. All (λ r. test q r ≡ ltb (key q) (key r)) ps) ps (λ q k. k.1) h.1))

  sort-Perm : (ps : List Peer) → Perm (sort_by_insertion test ps) ps
  unfolding sort_by_insertion
  sort-Perm [] = Perm.refl []
  sort-Perm (p ∷ ps) =
      Perm.trans (place-Perm p (sort_by_insertion test ps)) (Perm.cons p (sort-Perm ps))

pub insertion-IsSort : IsSort sort_by_insertion
insertion-IsSort test key ps h = (sort-Perm test ps, sort-IsAscending test key ps h)
