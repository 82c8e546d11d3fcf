-- ===== src/Selection/Balancer/Rotation.antt =====
-- balancer.go: the two loops of the round-robin balancer, as a rotation of the list of peers.
use mathlib.Core.List.{perm_append_comm}
use fabric_sdk_go_gm.Common.{
  ℕ, zero, suc, ◌-◌, ◌≤◌, ◌<◌, ◌≡◌, refl, sym, ap, ◌∙◌, List, [], ◌∷◌, ◌++◌, Perm, arith, length,
  take, drop, subst,
}
use fabric_sdk_go_gm.Common.Int.{ℤ, pos, negsuc}
use fabric_sdk_go_gm.Common.Outcome.{done, Returns}
use fabric_sdk_go_gm.Selection.{Peer}
use fabric_sdk_go_gm.Selection.Balancer.{advance, next, copy_range, balance_from, round_robin}

module _ {A : Type 0} where
  copy_range-tail :
      (x : A) (xs : List A) (i k : ℕ) → copy_range (x ∷ xs) (suc i) k ≡ copy_range xs i k
  unfolding copy_range
  copy_range-tail x xs i zero = refl
  copy_range-tail x xs i (suc k) = ground (arith, copy_range-tail x xs (suc i) k)

  copy_range-drop_whole : (xs : List A) → copy_range xs 0 (length xs) ≡ xs
  unfolding copy_range
  copy_range-drop_whole [] = refl
  copy_range-drop_whole (x ∷ xs) = rw (copy_range-tail x xs 0 (length xs), copy_range-drop_whole xs)

  copy_range-drop : (xs : List A) (i : ℕ) → copy_range xs i (length xs - i) ≡ drop i xs
  copy_range-drop xs zero = ap (copy_range xs 0) (omega arith) ∙ copy_range-drop_whole xs
  copy_range-drop [] (suc i) =
      let e : length {A = A} [] - suc i ≡ 0 = omega arith in
      let last : copy_range {A = A} [] (suc i) 0 ≡ [] = unfold copy_range in refl in
      ap (copy_range [] (suc i)) e ∙ last
  copy_range-drop (x ∷ xs) (suc i) =
      copy_range-tail x xs i (suc (length xs) - suc i)
      ∙ ap (copy_range xs i) (omega arith)
      ∙ copy_range-drop xs i

  copy_range-take : (xs : List A) (i : ℕ) → i ≤ length xs → copy_range xs 0 i ≡ take i xs
  unfolding copy_range
  copy_range-take xs zero h = refl
  copy_range-take [] (suc i) h = refl
  copy_range-take (x ∷ xs) (suc i) h =
      let h1 : i ≤ length xs = omega (arith, h) in
      rw (copy_range-tail x xs 0 i, copy_range-take xs i h1)

  take-drop : (xs : List A) (i : ℕ) → take i xs ++ drop i xs ≡ xs
  take-drop xs zero = refl
  take-drop [] (suc i) = refl
  take-drop (x ∷ xs) (suc i) = ap (x ∷◌) (take-drop xs i)

  balance_from-rotates :
      (xs : List A) (i : ℕ) → i ≤ length xs → balance_from i xs ≡ drop i xs ++ take i xs
  unfolding balance_from
  balance_from-rotates xs i h = rw (copy_range-drop xs i, copy_range-take xs i h)

  balance_from-Perm : (xs : List A) (i : ℕ) → i ≤ length xs → Perm (balance_from i xs) xs
  balance_from-Perm xs i h =
      let turned : Perm (drop i xs ++ take i xs) (take i xs ++ drop i xs) =
        perm_append_comm (drop i xs) (take i xs) in
      subst (λ ys. Perm ys xs) (sym (balance_from-rotates xs i h))
        (subst (Perm (drop i xs ++ take i xs)) (take-drop xs i) turned)

-- The index that a counter shows to be the next one is in range.
pub advance_lt : (random n : ℕ) (index : ℤ) → 0 < n → random < n → advance random n index < n
unfolding advance
advance_lt random n (pos i) h r = ground (arith, h)
advance_lt random n (negsuc zero) h r = r
advance_lt random n (negsuc (suc i)) h r = h

pub next_lem :
    (random n : ℕ) (index : ℤ)
    → 0 < n
    → next random n index ≡ done (advance random n index, pos (advance random n index))
unfolding next
next_lem random n index h = ground (arith, h)

-- The answer is the list turned, from the new index on, so it has the same peers; and the new index
-- is in range.
abbrev pub Turns : ℕ → ℤ → List Peer → List Peer × ℤ → Type 0
Turns random index peers r =
    let i = advance random (length peers) index in
    (r.0 ≡ drop i peers ++ take i peers) × (Perm r.0 peers × ((r.1 ≡ pos i) × (i < length peers)))

-- If the random number is below the number of peers, the round-robin balancer returns: its answer is
-- the list of peers turned, from the counter's new index on, and so has the same peers; the counter
-- is left at that index, which is below the number of peers.
pub round_robin_lem :
    (random : ℕ) (index : ℤ) (peers : List Peer)
    → random < length peers
    → Returns (Turns random index peers) (round_robin random index peers)
unfolding round_robin
round_robin_lem random index [] h = let e : ⊥ = omega (arith, h) in elim e [ ]
round_robin_lem random index (p ∷ ps) h =
    let positive : 0 < suc (length ps) = omega arith in
    let small = advance_lt random (suc (length ps)) index positive h in
    let inside : advance random (suc (length ps)) index ≤ suc (length ps) = omega (arith, small) in
    let i = advance random (suc (length ps)) index in
    let answer = balance_from i (p ∷ ps) in
    let e : round_robin random index (p ∷ ps) ≡ done (answer, pos i) =
      rw (next_lem random (suc (length ps)) index positive) in
    subst (Returns _) (sym e)
      (balance_from-rotates (p ∷ ps) i inside, (balance_from-Perm (p ∷ ps) i inside, (refl, small)))
