-- ===== src/Common/Map.antt =====
-- Go's maps with string keys, as association lists. `insert` overwrites, and `delete` of a missing
-- key does nothing, as in Go. A map is ranged over in the order of the list: Go leaves that order
-- open, and no statement of this library rests on it.
use mathlib.Core.Path.{◌≡◌, refl, ◌∙◌, subst}
use mathlib.Core.Logic.{inl, inr}
use mathlib.Core.Bool.{false}
use mathlib.Core.Option.{Option, none, some}
use mathlib.Core.List.{List, [], ◌∷◌, ◌++◌, Perm, Mem, mem-cons_self, mem-cons_of_mem}
use mathlib.Core.List.Perm
use native.Mathlib.Omega.{arith}
use fabric_sdk_go_gm.Common.Tests.{if◌then◌else◌, Bool-cases}
use fabric_sdk_go_gm.Common.Text.{Text, text_eq, text_eq→eq, text_eq_refl}

module _ {ℓ} {V : Type ℓ} where
  unfoldable pub lookup : Text → List (Text × V) → Option V
  lookup k [] = none
  lookup k ((j, v) ∷ m) = if text_eq j k then some v else lookup k m

  unfoldable pub insert : Text → V → List (Text × V) → List (Text × V)
  insert k v [] = (k, v) ∷ []
  insert k v ((j, w) ∷ m) = if text_eq j k then (k, v) ∷ m else (j, w) ∷ insert k v m

  unfoldable pub delete : Text → List (Text × V) → List (Text × V)
  delete k [] = []
  delete k ((j, w) ∷ m) = if text_eq j k then delete k m else (j, w) ∷ delete k m

  -- The values in the order in which the map is ranged over.
  unfoldable pub values : List (Text × V) → List V
  values [] = []
  values ((j, w) ∷ m) = w ∷ values m

  pub lookup-insert :
      (k j : Text) (v : V) (m : List (Text × V))
      → lookup j (insert k v m) ≡ (if text_eq k j then some v else lookup j m)
  unfolding lookup insert
  lookup-insert k j v [] = refl
  lookup-insert k j v ((i, w) ∷ m) = ground (
    arith,
    text_eq→eq i k,
    text_eq→eq k j,
    text_eq→eq i j,
    text_eq_refl k,
    text_eq_refl j,
    lookup-insert k j v m,
  )

  pub lookup-delete :
      (k j : Text) (m : List (Text × V))
      → lookup j (delete k m) ≡ (if text_eq k j then none else lookup j m)
  unfolding lookup delete
  lookup-delete k j [] = ground arith
  lookup-delete k j ((i, w) ∷ m) = ground (
    arith,
    text_eq→eq i k,
    text_eq→eq k j,
    text_eq→eq i j,
    text_eq_refl k,
    text_eq_refl j,
    lookup-delete k j m,
  )

  -- A key stands at most once, and is the one that its value goes by.
  abbrev pub IsMap : (V → Text) → List (Text × V) → Type ℓ
  IsMap key [] = Unit
  IsMap key ((k, v) ∷ m) = (lookup k m ≡ none) × (k ≡ key v) × IsMap key m

  pub IsMap-insert :
      (key : V → Text) (v : V) (m : List (Text × V)) → IsMap key m → IsMap key (insert (key v) v m)
  unfolding lookup insert
  IsMap-insert key v [] h = (refl, refl, tt)
  IsMap-insert key v ((j, w) ∷ m) h = elim (Bool-cases (text_eq j (key v))) [
    | inl e ↦ rw e (rw (text_eq→eq j (key v) e) at (h.0), refl, h.2)
    | inr e ↦ rw e (lookup-insert (key v) j v m ∙ missing e, h.1, IsMap-insert key v m h.2)
  ]
    where
      missing :
          text_eq j (key v) ≡ false → (if text_eq (key v) j then some v else lookup j m) ≡ none
      missing e = elim (Bool-cases (text_eq (key v) j)) [
        | inl f ↦ absurd (ground (arith, text_eq→eq (key v) j f, text_eq_refl j))
        | inr f ↦ rw f h.0
      ]

  pub IsMap-delete :
      (key : V → Text) (k : Text) (m : List (Text × V)) → IsMap key m → IsMap key (delete k m)
  unfolding lookup delete
  IsMap-delete key k [] h = tt
  IsMap-delete key k ((j, w) ∷ m) h = elim (Bool-cases (text_eq j k)) [
    | inl e ↦ rw e (IsMap-delete key k m h.2)
    | inr e ↦ rw e (lookup-delete k j m ∙ ground (arith, h.0), h.1, IsMap-delete key k m h.2)
  ]

  pub delete_missing : (k : Text) (m : List (Text × V)) → lookup k m ≡ none → delete k m ≡ m
  unfolding lookup delete
  delete_missing k [] h = refl
  delete_missing k ((j, w) ∷ m) h = ground (arith, delete_missing k m)

  pub values-insert :
      (k : Text) (v : V) (m : List (Text × V))
      → lookup k m ≡ none
      → values (insert k v m) ≡ values m ++ v ∷ []
  unfolding lookup insert values
  values-insert k v [] h = refl
  values-insert k v ((j, w) ∷ m) h = ground (arith, values-insert k v m)

  pub values-delete :
      (key : V → Text) (k : Text) (v : V) (m : List (Text × V))
      → IsMap key m
      → lookup k m ≡ some v
      → Perm (values m) (v ∷ values (delete k m))
  unfolding lookup delete values
  values-delete key k v [] u h = cc
  values-delete key k v ((j, w) ∷ m) u h = elim (Bool-cases (text_eq j k)) [
    | inl e ↦
        rw (e, delete_missing k m (rw (text_eq→eq j k e) at (u.0)))
          (subst (λ x. Perm (w ∷ values m) (x ∷ values m)) (ground arith)
            (Perm.refl (w ∷ values m)))
    | inr e ↦
        rw e
          (Perm.trans (Perm.cons w (values-delete key k v m u.2 (ground arith))) (Perm.swap v w _))
  ]

  pub lookup-mem : (k : Text) (v : V) (m : List (Text × V)) → lookup k m ≡ some v → Mem v (values m)
  unfolding lookup values
  lookup-mem k v [] h = cc
  lookup-mem k v ((j, w) ∷ m) h = elim (Bool-cases (text_eq j k)) [
    | inl e ↦
        let same : w ≡ v = ground arith in subst (λ x. Mem x (w ∷ values m)) same mem-cons_self
    | inr e ↦ mem-cons_of_mem w (lookup-mem k v m (ground arith))
  ]

  pub insert_missing :
      (k : Text) (v : V) (m : List (Text × V)) → lookup k m ≡ none → insert k v m ≡ m ++ (k, v) ∷ []
  unfolding lookup insert
  insert_missing k v [] h = refl
  insert_missing k v ((j, w) ∷ m) h = ground (arith, insert_missing k v m)

  -- A key of the back part stands in no front part.
  pub IsMap-front :
      (key : V → Text) (k : Text) (v : V) (m n : List (Text × V))
      → IsMap key (m ++ (k, v) ∷ n)
      → lookup k m ≡ none
  unfolding lookup
  IsMap-front key k v [] n h = refl
  IsMap-front key k v ((j, w) ∷ m) n h = elim (Bool-cases (text_eq j k)) [
    | inl e ↦ absurd (clash m (rw (text_eq→eq j k e) at (h.0)))
    | inr e ↦ rw e (IsMap-front key k v m n h.2)
  ]
    where
      clash : (l : List (Text × V)) → lookup k (l ++ (k, v) ∷ n) ≡ none → ⊥
      clash [] c = ground (arith, text_eq_refl k)
      clash ((i, u) ∷ l) c = ground (arith, clash l)

  pub IsMap-key :
      (key : V → Text) (k : Text) (v : V) (m n : List (Text × V))
      → IsMap key (m ++ (k, v) ∷ n)
      → k ≡ key v
  IsMap-key key k v [] n h = h.1
  IsMap-key key k v ((j, w) ∷ m) n h = IsMap-key key k v m n h.2
