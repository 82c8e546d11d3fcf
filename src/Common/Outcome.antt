-- ===== src/Common/Outcome.antt =====
-- What a piece of Go code does: it returns, it panics, or it waits on a channel and never goes on.
use mathlib.Core.Path.{◌≡◌, refl}
use mathlib.Core.Bool.{Bool, true, false}
use mathlib.Core.Option.{Option, none, some}
use fabric_sdk_go_gm.Common.Tests.{if◌then◌else◌}

pub data Panic : Type 0 where
  closed_channel nil_dereference index_out_of_range explicit_panic : Panic

pub data Outcome {ℓ} (A : Type ℓ) : Type ℓ where
  done : A → Outcome A
  panics : Panic → Outcome A
  blocked : Outcome A

infixl 5 ◌>>=◌ ◌>>◌
abbrev pub ◌>>=◌ {ℓ κ} : {A : Type ℓ} {B : Type κ} → Outcome A → (A → Outcome B) → Outcome B
done a >>= f = f a
panics p >>= f = panics p
blocked >>= f = blocked

abbrev pub ◌>>◌ {ℓ} : {B : Type ℓ} → Outcome (Unit {0}) → Outcome B → Outcome B
m >> k = m >>= λ _. k

-- What holds if the code returns.
abbrev pub IfDone {ℓ κ} : {A : Type ℓ} → (A → Type κ) → Outcome A → Type κ
IfDone P (done a) = P a
IfDone P (panics p) = Unit
IfDone P blocked = Unit

-- The code returns, without a panic and without waiting for ever, and `P` holds of the result.
abbrev pub Returns {ℓ} : {A : Type ℓ} → (A → Type 0) → Outcome A → Type 0
Returns P (done a) = P a
Returns P (panics p) = ⊥
Returns P blocked = ⊥

-- A dereference of a pointer that may be nil.
abbrev pub deref {ℓ} : {A : Type ℓ} → Option A → Outcome A
deref none = panics nil_dereference
deref (some a) = done a

module _ {ℓ κ} {A : Type ℓ} {B : Type κ} where
  pub IfDone->>= :
      (P : A → Type 0) (Q : B → Type 0) (m : Outcome A) (f : A → Outcome B)
      → IfDone P m
      → ((a : A) → P a → IfDone Q (f a))
      → IfDone Q (m >>= f)
  IfDone->>= P Q (done a) f h k = k a h
  IfDone->>= P Q (panics p) f h k = tt
  IfDone->>= P Q blocked f h k = tt

  pub Returns->>= :
      (P : A → Type 0) (Q : B → Type 0) (m : Outcome A) (f : A → Outcome B)
      → Returns P m
      → ((a : A) → P a → Returns Q (f a))
      → Returns Q (m >>= f)
  Returns->>= P Q (done a) f h k = k a h
  Returns->>= P Q (panics p) f h k = elim h [ ]
  Returns->>= P Q blocked f h k = elim h [ ]

  pub Returns-done :
      (Q : B → Type 0) (P : A → Type 0) (m : Outcome A) (f : A → Outcome B)
      → Returns P m
      → ((a : A) → m ≡ done a → P a → Returns Q (f a))
      → Returns Q (m >>= f)
  Returns-done Q P (done a) f h k = k a refl h
  Returns-done Q P (panics p) f h k = elim h [ ]
  Returns-done Q P blocked f h k = elim h [ ]

-- The rules for a branch.
module _ {ℓ} {A : Type ℓ} (P : A → Type 0) where
  pub IfDone-if :
      (b : Bool) (x y : Outcome A)
      → (b ≡ true → IfDone P x)
      → (b ≡ false → IfDone P y)
      → IfDone P (if b then x else y)
  IfDone-if true x y h k = h refl
  IfDone-if false x y h k = k refl

  pub Returns-if :
      (b : Bool) (x y : Outcome A)
      → (b ≡ true → Returns P x)
      → (b ≡ false → Returns P y)
      → Returns P (if b then x else y)
  Returns-if true x y h k = h refl
  Returns-if false x y h k = k refl

  pub IfDone-option {κ} :
      {B : Type κ} (o : Option B) (x : Outcome A) (f : B → Outcome A)
      → IfDone P x
      → ((b : B) → IfDone P (f b))
      → IfDone P (elim o [ none ↦ x | some b ↦ f b ])
  IfDone-option none x f h k = h
  IfDone-option (some b) x f h k = k b

  pub Returns-option {κ} :
      {B : Type κ} (o : Option B) (x : Outcome A) (f : B → Outcome A)
      → (o ≡ none → Returns P x)
      → ((b : B) → o ≡ some b → Returns P (f b))
      → Returns P (elim o [ none ↦ x | some b ↦ f b ])
  Returns-option none x f h k = h refl
  Returns-option (some b) x f h k = k b refl

pub IfDone-any {ℓ} : {A : Type ℓ} (r : Outcome A) → IfDone (λ _. Unit {0}) r
IfDone-any (done a) = tt
IfDone-any (panics p) = tt
IfDone-any blocked = tt

pub IfDone-mono {ℓ} :
    {A : Type ℓ} (P Q : A → Type 0) (r : Outcome A)
    → ((a : A) → P a → Q a)
    → IfDone P r
    → IfDone Q r
IfDone-mono P Q (done a) k h = k a h
IfDone-mono P Q (panics p) k h = tt
IfDone-mono P Q blocked k h = tt

pub Returns-mono {ℓ} :
    {A : Type ℓ} (P Q : A → Type 0) (r : Outcome A)
    → ((a : A) → P a → Q a)
    → Returns P r
    → Returns Q r
Returns-mono P Q (done a) k h = k a h
Returns-mono P Q (panics p) k h = h
Returns-mono P Q blocked k h = h

pub IfDone-deref {ℓ κ} :
    {A : Type ℓ} {B : Type κ} (P : A → Type 0) (o : Option B) (f : B → Outcome A)
    → ((b : B) → o ≡ some b → IfDone P (f b))
    → IfDone P (deref o >>= f)
IfDone-deref P none f k = tt
IfDone-deref P (some b) f k = k b refl
