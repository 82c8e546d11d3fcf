-- ===== src/Errors/Retry.antt =====
-- pkg/common/errors/retry: the retry handler (retry.go) and the invoker (invoker.go).
pub mod Bounded
use fabric_sdk_go_gm.Common.{
  ℕ, zero, suc, ◌+◌, Bool, true, false, ◌&&◌, ◌||◌, not, List, [], ◌∷◌, ◌++◌, Option, none, some,
  ◌==◌, if◌then◌else◌,
}
use fabric_sdk_go_gm.Common.Int.{ℤ, pos, negsuc}
use fabric_sdk_go_gm.Errors.{
  GoError, status_error, multi_error, wrapped, other_error, Errors, nil, cons,
}
use fabric_sdk_go_gm.Errors.Status.{Status, Texts, from_error}

-- The options that decide on a retry; the backoff is in Backoff.antt. `retries` counts the retries
-- so far.
pub record Handler : Type 0 where
  pub attempts : ℤ
  pub retryable_codes : List (ℕ × List ℕ)
  pub retries : ℕ

unfoldable pub has_code : ℕ → List ℕ → Bool
has_code c [] = false
has_code c (code ∷ codes) = c == code || has_code c codes

unfoldable pub is_retryable : ℕ → ℕ → List (ℕ × List ℕ) → Bool
unfolding has_code
is_retryable g c [] = false
is_retryable g c ((group, codes) ∷ rest) = (g == group && has_code c codes) || is_retryable g c rest

-- An int is never equal to a negative number of attempts.
abbrev pub is_exhausted : Handler → Bool
is_exhausted h = elim h.attempts [ pos n ↦ h.retries == n | negsuc n ↦ false ]

abbrev pub status_retryable : Option Status → List (ℕ × List ℕ) → Bool
status_retryable none codes = false
status_retryable (some s) codes = is_retryable s.group s.code codes

-- `Required`, without the sleep.
unfoldable pub required : Texts → Option GoError → Handler → Handler × Bool
required t err h =
    if is_exhausted h
    then (h, false)
    else if status_retryable (from_error t err) h.retryable_codes
    then (record h { retries = h.retries + 1 }, true)
    else (h, false)

-- The loop of `resolveRetry` stops at the first error that warrants a retry.
unfoldable pub resolve_errors : Texts → Errors → Handler → Handler × Bool
resolve_errors t nil h = (h, false)
resolve_errors t (cons e es) h =
    let (h1, retry) = required t (some e) h in
    let rest = resolve_errors t es h1 in if retry then (h1, true) else rest

abbrev pub errors_of : GoError → Errors
errors_of (multi_error es) = es
errors_of (status_error g c m d) = cons (status_error g c m d) nil
errors_of (wrapped m e) = cons (wrapped m e) nil
errors_of (other_error m) = cons (other_error m) nil

unfoldable pub resolve_retry : Texts → GoError → Handler → Handler × Bool
resolve_retry t err h = resolve_errors t (errors_of err) h

pub data Result (A : Type 0) : Type 0 where
  ok : A → Result A
  err : GoError → Result A

-- What `Invoke` leaves: the result, the handler, and the errors that were retried, for each of
-- which `beforeRetry` was called.
pub record Invoked (A : Type 0) : Type 0 where
  pub result : Result A
  pub handler : Handler
  pub retried : List GoError

-- The loop of `Invoke`. `attempt n` is what the n-th call of the invocation returns; `n` counts the
-- calls so far. `none` means that the fuel ran out.
unfoldable pub invoke : {A : Type 0} → Texts → (ℕ → Result A) → ℕ → ℕ → Handler → Option (Invoked A)
invoke t attempt zero n h = none
invoke t attempt (suc fuel) n h = elim (attempt n) [
  | ok a ↦ some (record { result = ok a; handler = h; retried = [] })
  | err e ↦
      let (h1, retry) = resolve_retry t e h in
      elim retry [
        | false ↦ some (record { result = err e; handler = h1; retried = [] })
        | true ↦ elim (invoke t attempt fuel (suc n) h1) [
          | none ↦ none
          | some r ↦ some (record r { retried = e ∷ r.retried })
        ]
      ]
]
