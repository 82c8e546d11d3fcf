-- ===== src/Errors/Retry/Bounded.antt =====
-- How often an invocation is retried, and what it returns in the end.
use fabric_sdk_go_gm.Common.{
  ℕ, zero, suc, ◌+◌, ◌-◌, ◌≤◌, ◌<◌, ◌≡◌, refl, sym, ap, ◌∙◌, ◌⊎◌, inl, inr, Bool, true, false, List,
  [], ◌∷◌, Option, none, some, arith, length, ◌==◌, Bool-cases,
}
use fabric_sdk_go_gm.Common.Int.{ℤ, pos, negsuc}
use fabric_sdk_go_gm.Errors.{GoError, Errors, nil, cons}
use fabric_sdk_go_gm.Errors.Status.{Texts, from_error}
use fabric_sdk_go_gm.Errors.Retry.{
  Handler, is_exhausted, status_retryable, required, resolve_errors, resolve_retry, errors_of,
  Result, ok, err, Invoked, invoke,
}

-- A decision on a retry counts it, and is not made once the attempts are used up; otherwise the
-- handler is left as it was.
abbrev pub Decides : Handler → Handler × Bool → Type 0
Decides h (h1, retry) =
    ((retry ≡ true) × (h1 ≡ record h { retries = h.retries + 1 }) × (is_exhausted h ≡ false))
    ⊎ ((retry ≡ false) × (h1 ≡ h))

required-Decides : (t : Texts) (e : Option GoError) (h : Handler) → Decides h (required t e h)
unfolding required
required-Decides t e h = elim (Bool-cases (is_exhausted h)) [
  | inl x ↦ rw x (inr (refl, refl))
  | inr x ↦ rw x (elim (Bool-cases (status_retryable (from_error t e) h.retryable_codes)) [
    | inl y ↦ rw y (inl (refl, refl, refl))
    | inr y ↦ rw y (inr (refl, refl))
  ])
]

resolve_errors-Decides : (t : Texts) (es : Errors) (h : Handler) → Decides h (resolve_errors t es h)
unfolding resolve_errors
resolve_errors-Decides t nil h = inr (refl, refl)
resolve_errors-Decides t (cons e es) h = elim (required-Decides t (some e) h) [
  | inl (a, b, c) ↦ rw a (inl (refl, b, c))
  | inr (a, b) ↦ rw (a, b) (resolve_errors-Decides t es h)
]

not_exhausted-lt :
    (h : Handler) (n : ℕ)
    → h.attempts ≡ pos n
    → h.retries ≤ n
    → is_exhausted h ≡ false
    → h.retries < n
not_exhausted-lt h n e b x =
    let differ : (h.retries == n) ≡ false =
      sym (ap (λ (a : ℤ). elim a [ pos m ↦ h.retries == m | negsuc m ↦ false ]) e) ∙ x in
    ground (arith, differ)

Result-cases : {A : Type 0} (r : Result A) → ((a : A) × (r ≡ ok a)) ⊎ ((e : GoError) × (r ≡ err e))
Result-cases (ok a) = inl (a, refl)
Result-cases (err e) = inr (e, refl)

resolve_retry-Decides : (t : Texts) (e : GoError) (h : Handler) → Decides h (resolve_retry t e h)
unfolding resolve_retry
resolve_retry-Decides t e h = resolve_errors-Decides t (errors_of e) h

eq-add_zero : (a : ℕ) → a ≡ a + 0
eq-add_zero a = omega arith

add_one : (a b : ℕ) → a + 1 + b ≡ a + suc b
add_one a b = omega arith

-- The handler after `k` retries.
abbrev pub after_retries : Handler → ℕ → Handler
after_retries h k = record h { retries = h.retries + k }

-- The calls from the n-th on failed with the errors given, and the handler, which counts them, warranted
-- a retry of each.
abbrev pub AllRetried : {A : Type 0} → Texts → (ℕ → Result A) → ℕ → Handler → List GoError → Type 0
AllRetried t attempt n h [] = Unit
AllRetried t attempt n h (e ∷ es) =
    (attempt n ≡ err e)
    × ((resolve_retry t e h).1 ≡ true)
    × AllRetried t attempt (suc n) (after_retries h 1) es

-- What `Invoke` returns after `n` earlier calls. The calls before the last failed with the errors that
-- were retried, and their retry was warranted; the result is that of the last call, and an error is
-- returned only if no retry of it is warranted any more.
pub record Ends {A : Type 0} (t : Texts) (attempt : ℕ → Result A) (n limit : ℕ) (h : Handler)
    (r : Invoked A) : Type 0 where
  pub earlier : AllRetried t attempt n h r.retried
  pub last : r.result ≡ attempt (n + length r.retried)
  pub counted : r.handler ≡ after_retries h (length r.retried)
  pub bounded : h.retries + length r.retried ≤ limit
  pub final : (e : GoError) → r.result ≡ err e → (resolve_retry t e r.handler).1 ≡ false

module _ {A : Type 0} (t : Texts) (attempt : ℕ → Result A) (limit : ℕ) where
  invoke_step :
      (fuel n : ℕ) (h h1 : Handler) (e : GoError)
      → attempt n ≡ err e
      → (resolve_retry t e h).1 ≡ true
      → (resolve_retry t e h).0 ≡ h1
      → invoke t attempt (suc fuel) n h ≡ elim (invoke t attempt fuel (suc n) h1) [
        | none ↦ none
        | some r ↦ some (record r { retried = e ∷ r.retried })
      ]
  unfolding invoke
  invoke_step fuel n h h1 e p q k = rw (p, invoke) (rw (q, invoke) (rw k))

  invoke_stop :
      (fuel n : ℕ) (h h1 : Handler) (e : GoError)
      → attempt n ≡ err e
      → (resolve_retry t e h).1 ≡ false
      → (resolve_retry t e h).0 ≡ h1
      → invoke t attempt (suc fuel) n h
        ≡ some (record { result = err e; handler = h1; retried = [] })
  unfolding invoke
  invoke_stop fuel n h h1 e p q k = rw (p, invoke) (rw (q, invoke) (rw k))

  invoke_ok :
      (fuel n : ℕ) (h : Handler) (a : A)
      → attempt n ≡ ok a
      → invoke t attempt (suc fuel) n h ≡ some (record { result = ok a; handler = h; retried = [] })
  unfolding invoke
  invoke_ok fuel n h a p = rw (p, invoke)

  -- If the attempts are limited to a number that the retries do not exceed, and the fuel is more than
  -- the retries that are left, the loop ends. The calls before the last failed with the errors that
  -- were retried, each with a retry that was warranted; the result is that of the last call, the
  -- handler counts the retries, which stay within the limit, and an error is returned only if no retry
  -- of it is warranted any more.
  pub invoke-Ends :
      (fuel n : ℕ) (h : Handler)
      → h.attempts ≡ pos limit
      → h.retries ≤ limit
      → limit - h.retries < fuel
      → (r : Invoked A) × (invoke t attempt fuel n h ≡ some r) × Ends t attempt n limit h r
  invoke-Ends zero n h a b f = absurd (omega arith)
  invoke-Ends (suc fuel) n h a b f = elim (Result-cases (attempt n)) [
    | inl (x, p) ↦ (
      record { result = ok x; handler = h; retried = [] },
      invoke_ok fuel n h x p,
      record {
        earlier = tt;
        last = sym p ∙ ap attempt (omega arith);
        counted = λ i. record h { retries = eq-add_zero h.retries i };
        bounded = omega arith;
        final = λ e q. cc;
      },
    )
    | inr (e, p) ↦ elim (resolve_retry-Decides t e h) [
      | inr (stop, same) ↦ (
        record { result = err e; handler = h; retried = [] },
        invoke_stop fuel n h h e p stop same,
        record {
          earlier = tt;
          last = sym p ∙ ap attempt (omega arith);
          counted = λ i. record h { retries = eq-add_zero h.retries i };
          bounded = omega arith;
          final = λ e' q. let same_error : e' ≡ e = cc in rw same_error stop;
        },
      )
      | inl (go, next, more) ↦
          let lt = not_exhausted-lt h limit a b more in
          let (r, q, ends) =
            invoke-Ends fuel (suc n) (after_retries h 1) a (omega arith) (omega arith) in
          (
            record r { retried = e ∷ r.retried },
            invoke_step fuel n h (after_retries h 1) e p go next ∙ rw q,
            record {
              earlier = (p, go, ends.earlier);
              last = ends.last ∙ ap attempt (omega arith);
              counted =
                  ends.counted
                  ∙ (λ i. record h { retries = add_one h.retries (length r.retried) i });
              bounded = omega (arith, ends.bounded);
              final = ends.final;
            },
          )
    ]
  ]
