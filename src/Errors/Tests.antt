-- ===== src/Errors/Tests.antt =====
-- The theorems on pkg/common/errors at concrete inputs.
use fabric_sdk_go_gm.Common.{
  ℕ, ◌≤◌, ◌<◌, zero, suc, ◌≡◌, refl, false, [], ◌∷◌, some, arith, ltb, ◌*◌,
}
use fabric_sdk_go_gm.Common.Int.{pos, negsuc}
use fabric_sdk_go_gm.Errors.{GoError, status_error, other_error, nil}
use fabric_sdk_go_gm.Errors.Multi.{append}
use fabric_sdk_go_gm.Errors.Multi.Appending.{flatten, add, append-flatten}
use fabric_sdk_go_gm.Errors.Status.{Texts}
use fabric_sdk_go_gm.Errors.Retry.{Handler, Result, ok, err, Invoked, invoke}
use fabric_sdk_go_gm.Errors.Retry.Bounded.{Ends, invoke-Ends}
use fabric_sdk_go_gm.Errors.Backoff.{Float, FloatLaws, backoff_period, backoff_period_capped}

abbrev timeout : GoError
timeout = status_error 9 5 [] nil

abbrev refused : GoError
refused = other_error (1 ∷ [])

append-flatten_example :
    flatten (append (some timeout) (some refused)) ≡ add (flatten (some timeout)) (some refused)
append-flatten_example = append-flatten (some timeout) (some refused) (λ e. cc)

abbrev texts : Texts
texts = record { text_of = λ e. []; title = []; separator = []; cause = λ e. e }

abbrev handler : Handler
handler = record { attempts = pos 3; retryable_codes = (9, 5 ∷ []) ∷ []; retries = 0 }

-- Two calls time out, and the third succeeds.
abbrev attempt : ℕ → Result ℕ
attempt zero = err timeout
attempt (suc zero) = err timeout
attempt (suc (suc n)) = ok 8

invoke-Ends_example :
    (r : Invoked ℕ) × (invoke texts attempt 4 0 handler ≡ some r) × Ends texts attempt 0 3 handler r
invoke-Ends_example = invoke-Ends texts attempt 3 4 0 handler refl (omega arith) (omega arith)

-- Natural numbers in the place of the floating-point numbers.
abbrev naturals : Float
naturals = record {
  F = ℕ;
  times = λ a b. a * b;
  less = ltb;
  of_duration = λ d. elim d [ pos n ↦ n | negsuc n ↦ 0 ];
  to_duration = pos;
}

not_above : (a n : ℕ) → ltb n a ≡ false → a ≤ n
not_above a n h = ground (arith, h)

naturals-FloatLaws : FloatLaws naturals
naturals-FloatLaws = record {
  NonNegative = λ a. Unit;
  IsFactor = λ f. 0 < f;
  less_irrefl = λ a. ground arith;
  of_duration-NonNegative = λ n. tt;
  times-NonNegative = λ a f n h. tt;
  to_duration-le = λ a n _ _ h. (a, refl, not_above a n h);
}

backoff_period_capped_example :
    (k : ℕ) × (backoff_period naturals (pos 5) (pos 60) 2 9 ≡ pos k) × (k ≤ 60)
unfolding naturals-FloatLaws
backoff_period_capped_example =
    backoff_period_capped naturals naturals-FloatLaws 5 60 2 9 (omega arith) refl
