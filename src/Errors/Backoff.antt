-- ===== src/Errors/Backoff.antt =====
-- pkg/common/errors/retry/retry.go: `backoffPeriod`. A duration is an int64, and Go's float64 is an
-- argument: its values, its product and order, and the conversions from and to durations.
use fabric_sdk_go_gm.Common.{
  ℕ, zero, suc, ◌≤◌, ◌≡◌, inl, inr, Bool, true, false, Bool-cases, if◌then◌else◌,
}
use fabric_sdk_go_gm.Common.Int.{ℤ, pos}

pub record Float : Type 1 where
  pub F : Type 0
  pub times : F → F → F
  pub less : F → F → Bool
  pub of_duration : ℤ → F
  pub to_duration : F → ℤ

-- What Go says of float64: the numbers that are not negative (with the infinity), and the factors that
-- are positive and finite, so that no product is a NaN. A duration is exact if the conversions to
-- float64 and back give it again, as they do up to 2 ^ 53; a number that is not above it is converted
-- to a duration that is not above it.
pub record FloatLaws (float : Float) : Type 1 where
  pub NonNegative : float.F → Type 0
  pub IsFactor : float.F → Type 0
  pub less_irrefl : (a : float.F) → float.less a a ≡ false
  pub of_duration-NonNegative : (n : ℕ) → NonNegative (float.of_duration (pos n))
  pub times-NonNegative :
      (a f : float.F) → NonNegative a → IsFactor f → NonNegative (float.times a f)
  pub to_duration-le :
      (a : float.F) (n : ℕ)
      → NonNegative a
      → float.to_duration (float.of_duration (pos n)) ≡ pos n
      → float.less (float.of_duration (pos n)) a ≡ false
      → (k : ℕ) × (float.to_duration a ≡ pos k) × (k ≤ n)

module _ (float : Float) where
  open float use {F, times, less, of_duration, to_duration}

  -- The loop, with the retries that are left.
  unfoldable pub scale_backoff : F → F → ℕ → F → F
  scale_backoff factor limit zero backoff = backoff
  scale_backoff factor limit (suc j) backoff = elim (less backoff limit) [
    | false ↦ backoff
    | true ↦ scale_backoff factor limit j (times backoff factor)
  ]

  unfoldable pub backoff_period : ℤ → ℤ → F → ℕ → ℤ
  unfolding scale_backoff
  backoff_period initial limit factor retries =
      let backoff = scale_backoff factor (of_duration limit) retries (of_duration initial) in
      to_duration (if less (of_duration limit) backoff then of_duration limit else backoff)

  module _ (laws : FloatLaws float) where
    open laws use {
      NonNegative, IsFactor, less_irrefl, of_duration-NonNegative, times-NonNegative,
      to_duration-le,
    }

    scale_backoff-NonNegative :
        (factor limit : F) (retries : ℕ) (backoff : F)
        → IsFactor factor
        → NonNegative backoff
        → NonNegative (scale_backoff factor limit retries backoff)
    unfolding scale_backoff
    scale_backoff-NonNegative factor limit zero backoff f n = n
    scale_backoff-NonNegative factor limit (suc j) backoff f n =
        elim (Bool-cases (less backoff limit)) [
          | inl e ↦
              rw (e, scale_backoff)
                (scale_backoff-NonNegative factor limit j (times backoff factor) f
                  (times-NonNegative backoff factor n f))
          | inr e ↦ rw (e, scale_backoff) n
        ]

    -- If the initial and the maximal backoff are not negative, the conversion of the maximal backoff to
    -- float64 and back is exact, and the factor is positive and finite, then after any number of
    -- retries the backoff period is not negative and not above the maximal backoff.
    pub backoff_period_capped :
        (initial limit : ℕ) (factor : F) (retries : ℕ)
        → IsFactor factor
        → to_duration (of_duration (pos limit)) ≡ pos limit
        → (k : ℕ) × (backoff_period (pos initial) (pos limit) factor retries ≡ pos k) × (k ≤ limit)
    unfolding backoff_period
    backoff_period_capped initial limit factor retries f exact =
        let max = of_duration (pos limit) in
        let backoff = scale_backoff factor max retries (of_duration (pos initial)) in
        let scaled =
          scale_backoff-NonNegative factor max retries (of_duration (pos initial)) f
            (of_duration-NonNegative initial) in
        elim (Bool-cases (less max backoff)) [
          | inl e ↦
              rw (e, backoff_period)
                (to_duration-le max limit (of_duration-NonNegative limit) exact (less_irrefl max))
          | inr e ↦ rw (e, backoff_period) (to_duration-le backoff limit scaled exact e)
        ]
