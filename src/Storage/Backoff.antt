-- ===== src/Storage/Backoff.antt =====
-- core/include/server/core/storage_execution/retry_backoff.hpp: how long to wait before a retry.
use native.Mathlib.Nat.{le-div_iff_mul-le, mul_comm}
use dynaxis.Base.{
  Bool-cases, ltb→lt, ℕ, ◌-◌, ◌*◌, ◌/◌, ◌^◌, ◌≤◌, ◌<◌, ◌≡◌, refl, ◌⊎◌, inl, inr, min, max, Bool,
  true, false, arith, ltb, ◌==◌, ◌||◌, if◌then◌else◌, u64,
}

pub data RetryBackoffMode : Type 0 where
  linear exponential_full_jitter : RetryBackoffMode

abbrev pub is_linear : RetryBackoffMode → Bool
is_linear RetryBackoffMode.linear = true
is_linear RetryBackoffMode.exponential_full_jitter = false

pub record RetryBackoffPolicy : Type 0 where
  pub mode : RetryBackoffMode
  pub base_delay_ms : ℕ
  pub max_delay_ms : ℕ

abbrev max64 : ℕ
max64 = 2 ^ 64 - 1

-- `min(max_delay, base * factor)` behind the guard that both modes have against overflow.
unfoldable pub scaled_delay : ℕ → ℕ → ℕ → ℕ
scaled_delay base_delay max_delay factor =
    if ltb (max64 / base_delay) factor then max_delay else min max_delay (u64 (base_delay * factor))

unfoldable pub retry_backoff_upper_bound_ms : RetryBackoffPolicy → ℕ → ℕ
retry_backoff_upper_bound_ms policy attempt =
    let base_delay = if policy.base_delay_ms == 0 then 1 else policy.base_delay_ms in
    let max_delay = max base_delay policy.max_delay_ms in
    if is_linear policy.mode
    then (if attempt == 0 then 0 else scaled_delay base_delay max_delay attempt)
    else scaled_delay base_delay max_delay (2 ^ min attempt 16)

-- The distribution of the standard library draws from 0 to a bound, with the state of a generator.
module _ {R : Type 0} (uniform : ℕ → R → ℕ × R) where
  unfoldable pub sample_retry_backoff_delay_ms : RetryBackoffPolicy → ℕ → R → ℕ × R
  unfolding retry_backoff_upper_bound_ms
  sample_retry_backoff_delay_ms policy attempt rng =
      let upper_bound = retry_backoff_upper_bound_ms policy attempt in
      if upper_bound == 0 || is_linear policy.mode
      then (upper_bound, rng)
      else uniform upper_bound rng

scaled_delay_lem :
    (base_delay max_delay factor : ℕ)
    → 0 < base_delay
    → max_delay < 2 ^ 64
    → scaled_delay base_delay max_delay factor ≡ min max_delay (base_delay * factor)
unfolding scaled_delay
scaled_delay_lem base_delay max_delay factor positive narrow =
    let guard = le-div_iff_mul-le {k = base_delay} {x = factor} {y = max64} positive in
    elim (Bool-cases (ltb (max64 / base_delay) factor)) [
      | inl e ↦ ground (arith, e, ltb→lt _ _ e, mul_comm base_delay factor, guard.1)
      | inr e ↦ ground (arith, e, mul_comm base_delay factor, guard.0)
    ]

mode_cases :
    (m : RetryBackoffMode)
    → (m ≡ RetryBackoffMode.linear) ⊎ (m ≡ RetryBackoffMode.exponential_full_jitter)
mode_cases RetryBackoffMode.linear = inl refl
mode_cases RetryBackoffMode.exponential_full_jitter = inr refl

-- The factor that an attempt multiplies the base delay by.
abbrev pub factor : RetryBackoffMode → ℕ → ℕ
factor RetryBackoffMode.linear attempt = attempt
factor RetryBackoffMode.exponential_full_jitter attempt = 2 ^ min attempt 16

-- For delays of 64 bits, the upper bound of a delay is the base delay, at least 1, times the factor
-- of the attempt, computed without overflow and cut at the largest delay or, if that is more, at
-- the base delay.
pub retry_backoff_upper_bound_ms_lem :
    (policy : RetryBackoffPolicy) (attempt : ℕ)
    → policy.base_delay_ms < 2 ^ 64
    → policy.max_delay_ms < 2 ^ 64
    → retry_backoff_upper_bound_ms policy attempt
      ≡ min
          (max (max 1 policy.base_delay_ms) policy.max_delay_ms)
          (max 1 policy.base_delay_ms * factor policy.mode attempt)
unfolding retry_backoff_upper_bound_ms
retry_backoff_upper_bound_ms_lem policy attempt base_narrow max_narrow =
    elim (mode_cases policy.mode) [
      | inl e ↦ rw e (ground (arith, clamped attempt, one_lower))
      | inr e ↦ rw e (ground (arith, clamped (2 ^ min attempt 16)))
    ]
  where
    clamped :
        (f : ℕ)
        → scaled_delay
            (max 1 policy.base_delay_ms)
            (max (max 1 policy.base_delay_ms) policy.max_delay_ms)
            f
          ≡ min
              (max (max 1 policy.base_delay_ms) policy.max_delay_ms)
              (max 1 policy.base_delay_ms * f)
    clamped f = scaled_delay_lem _ _ f (omega arith) (omega arith)

    one_lower :
        (if policy.base_delay_ms == 0 then 1 else policy.base_delay_ms) ≡ max 1 policy.base_delay_ms
    one_lower = ground arith

-- Whatever is drawn, a delay is at most the upper bound and so at most the largest delay, or the
-- base delay if that is more, for delays of 64 bits and if the distribution draws no number above
-- the bound it is given.
pub sample_retry_backoff_delay_ms-le :
    {R : Type 0} (uniform : ℕ → R → ℕ × R)
    → ((bound : ℕ) (rng : R) → (uniform bound rng).0 ≤ bound)
    → (policy : RetryBackoffPolicy) (attempt : ℕ) (rng : R) → policy.base_delay_ms < 2 ^ 64
    → policy.max_delay_ms < 2 ^ 64
    → ((sample_retry_backoff_delay_ms uniform policy attempt rng).0
        ≤ retry_backoff_upper_bound_ms policy attempt)
      × ((sample_retry_backoff_delay_ms uniform policy attempt rng).0
          ≤ max (max 1 policy.base_delay_ms) policy.max_delay_ms)
unfolding sample_retry_backoff_delay_ms
sample_retry_backoff_delay_ms-le uniform bounded policy attempt rng base_narrow max_narrow = (
  ground (arith, drawn),
  ground (arith, drawn, retry_backoff_upper_bound_ms_lem policy attempt base_narrow max_narrow),
)
  where
    drawn :
        (uniform (retry_backoff_upper_bound_ms policy attempt) rng).0
        ≤ retry_backoff_upper_bound_ms policy attempt
    drawn = bounded (retry_backoff_upper_bound_ms policy attempt) rng
