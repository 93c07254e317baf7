-- ===== src/Storage/Tests.antt =====
-- The theorems about retry delays at concrete inputs.
use dynaxis.Base.{ℕ, ◌/◌, ◌*◌, ◌≡◌, min, max, arith}
use dynaxis.Storage.Backoff.{
  RetryBackoffMode, RetryBackoffPolicy, retry_backoff_upper_bound_ms,
  retry_backoff_upper_bound_ms_lem,
}

abbrev jitter_policy : RetryBackoffPolicy
jitter_policy = record {
  mode = RetryBackoffMode.exponential_full_jitter;
  base_delay_ms = 100;
  max_delay_ms = 1000;
}

-- A generator that always draws the middle.
abbrev draw_middle : ℕ → ℕ → ℕ × ℕ
draw_middle bound rng = (bound / 2, rng)

retry_backoff_upper_bound_ms_example :
    retry_backoff_upper_bound_ms jitter_policy 3 ≡ min (max (max 1 100) 1000) (max 1 100 * 8)
retry_backoff_upper_bound_ms_example =
    retry_backoff_upper_bound_ms_lem jitter_policy 3 (omega arith) (omega arith)
