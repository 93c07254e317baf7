-- ===== src/Net/CircuitBreaker/Opens.antt =====
-- When a breaker opens, and how long it then refuses.
use dynaxis.Base.{ℕ, suc, ◌+◌, ◌^◌, ◌<◌, ◌≡◌, refl, true, List, [], ◌∷◌, arith, length, ◌==◌}
use dynaxis.Net.CircuitBreaker.{CircuitBreaker, configure, record_failure, initial}

-- The state after failures at the given times, in order.
unfoldable pub fail_at : CircuitBreaker → List ℕ → CircuitBreaker
fail_at c [] = c
fail_at c (t ∷ ts) = fail_at (record_failure c t).1 ts

-- A closed breaker with a count of failures below its threshold.
pub record IsClosed (c : CircuitBreaker) : Type 0 where
  pub on : c.enabled ≡ true
  pub shut : c.open_until_ms ≡ 0
  pub few : c.consecutive_failures < c.failure_threshold
  pub narrow : c.failure_threshold < 2 ^ 32

counts_failure :
    (c : CircuitBreaker) (t : ℕ)
    → IsClosed c
    → (record_failure c t).0 ≡ (suc c.consecutive_failures == c.failure_threshold)
unfolding record_failure
counts_failure c t h = ground (arith, h.on, h.shut, h.few, h.narrow)

record_failure-IsClosed :
    (c : CircuitBreaker) (t : ℕ)
    → IsClosed c
    → suc c.consecutive_failures < c.failure_threshold
    → IsClosed (record_failure c t).1
      × ((record_failure c t).1.consecutive_failures ≡ suc c.consecutive_failures)
      × ((record_failure c t).1.failure_threshold ≡ c.failure_threshold)
unfolding record_failure
record_failure-IsClosed c t h more = (
  record {
    on = ground (arith, h.on, h.shut, h.narrow);
    shut = ground (arith, h.on, h.shut, h.narrow);
    few = ground (arith, h.on, h.shut, h.narrow);
    narrow = ground (arith, h.on, h.shut, h.narrow);
  },
  ground (arith, h.on, h.shut, h.narrow),
  ground (arith, h.on, h.shut, h.narrow),
)

opens_from :
    (c : CircuitBreaker) (ts : List ℕ) (t : ℕ)
    → IsClosed c
    → c.consecutive_failures + length ts < c.failure_threshold
    → (record_failure (fail_at c ts) t).0
      ≡ (suc (c.consecutive_failures + length ts) == c.failure_threshold)
unfolding fail_at
opens_from c [] t h room = ground (arith, counts_failure c t h)
opens_from c (s ∷ ts) t h room =
    let next = record_failure-IsClosed c s h (omega arith) in
    let ih = opens_from (record_failure c s).1 ts t next.0 (omega (arith, next.1, next.2)) in
    ground (arith, ih, next.1, next.2)

-- A breaker that is configured with a threshold from 1 to 2 ^ 32 - 1 and switched on opens at the
-- failure that makes their number in a row equal to the threshold, and at none before.
pub record_failure-fail_at :
    (threshold window : ℕ) (ts : List ℕ) (t : ℕ)
    → 0 < threshold
    → threshold < 2 ^ 32
    → length ts < threshold
    → (record_failure (fail_at (configure initial true threshold window) ts) t).0
      ≡ (suc (length ts) == threshold)
unfolding configure
record_failure-fail_at threshold window ts t positive narrow few = ground (
  arith,
  opens_from (configure initial true threshold window) ts t
      (record { on = refl; shut = refl; few = omega arith; narrow = omega arith }) (omega arith),
)
