-- ===== src/Net/Tests.antt =====
-- The theorems about the overload controls at concrete inputs.
use dynaxis.Base.{◌≤◌, ◌*◌, ◌≡◌, refl, true, [], ◌∷◌, arith, leb, ltb}
use dynaxis.Net.RetryBudget as Budget
use dynaxis.Net.RetryBudget.Rate.{granted, granted-le}
use dynaxis.Net.CircuitBreaker.{CircuitBreaker, allow, is_open, record_failure}
use dynaxis.Net.CircuitBreaker.Refuses.{Call, run, allow-opened}

-- Two retries in each second, asked for five times within two seconds.
granted-le_example :
    granted (Budget.configure Budget.initial 2 1000) (10 ∷ 20 ∷ 30 ∷ 1500 ∷ 1600 ∷ []) ≤ 2 * 2
granted-le_example =
    granted-le 1 Budget.initial 2 1000 10 2000 (20 ∷ 30 ∷ 1500 ∷ 1600 ∷ []) (omega arith)
      (omega arith) (omega arith) (omega arith)

abbrev fragile : CircuitBreaker
fragile = record {
  enabled = true;
  failure_threshold = 1;
  open_window_ms = 500;
  consecutive_failures = 0;
  open_until_ms = 0;
}

fragile_trips : (record_failure fragile 12).0 ≡ true
unfolding record_failure
fragile_trips = refl

allow-opened_example :
    ((allow
        (run (record_failure fragile 12).1 (Call.allow_at 100 ∷ Call.failure_at 200 ∷ []))
        300).0
      ≡ leb 512 300)
    × ((is_open
          (run (record_failure fragile 12).1 (Call.allow_at 100 ∷ Call.failure_at 200 ∷ []))
          300).0
        ≡ ltb 300 512)
allow-opened_example =
    allow-opened fragile 12 300 (Call.allow_at 100 ∷ Call.failure_at 200 ∷ []) refl fragile_trips
      (omega arith) (omega arith) (omega arith)
