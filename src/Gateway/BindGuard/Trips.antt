-- ===== src/Gateway/BindGuard/Trips.antt =====
-- How many failures it takes to block an endpoint, and that endpoints do not affect each other.
use dynaxis.Base.{
  ℕ, suc, ◌+◌, ◌^◌, ◌≤◌, ◌<◌, ◌≡◌, refl, ap, ◌∙◌, String, ◌≢◌, List, [], ◌∷◌, none, some, arith,
  All, length, ◌==◌, find, find-put_same,
}
use dynaxis.Gateway.BindGuard.{
  Entry, new_entry, UdpBindAbuseGuard, entry_of, found_or_new, entry_failure, record_failure,
}
use dynaxis.Gateway.BindGuard.Blocks.{Call, key_of, step, run, step_other}

-- An endpoint that is not blocked, with failures in a window that began after the time 0.
record Counts (entry : Entry) (start n : ℕ) : Type 0 where
  positive : 0 < start
  started : entry.window_started_ms ≡ start
  failures : entry.failures_in_window ≡ n
  free : entry.blocked_until_ms ≡ 0

-- A time within the window that begins at `start`.
abbrev pub Within : UdpBindAbuseGuard → ℕ → ℕ → Type 0
Within g start t = (start ≤ t) × (t ≤ start + g.fail_window_ms)

entry_failure-trips :
    (g : UdpBindAbuseGuard) (entry : Entry) (start n t : ℕ)
    → Counts entry start n
    → Within g start t
    → suc n ≤ g.fail_limit
    → g.fail_limit < 2 ^ 32
    → (entry_failure g entry t).0 ≡ (suc n == g.fail_limit)
unfolding entry_failure
entry_failure-trips g entry start n t c w few narrow =
    ground (arith, c.positive, c.started, c.failures, c.free, w.0, w.1)

entry_failure-Counts :
    (g : UdpBindAbuseGuard) (entry : Entry) (start n t : ℕ)
    → Counts entry start n
    → Within g start t
    → suc n < g.fail_limit
    → g.fail_limit < 2 ^ 32
    → Counts (entry_failure g entry t).1 start (suc n)
unfolding entry_failure
entry_failure-Counts g entry start n t c w few narrow = record {
  positive = c.positive;
  started = ground (arith, c.positive, c.started, c.failures, c.free, w.0, w.1);
  failures = ground (arith, c.positive, c.started, c.failures, c.free, w.0, w.1);
  free = ground (arith, c.positive, c.started, c.failures, c.free, w.0, w.1);
}

first-Counts :
    (g : UdpBindAbuseGuard) (t : ℕ)
    → 0 < t
    → 1 < g.fail_limit
    → Counts (entry_failure g new_entry t).1 t 1
unfolding entry_failure
first-Counts g t positive few = record {
  positive = positive;
  started = ground arith;
  failures = ground arith;
  free = ground arith;
}

-- The guard after failures of one endpoint at the given times.
unfoldable pub fail_at : UdpBindAbuseGuard → String → List ℕ → UdpBindAbuseGuard
fail_at g key [] = g
fail_at g key (t ∷ ts) = fail_at (record_failure g key t).1 key ts

record_failure-entry :
    (g : UdpBindAbuseGuard) (key : String) (t : ℕ)
    → find (record_failure g key t).1.entries key ≡ some (entry_failure g (entry_of g key) t).1
unfolding record_failure
record_failure-entry g key t = find-put_same g.entries key _

-- Failures of an endpoint that has failed before in a window.
fails_from :
    (g : UdpBindAbuseGuard) (key : String) (entry : Entry) (start n t : ℕ) (ts : List ℕ)
    → entry_of g key ≡ entry
    → Counts entry start n
    → All (Within g start) ts
    → Within g start t
    → suc (n + length ts) ≤ g.fail_limit
    → g.fail_limit < 2 ^ 32
    → (record_failure (fail_at g key ts) key t).0 ≡ (suc (n + length ts) == g.fail_limit)
unfolding fail_at record_failure
fails_from g key entry start n t [] found c ws w few narrow =
    rw found (ground (arith, entry_failure-trips g entry start n t c w))
fails_from g key entry start n t (s ∷ ts) found c ws w few narrow =
    let next = entry_failure-Counts g entry start n s c ws.0 (omega arith) narrow in
    let found' =
      ap found_or_new (record_failure-entry g key s) ∙ ap (λ x. (entry_failure g x s).1) found in
    ground (
      arith,
      fails_from (record_failure g key s).1 key (entry_failure g entry s).1 start (suc n) t ts
          found' next ws.1 w (omega arith) narrow,
    )

-- An endpoint that a guard does not know, with a limit from 2 to 2 ^ 32 - 1, is blocked by the
-- failure that makes their number equal to the limit and by none before, if all fall in the window
-- that begins with the first, after the time 0.
pub record_failure-fail_at_limit :
    (g : UdpBindAbuseGuard) (key : String) (start t : ℕ) (ts : List ℕ)
    → find g.entries key ≡ none
    → 0 < start
    → All (Within g start) ts
    → Within g start t
    → suc (suc (length ts)) ≤ g.fail_limit
    → g.fail_limit < 2 ^ 32
    → (record_failure (fail_at g key (start ∷ ts)) key t).0
      ≡ (suc (suc (length ts)) == g.fail_limit)
unfolding fail_at record_failure
record_failure-fail_at_limit g key start t ts unknown positive ws w few narrow =
    let found =
      ap found_or_new (record_failure-entry g key start)
      ∙ ap (λ o. (entry_failure g (found_or_new o) start).1) unknown in
    ground (
      arith,
      fails_from (record_failure g key start).1 key (entry_failure g new_entry start).1 start 1 t ts
          found (first-Counts g start positive (omega arith)) ws w (omega arith) narrow,
    )

-- Calls of other endpoints change nothing for an endpoint: its entry is the same.
pub run_others :
    (g : UdpBindAbuseGuard) (calls : List Call) (key : String)
    → All (λ call. key_of call ≢ key) calls
    → find (run g calls).entries key ≡ find g.entries key
unfolding run
run_others g [] key h = refl
run_others g (call ∷ calls) key h =
    run_others (step g call) calls key h.1 ∙ step_other g call key h.0
