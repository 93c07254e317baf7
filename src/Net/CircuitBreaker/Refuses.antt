-- ===== src/Net/CircuitBreaker/Refuses.antt =====
-- What an open breaker answers, whatever is asked of it in between.
use dynaxis.Base.{
  ℕ, ◌+◌, ◌^◌, ◌<◌, ◌≡◌, refl, ap, ◌∙◌, true, List, [], ◌∷◌, arith, All, ltb, leb, u64,
}
use dynaxis.Net.CircuitBreaker.{CircuitBreaker, allow, record_failure, record_success, is_open}

pub data Call : Type 0 where
  allow_at failure_at is_open_at : ℕ → Call
  success : Call

unfoldable pub step : CircuitBreaker → Call → CircuitBreaker
step c (Call.allow_at now) = (allow c now).1
step c (Call.failure_at now) = (record_failure c now).1
step c (Call.is_open_at now) = (is_open c now).1
step c Call.success = record_success c

unfoldable pub run : CircuitBreaker → List Call → CircuitBreaker
run c [] = c
run c (call ∷ calls) = run (step c call) calls

-- A call before the given time that does not report a success.
abbrev pub IsBefore : ℕ → Call → Type 0
IsBefore until (Call.allow_at now) = now < until
IsBefore until (Call.failure_at now) = now < until
IsBefore until (Call.is_open_at now) = now < until
IsBefore until Call.success = ⊥

module _ (c : CircuitBreaker) (on : c.enabled ≡ true) where
  step-before : (call : Call) → IsBefore c.open_until_ms call → step c call ≡ c
  unfolding step allow record_failure is_open
  step-before (Call.allow_at now) h = ground (arith, on)
  step-before (Call.failure_at now) h = ground (arith, on)
  step-before (Call.is_open_at now) h = ground (arith, on)
  step-before Call.success h = absurd h

  run-before : (calls : List Call) → All (IsBefore c.open_until_ms) calls → run c calls ≡ c
  unfolding run
  run-before [] h = refl
  run-before (call ∷ calls) h = rw (step-before call h.0) (run-before calls h.1)

  opened :
      (t : ℕ)
      → (record_failure c t).0 ≡ true
      → ((record_failure c t).1.enabled ≡ true)
        × ((record_failure c t).1.open_until_ms ≡ u64 (t + c.open_window_ms))
  unfolding record_failure
  opened t h = (ground (arith, on, h), ground (arith, on, h))

answers :
    (c : CircuitBreaker) (now : ℕ)
    → c.enabled ≡ true
    → 0 < c.open_until_ms
    → ((allow c now).0 ≡ leb c.open_until_ms now) × ((is_open c now).0 ≡ ltb now c.open_until_ms)
unfolding allow is_open
answers c now on until = (ground (arith, on), ground (arith, on))

-- After a failure at the time `t` that opens a breaker, calls before the end of its window that
-- report no success change nothing: `allow` then refuses exactly before `t + open_window_ms`, and
-- `is_open` says so, where that time fits 64 bits and is not 0.
pub allow-opened :
    (c : CircuitBreaker) (t now : ℕ) (calls : List Call)
    → c.enabled ≡ true
    → (record_failure c t).0 ≡ true
    → 0 < t + c.open_window_ms
    → t + c.open_window_ms < 2 ^ 64
    → All (IsBefore (t + c.open_window_ms)) calls
    → ((allow (run (record_failure c t).1 calls) now).0 ≡ leb (t + c.open_window_ms) now)
      × ((is_open (run (record_failure c t).1 calls) now).0 ≡ ltb now (t + c.open_window_ms))
allow-opened c t now calls on trips some_window fits before =
    let (on', until) = opened c on t trips in
    let until' : (record_failure c t).1.open_until_ms ≡ t + c.open_window_ms =
      omega (arith, until) in
    let whole : All (IsBefore (record_failure c t).1.open_until_ms) calls = rw until' before in
    let same = run-before (record_failure c t).1 on' calls whole in
    let found = answers (record_failure c t).1 now on' (omega arith) in
    rw same (found.0 ∙ ap (λ x. leb x now) until', found.1 ∙ ap (λ x. ltb now x) until')
