-- ===== src/Net/CircuitBreaker.antt =====
-- `CircuitBreaker` of core/include/server/core/net/resilience_controls.hpp. The mutex makes each
-- call one step.
pub mod Opens
pub mod Refuses
use dynaxis.Base.{
  ℕ, ◌+◌, max, Bool, true, false, not, ◌&&◌, ltb, leb, ◌==◌, if◌then◌else◌, u32, u64,
}

pub record CircuitBreaker : Type 0 where
  pub enabled : Bool
  pub failure_threshold : ℕ
  pub open_window_ms : ℕ
  pub consecutive_failures : ℕ
  pub open_until_ms : ℕ

abbrev pub initial : CircuitBreaker
initial = record {
  enabled = true;
  failure_threshold = 5;
  open_window_ms = 10000;
  consecutive_failures = 0;
  open_until_ms = 0;
}

unfoldable pub configure : CircuitBreaker → Bool → ℕ → ℕ → CircuitBreaker
configure c enabled failure_threshold open_window_ms = record c {
  enabled = enabled;
  failure_threshold = max 1 failure_threshold;
  open_window_ms = max 1 open_window_ms;
  consecutive_failures = 0;
  open_until_ms = 0;
}

abbrev pub closed : CircuitBreaker → CircuitBreaker
closed c = record c { open_until_ms = 0; consecutive_failures = 0 }

unfoldable pub allow : CircuitBreaker → ℕ → Bool × CircuitBreaker
allow c now =
    if not c.enabled
    then (true, c)
    else if c.open_until_ms == 0
    then (true, c)
    else if leb c.open_until_ms now
    then (true, closed c)
    else (false, c)

unfoldable pub record_failure : CircuitBreaker → ℕ → Bool × CircuitBreaker
record_failure c now =
    let ready = if not (c.open_until_ms == 0) && leb c.open_until_ms now then closed c else c in
    let counted = record ready { consecutive_failures = u32 (ready.consecutive_failures + 1) } in
    if not c.enabled
    then (false, c)
    else if not (c.open_until_ms == 0) && ltb now c.open_until_ms
    then (false, c)
    else if leb c.failure_threshold counted.consecutive_failures
    then (
      true,
      record counted { open_until_ms = u64 (now + c.open_window_ms); consecutive_failures = 0 },
    )
    else (false, counted)

unfoldable pub record_success : CircuitBreaker → CircuitBreaker
record_success c = if not c.enabled then c else closed c

unfoldable pub is_open : CircuitBreaker → ℕ → Bool × CircuitBreaker
is_open c now =
    if not c.enabled
    then (false, c)
    else if c.open_until_ms == 0
    then (false, c)
    else if leb c.open_until_ms now
    then (false, closed c)
    else (true, c)
