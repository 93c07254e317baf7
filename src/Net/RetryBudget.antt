-- ===== src/Net/RetryBudget.antt =====
-- `RetryBudget` of core/include/server/core/net/resilience_controls.hpp: a bound on the retries of a
-- fixed time window. The mutex makes each call one step.
pub mod Rate
use dynaxis.Base.{ℕ, ◌+◌, ◌-◌, max, Bool, true, false, ltb, leb, ◌==◌, if◌then◌else◌, u32}

pub record RetryBudget : Type 0 where
  pub budget_per_window : ℕ
  pub window_ms : ℕ
  pub window_start_ms : ℕ
  pub used_in_window : ℕ

abbrev pub initial : RetryBudget
initial = record {
  budget_per_window = 0;
  window_ms = 60000;
  window_start_ms = 0;
  used_in_window = 0;
}

unfoldable pub configure : RetryBudget → ℕ → ℕ → RetryBudget
configure b budget_per_window window_ms = record b {
  budget_per_window = budget_per_window;
  window_ms = max 1 window_ms;
  window_start_ms = 0;
  used_in_window = 0;
}

unfoldable pub roll_window : RetryBudget → ℕ → RetryBudget
roll_window b now =
    let elapsed = now - b.window_start_ms in
    let rolled = record b { window_start_ms = now; used_in_window = 0 } in
    if b.window_start_ms == 0
    then record b { window_start_ms = now }
    else if ltb now b.window_start_ms
    then rolled
    else if leb b.window_ms elapsed
    then rolled
    else b

unfoldable pub consume : RetryBudget → ℕ → Bool × RetryBudget
unfolding roll_window
consume b now =
    let r = roll_window b now in
    if leb r.budget_per_window r.used_in_window
    then (false, r)
    else (true, record r { used_in_window = u32 (r.used_in_window + 1) })

unfoldable pub remaining : RetryBudget → ℕ → ℕ × RetryBudget
unfolding roll_window
remaining b now =
    let r = roll_window b now in
    if leb r.budget_per_window r.used_in_window
    then (0, r)
    else (r.budget_per_window - r.used_in_window, r)
