-- ===== src/Realtime/FixedStep.antt =====
-- core/src/realtime/runtime.cpp: `FixedStepDriver`, which turns elapsed time into ticks. Durations are
-- nanoseconds, the ones passed in may be negative; the accumulator never is, and its sum with an
-- elapsed time is taken to fit 64 bits.
pub mod Accounts
use dynaxis.Base.{
  ℕ, suc, zero, ◌+◌, ◌-◌, ◌*◌, ◌/◌, ◌≤◌, ◌<◌, ◌≡◌, refl, Bool, true, false, ◌&&◌, ◌⊎◌, List, [],
  ◌∷◌, arith, ltb, leb, ◌==◌, if◌then◌else◌, ℤ, pos, above, leb_ℤ, two_ways, All, Bool-cases, inl,
  inr, ap, subst, sym, ◌∙◌,
}

pub record FixedStepDriver : Type 0 where
  pub step_duration : ℕ
  pub accumulator : ℕ
  pub max_catch_up_steps : ℕ

abbrev at_least_one : ℕ → ℕ
at_least_one n = if ltb 1 n then n else 1

unfoldable pub create : ℕ → ℕ → FixedStepDriver
create tick_rate_hz max_catch_up_steps = record {
  step_duration = 1000000000 / at_least_one tick_rate_hz;
  accumulator = 0;
  max_catch_up_steps = at_least_one max_catch_up_steps;
}

abbrev pub clear : FixedStepDriver → FixedStepDriver
clear d = record d { accumulator = 0 }

abbrev pub goes_on : FixedStepDriver → ℕ → Bool
goes_on d steps = leb d.step_duration d.accumulator && ltb steps d.max_catch_up_steps

-- The loop, with fuel.
unfoldable pub drain : ℕ → FixedStepDriver → ℕ → ℕ × FixedStepDriver
drain zero d steps = (steps, d)
drain (suc fuel) d steps =
    let rest =
      drain fuel (record d { accumulator = d.accumulator - d.step_duration }) (steps + 1) in
    if goes_on d steps then rest else (steps, d)

abbrev pub gather : FixedStepDriver → ℕ → FixedStepDriver
gather d elapsed =
    let total = d.accumulator + elapsed in
    let max_accumulator = d.step_duration * d.max_catch_up_steps in
    record d { accumulator = if ltb max_accumulator total then max_accumulator else total }

-- Each turn counts a step, so as many turns as steps may be caught up are enough.
unfoldable pub consume_elapsed : FixedStepDriver → ℤ → ℕ × FixedStepDriver
consume_elapsed d elapsed =
    if leb_ℤ elapsed (pos 0)
    then (0, d)
    else drain d.max_catch_up_steps (gather d (above elapsed)) 0
