-- ===== src/Realtime/FixedStep/Accounts.antt =====
-- The steps that a driver takes account for the time that has passed.
use dynaxis.Base.{ℕ, ◌+◌, ◌*◌, ◌≤◌, ◌<◌, ◌≡◌, List, [], ◌∷◌, ltb, if◌then◌else◌, pos}
use dynaxis.Realtime.FixedStep.{FixedStepDriver, consume_elapsed}

-- The steps taken and what is left of the time.
pub record Splits (step max total steps left : ℕ) : Type 0 where
  pub sum : steps * step + left ≡ total
  pub rest : left < step
  pub bound : steps ≤ max

abbrev pub Settles : FixedStepDriver → ℕ → ℕ × FixedStepDriver → Type 0
Settles d total (steps, after) =
    Splits d.step_duration d.max_catch_up_steps total steps after.accumulator

-- The time that counts: what is there and what is new, up to the time of all steps.
abbrev pub counted : FixedStepDriver → ℕ → ℕ
counted d elapsed =
    let total = d.accumulator + elapsed in
    let most = d.step_duration * d.max_catch_up_steps in if ltb most total then most else total

-- The steps over several calls, and the driver after them.
unfoldable pub consume_all : FixedStepDriver → List ℕ → ℕ × FixedStepDriver
consume_all d [] = (0, d)
consume_all d (elapsed ∷ rest) =
    let (steps, d1) = consume_elapsed d (pos elapsed) in
    let (more, d2) = consume_all d1 rest in (steps + more, d2)

abbrev pub sum : List ℕ → ℕ
sum [] = 0
sum (n ∷ ns) = n + sum ns

-- A call that does not reach the limit loses no time, and changes only the accumulator.
abbrev Keeps : FixedStepDriver → ℕ → ℕ × FixedStepDriver → Type 0
Keeps d elapsed (steps, after) =
    (steps * d.step_duration + after.accumulator ≡ d.accumulator + elapsed)
    × (after.accumulator < d.step_duration)
    × (after.step_duration ≡ d.step_duration)
    × (after.max_catch_up_steps ≡ d.max_catch_up_steps)
