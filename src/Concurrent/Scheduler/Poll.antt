-- ===== src/Concurrent/Scheduler/Poll.antt =====
-- `TaskScheduler::poll`. Callables and validators run while no lock is held, and may call the
-- scheduler; here they do so one call after another, and other threads call between polls. None
-- polls from within a poll.
use dynaxis.Base.{
  ℕ, ◌+◌, Bool, true, false, not, ◌&&◌, Option, none, some, List, [], ◌∷◌, ◌++◌, leb, ◌==◌,
  if◌then◌else◌, min, find_id, erase_id, pos, above, ltb_ℤ, take, drop,
}
use dynaxis.Concurrent.Scheduler.{
  Environment, TaskScheduler, TaskRecord, ReadyTask, DelayedTask, RepeatDecision, RepeatContext,
  Call, change, apply_jitter, requeue, steps, read_clock,
}

unfoldable pub next_repeat_delay : Environment → TaskScheduler → TaskRecord → ℕ × TaskScheduler
next_repeat_delay env s r =
    let policy = r.repeat_policy in
    let current = r.repeat_context.current_interval in
    let delay = if current == 0 then above policy.interval else current in
    let scaled = above (env.scaled policy.backoff_multiplier delay) in
    let capped =
      if ltb_ℤ (pos 0) policy.max_interval
      then min scaled (above policy.max_interval)
      else scaled in
    apply_jitter env s
      (if env.exceeds_one policy.backoff_multiplier then pos capped else policy.interval)
      policy.jitter

-- Whether a queue entry is the record's current one.
abbrev pub is_current : ℕ → Option TaskRecord → Bool
is_current generation none = false
is_current generation (some r) = not r.canceled && generation == r.generation

-- The first loop of `collect_ready`: the tasks that are due become ready.
unfoldable pub promote : TaskScheduler → ℕ → List DelayedTask → TaskScheduler
promote s now [] = record s { delayed = [] }
promote s now (d ∷ ds) =
    let entry : ReadyTask = record { place = d.place; generation = d.generation } in
    let s1 =
      if is_current d.generation (find_id s.records d.place)
      then record s { ready = s.ready ++ entry ∷ [] }
      else s in
    let rest = promote s1 now ds in if leb d.due now then rest else record s { delayed = d ∷ ds }

-- The second loop takes at most `max_tasks`.
unfoldable pub collect_ready : Environment → TaskScheduler → ℕ → List ReadyTask × TaskScheduler
collect_ready env s max_tasks =
    let promoted = promote (read_clock s) (env.clock s.readings) s.delayed in
    (take max_tasks promoted.ready, record promoted { ready = drop max_tasks promoted.ready })

abbrev pub done : TaskRecord → TaskRecord
done r = record r { canceled = true }

-- `tasks_.erase(record->id)` and `canceled = true`.
unfoldable pub finish : TaskScheduler → ℕ → ℕ → TaskScheduler
finish s place id = record (change s place done) { tasks = erase_id s.tasks id }

-- The validator's answer, and what it calls of the scheduler.
abbrev pub validated : Environment → TaskScheduler → TaskRecord → Bool × List Call
validated env s r = elim r.validator [
  | none ↦ (true, [])
  | some v ↦
      if r.repeating then env.is_repeat_valid v r.repeat_context else env.is_valid v s.readings
]

abbrev pub count_run : RepeatContext → RepeatContext
count_run c = record c { run_count = c.run_count + 1 }

abbrev pub count_skip : RepeatContext → RepeatContext
count_skip c = record c { validator_skip_count = c.validator_skip_count + 1 }

-- The end of a repeated task's turn, on the record as it is then.
abbrev pub again :
    Environment
    → TaskScheduler
    → ℕ
    → (RepeatContext → RepeatContext)
    → Option TaskRecord
    → TaskScheduler
again env s place count none = s
again env s place count (some r) =
    let counted = record r { repeat_context = count r.repeat_context } in
    if r.canceled
    then s
    else requeue env (next_repeat_delay env s counted) place r
        (λ q. record q { repeat_context = count q.repeat_context })

abbrev pub mark_executed : TaskScheduler → ℕ → TaskScheduler
mark_executed s place = record s { executed = place ∷ s.executed }

unfoldable pub run_one_shot : Environment → TaskScheduler → ℕ → TaskRecord → TaskScheduler
run_one_shot env s place r =
    let (valid, asked) = validated env s r in
    let s1 = steps env s asked in
    let ran = steps env (mark_executed s1 place) (env.one_shot r.callable s1.readings) in
    if valid then finish ran place r.id else finish s1 place r.id

abbrev pub decided : Environment → TaskScheduler → ℕ → ℕ → RepeatDecision → TaskScheduler
decided env s place id RepeatDecision.stop = finish s place id
decided env s place id RepeatDecision.go_on = again env s place count_run (find_id s.records place)

unfoldable pub run_repeated : Environment → TaskScheduler → ℕ → TaskRecord → TaskScheduler
run_repeated env s place r =
    let (valid, asked) = validated env s r in
    let s1 = steps env s asked in
    let (decision, calls) = env.repeat r.callable r.repeat_context in
    if valid
    then decided env (steps env (mark_executed s1 place) calls) place r.id decision
    else again env s1 place count_skip (find_id s1.records place)

abbrev pub run_found : Environment → TaskScheduler → ReadyTask → Option TaskRecord → TaskScheduler
run_found env s entry none = s
run_found env s entry (some r) =
    if not (is_current entry.generation (some r))
    then s
    else if r.repeating
    then run_repeated env s entry.place r
    else run_one_shot env s entry.place r

-- The loop over what was collected.
unfoldable pub run_all : Environment → TaskScheduler → List ReadyTask → TaskScheduler
run_all env s [] = s
run_all env s (e ∷ es) = run_all env (run_found env s e (find_id s.records e.place)) es

unfoldable pub poll : Environment → TaskScheduler → ℕ → TaskScheduler
poll env s max_tasks =
    let (tasks, collected) = collect_ready env s max_tasks in
    if s.is_shutdown then s else run_all env collected tasks
