-- ===== src/Concurrent/Scheduler.antt =====
-- `TaskScheduler` of core/src/concurrent/task_scheduler.cpp: its state and every call but `poll`. The
-- records that the queues and the map share stand in a heap and are known by their place in it.
-- Times are nanoseconds. A callable is a number; what it does is the `Environment`'s.
pub mod Poll
pub mod Canceled
pub mod Polled
use dynaxis.Base.{
  ℕ, suc, ◌+◌, Bool, true, false, not, ◌&&◌, ◌||◌, Option, none, some, List, [], ◌∷◌, ◌++◌, ltb,
  leb, ◌==◌, if◌then◌else◌, min, u64, Table, option_map, find_id, put_id, erase_id, ℤ, pos, above,
  leb_ℤ, ltb_ℤ,
}

pub record RepeatContext : Type 0 where
  pub run_count : ℕ
  pub validator_skip_count : ℕ
  pub first_due : ℕ
  pub last_due : ℕ
  pub current_interval : ℕ

-- The multiplier is a `double`, known by a number.
pub record RepeatPolicy : Type 0 where
  pub interval : ℤ
  pub max_interval : ℤ
  pub backoff_multiplier : ℕ
  pub jitter : ℤ

pub data RepeatDecision : Type 0 where
  go_on stop : RepeatDecision

pub record TaskRecord : Type 0 where
  pub id : ℕ
  pub group : ℕ
  pub callable : ℕ
  pub validator : Option ℕ
  pub repeat_policy : RepeatPolicy
  pub repeat_context : RepeatContext
  pub repeating : Bool
  pub canceled : Bool
  pub generation : ℕ

-- What one of the scheduler's callers, or a callable that it runs, may call.
pub data Call : Type 0 where
  schedule_controlled : Option ℕ → ℤ → ℕ → Option ℕ → Call
  schedule_every_controlled : Option ℕ → RepeatPolicy → Option ℕ → ℕ → Call
  cancel : ℕ → Call
  cancel_group : ℕ → Call
  reschedule : ℕ → ℤ → Call
  update_repeat_policy : ℕ → RepeatPolicy → Call
  shutdown : Call

-- The clock's readings and the generator's draws in their order, products with a multiplier, and the
-- callables, the validators among them: what they call of their scheduler and answer, at the time of
-- their run.
pub record Environment : Type 0 where
  pub clock : ℕ → ℕ
  pub draw : ℕ → ℕ → ℕ
  pub exceeds_one : ℕ → Bool
  pub scaled : ℕ → ℕ → ℤ
  pub one_shot : ℕ → ℕ → List Call
  pub repeat : ℕ → RepeatContext → RepeatDecision × List Call
  pub is_valid : ℕ → ℕ → Bool × List Call
  pub is_repeat_valid : ℕ → RepeatContext → Bool × List Call

pub record ReadyTask : Type 0 where
  pub place : ℕ
  pub generation : ℕ

pub record DelayedTask : Type 0 where
  pub due : ℕ
  pub place : ℕ
  pub generation : ℕ

-- `next_place` is the heap's; `executed` lists what ran, the newest first.
pub record TaskScheduler : Type 0 where
  pub records : Table TaskRecord
  pub next_place : ℕ
  pub tasks : Table ℕ
  pub ready : List ReadyTask
  pub delayed : List DelayedTask
  pub is_shutdown : Bool
  pub next_task_id : ℕ
  pub readings : ℕ
  pub draws : ℕ
  pub executed : List ℕ

abbrev pub create : TaskScheduler
create = record {
  records = [];
  next_place = 0;
  tasks = [];
  ready = [];
  delayed = [];
  is_shutdown = false;
  next_task_id = 1;
  readings = 0;
  draws = 0;
  executed = [];
}

-- A change of one record in the heap.
abbrev pub change_found :
    Table TaskRecord → ℕ → (TaskRecord → TaskRecord) → Option TaskRecord → Table TaskRecord
change_found records place f none = records
change_found records place f (some r) = put_id records place (f r)

unfoldable pub change : TaskScheduler → ℕ → (TaskRecord → TaskRecord) → TaskScheduler
change s place f = record s { records = change_found s.records place f (find_id s.records place) }

-- The queue of delayed tasks, the earliest first, of one time in their order; the source leaves the
-- order of one time open.
unfoldable pub insert_delayed : DelayedTask → List DelayedTask → List DelayedTask
insert_delayed d [] = d ∷ []
insert_delayed d (e ∷ es) =
    let rest = insert_delayed d es in if ltb d.due e.due then d ∷ e ∷ es else e ∷ rest

unfoldable pub push_delayed : TaskScheduler → DelayedTask → TaskScheduler
push_delayed s d = record s { delayed = insert_delayed d s.delayed }

abbrev pub read_clock : TaskScheduler → TaskScheduler
read_clock s = record s { readings = s.readings + 1 }

unfoldable pub apply_jitter : Environment → TaskScheduler → ℤ → ℤ → ℕ × TaskScheduler
apply_jitter env s delay jitter =
    let cap = above jitter in
    if cap == 0
    then (above delay, s)
    else (above delay + env.draw s.draws cap, record s { draws = s.draws + 1 })

abbrev pub queue : TaskScheduler → ℤ → ℕ → ℕ → ℕ → TaskScheduler
queue s delay due place generation =
    if leb_ℤ delay (pos 0)
    then record s { ready = s.ready ++ record { place = place; generation = generation } ∷ [] }
    else push_delayed s (record { due = due; place = place; generation = generation })

abbrev no_policy : RepeatPolicy
no_policy = record {
  interval = pos 0;
  max_interval = pos 0;
  backoff_multiplier = 0;
  jitter = pos 0;
}

abbrev no_context : RepeatContext
no_context = record {
  run_count = 0;
  validator_skip_count = 0;
  first_due = 0;
  last_due = 0;
  current_interval = 0;
}

-- A new record in the heap and in the map.
abbrev pub enter : TaskScheduler → TaskRecord → TaskScheduler
enter s r = record s {
  records = put_id s.records s.next_place r;
  next_place = suc s.next_place;
  tasks = put_id s.tasks r.id s.next_place;
  next_task_id = u64 (s.next_task_id + 1);
}

-- The handle's task id, 0 for an empty handle.
unfoldable pub do_schedule :
    Environment → TaskScheduler → Option ℕ → ℤ → ℕ → Option ℕ → ℕ × TaskScheduler
do_schedule env s none delay group validator = (0, s)
do_schedule env s (some task) delay group validator =
    let r : TaskRecord = record {
      id = s.next_task_id;
      group = group;
      callable = task;
      validator = validator;
      repeat_policy = no_policy;
      repeat_context = no_context;
      repeating = false;
      canceled = false;
      generation = 0;
    } in
    let due = env.clock s.readings + above delay in
    if s.is_shutdown
    then (0, s)
    else (s.next_task_id, queue (enter (read_clock s) r) delay due s.next_place 0)

unfoldable pub do_schedule_every :
    Environment → TaskScheduler → Option ℕ → RepeatPolicy → Option ℕ → ℕ → ℕ × TaskScheduler
do_schedule_every env s none policy validator group = (0, s)
do_schedule_every env s (some task) policy validator group =
    let (delay, s1) = apply_jitter env s policy.interval policy.jitter in
    let due = env.clock s1.readings + delay in
    let r : TaskRecord = record {
      id = s.next_task_id;
      group = group;
      callable = task;
      validator = validator;
      repeat_policy = policy;
      repeat_context = record no_context {
        first_due = due;
        last_due = due;
        current_interval = delay;
      };
      repeating = true;
      canceled = false;
      generation = 0;
    } in
    if not (ltb_ℤ (pos 0) policy.interval) || s.is_shutdown then (0, s) else (
      s.next_task_id,
      push_delayed (enter (read_clock s1) r)
          (record { due = due; place = s1.next_place; generation = 0 }),
    )

abbrev pub stale : TaskRecord → TaskRecord
stale r = record r { canceled = true; generation = u64 (r.generation + 1) }

abbrev pub cancel_found : TaskScheduler → ℕ → Option ℕ → Bool × TaskScheduler
cancel_found s token none = (false, s)
cancel_found s token (some place) =
    (true, record (change s place stale) { tasks = erase_id s.tasks token })

unfoldable pub do_cancel : TaskScheduler → ℕ → Bool × TaskScheduler
do_cancel s token =
    if token == 0 || s.is_shutdown then (false, s) else cancel_found s token (find_id s.tasks token)

abbrev pub has_group : ℕ → Option TaskRecord → Bool
has_group group none = false
has_group group (some r) = r.group == group

-- The loop over the map.
unfoldable pub cancel_all : TaskScheduler → ℕ → Table ℕ → ℕ × TaskScheduler
cancel_all s group [] = (0, s)
cancel_all s group (e ∷ es) =
    let hit = has_group group (find_id s.records e.1) in
    let s1 = if hit then record (change s e.1 stale) { tasks = erase_id s.tasks e.0 } else s in
    let (n, s2) = cancel_all s1 group es in (if hit then n + 1 else n, s2)

unfoldable pub do_cancel_group : TaskScheduler → ℕ → ℕ × TaskScheduler
do_cancel_group s group = if group == 0 || s.is_shutdown then (0, s) else cancel_all s group s.tasks

-- The changes that `reschedule` makes to a record.
abbrev pub rescheduled : ℤ → ℕ → TaskRecord → TaskRecord
rescheduled delay due r =
    let moved = record r.repeat_context { current_interval = above delay; last_due = due } in
    record r {
      generation = u64 (r.generation + 1);
      repeat_context = if r.repeating then moved else r.repeat_context;
    }

abbrev pub record_at : TaskScheduler → Option ℕ → Option (ℕ × TaskRecord)
record_at s none = none
record_at s (some place) = option_map (λ r. (place, r)) (find_id s.records place)

abbrev pub reschedule_found :
    Environment → TaskScheduler → ℤ → Option (ℕ × TaskRecord) → Bool × TaskScheduler
reschedule_found env s delay none = (false, s)
reschedule_found env s delay (some (place, r)) =
    let due = env.clock s.readings + above delay in
    let moved = change (read_clock s) place (rescheduled delay due) in
    if r.canceled then (false, s) else (true, queue moved delay due place (u64 (r.generation + 1)))

unfoldable pub do_reschedule : Environment → TaskScheduler → ℕ → ℤ → Bool × TaskScheduler
do_reschedule env s token delay =
    if token == 0 || s.is_shutdown
    then (false, s)
    else reschedule_found env s delay (record_at s (find_id s.tasks token))

-- The next run of a repeated task after a delay: the end of `update_repeat_policy` and of `poll`.
abbrev pub next_run : ℕ → ℕ → TaskRecord → TaskRecord
next_run delay due r = record r {
  generation = u64 (r.generation + 1);
  repeat_context = record r.repeat_context { current_interval = delay; last_due = due };
}

unfoldable pub requeue :
    Environment → ℕ × TaskScheduler → ℕ → TaskRecord → (TaskRecord → TaskRecord) → TaskScheduler
requeue env (delay, s) place r f =
    let due = env.clock s.readings + delay in
    push_delayed (change (read_clock s) place (λ q. next_run delay due (f q)))
      (record { due = due; place = place; generation = u64 (r.generation + 1) })

abbrev pub update_found :
    Environment → TaskScheduler → RepeatPolicy → Option (ℕ × TaskRecord) → Bool × TaskScheduler
update_found env s policy none = (false, s)
update_found env s policy (some (place, r)) =
    if not r.repeating || r.canceled then (false, s) else (
      true,
      requeue env (apply_jitter env s policy.interval policy.jitter) place r
          (λ q. record q { repeat_policy = policy }),
    )

unfoldable pub do_update_repeat_policy :
    Environment → TaskScheduler → ℕ → RepeatPolicy → Bool × TaskScheduler
do_update_repeat_policy env s token policy =
    if token == 0 || (not (ltb_ℤ (pos 0) policy.interval) || s.is_shutdown)
    then (false, s)
    else update_found env s policy (record_at s (find_id s.tasks token))

unfoldable pub do_shutdown : TaskScheduler → TaskScheduler
do_shutdown s = record s { is_shutdown = true; tasks = []; ready = []; delayed = [] }

unfoldable pub step : Environment → TaskScheduler → Call → TaskScheduler
step env s (Call.schedule_controlled task delay group validator) =
    (do_schedule env s task delay group validator).1
step env s (Call.schedule_every_controlled task policy validator group) =
    (do_schedule_every env s task policy validator group).1
step env s (Call.cancel token) = (do_cancel s token).1
step env s (Call.cancel_group group) = (do_cancel_group s group).1
step env s (Call.reschedule token delay) = (do_reschedule env s token delay).1
step env s (Call.update_repeat_policy token policy) = (do_update_repeat_policy env s token policy).1
step env s Call.shutdown = if s.is_shutdown then s else do_shutdown s

unfoldable pub steps : Environment → TaskScheduler → List Call → TaskScheduler
steps env s [] = s
steps env s (call ∷ calls) = steps env (step env s call) calls
