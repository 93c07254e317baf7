-- ===== src/Concurrent/Tests.antt =====
-- The theorem about canceled tasks at a concrete scheduler.
use dynaxis.Base.{◌≡◌, refl, true, false, none, some, [], ◌∷◌, arith, find_id, pos}
use dynaxis.Concurrent.Scheduler.{
  Environment, TaskScheduler, TaskRecord, RepeatDecision, Call, create, steps, do_cancel,
}
use dynaxis.Concurrent.Scheduler.Poll.{run_all}
use dynaxis.Concurrent.Scheduler.Canceled.{count}
use dynaxis.Concurrent.Scheduler.Polled.{Use, use_all, count-use_all-do_cancel}

-- Every callable reschedules the first task when it runs.
abbrev restless : Environment
restless = record {
  clock = λ n. n;
  draw = λ n cap. 0;
  exceeds_one = λ m. false;
  scaled = λ m d. pos d;
  one_shot = λ c n. Call.reschedule 1 (pos 0) ∷ [];
  repeat = λ c context. (RepeatDecision.go_on, Call.reschedule 1 (pos 0) ∷ []);
  is_valid = λ v n. (true, []);
  is_repeat_valid = λ v context. (true, []);
}

abbrev task : TaskRecord
task = record {
  id = 1;
  group = 0;
  callable = 7;
  validator = none;
  repeat_policy = record {
    interval = pos 10;
    max_interval = pos 0;
    backoff_multiplier = 0;
    jitter = pos 0;
  };
  repeat_context = record {
    run_count = 2;
    validator_skip_count = 0;
    first_due = 0;
    last_due = 10;
    current_interval = 10;
  };
  repeating = true;
  canceled = false;
  generation = 2;
}

-- The task has run twice, and is ready once more.
abbrev scheduler : TaskScheduler
scheduler = record create {
  records = (0, task) ∷ [];
  next_place = 1;
  tasks = (1, 0) ∷ [];
  ready = record { place = 0; generation = 2 } ∷ [];
  next_task_id = 2;
  executed = 0 ∷ 0 ∷ [];
}

led : find_id scheduler.tasks 1 ≡ some 0
unfolding find_id
led = refl

there : find_id scheduler.records 0 ≡ some task
unfolding find_id
there = refl

count-use_all-do_cancel_example :
    ((do_cancel scheduler 1).0 ≡ true)
    × (count
          (use_all restless
            (run_all restless
              (steps restless (do_cancel scheduler 1).1 (Call.reschedule 1 (pos 0) ∷ []))
              (record { place = 0; generation = 2 } ∷ []))
            (Use.polls 8 ∷ [])).executed
          0
        ≡ 2)
count-use_all-do_cancel_example =
    count-use_all-do_cancel restless scheduler 1 0 task (Call.reschedule 1 (pos 0) ∷ [])
      (record { place = 0; generation = 2 } ∷ []) (Use.polls 8 ∷ []) (omega arith) refl led there
      (omega arith)
