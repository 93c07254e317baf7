-- ===== src/Concurrent/JobQueue/Tests.antt =====
-- The theorems about the job queue at concrete interleavings.
use dynaxis.Base.{◌≡◌, refl, ◌+◌, ◌≤◌, [], ◌∷◌, ◌++◌, arith, length, false, ◌⊎◌, true}
use dynaxis.Concurrent.JobQueue.{push, pop, pop_from, is_full, stop}
use dynaxis.Concurrent.JobQueue.Threads.{
  Threads, Step, Reach, start, after_push, after_pop, after_stop, wake_all,
}
use dynaxis.Concurrent.JobQueue.Order.{first_in_first_out, none_waits_after_stop}
use dynaxis.Concurrent.JobQueue.Prompt.{no_wakeup_is_lost}

-- A queue for one job. Two threads wait for jobs; 7 is pushed, and 8 has to wait. The wake-up for 7
-- reaches a thread that pops it, and the wake-up for the room it leaves reaches the other one.
abbrev stuck : Threads
stuck = record {
  queue = record { max_size = 1; jobs = []; stopping = false };
  pushing = [];
  push_waiting = 8 ∷ [];
  popping = 0;
  pop_waiting = 1;
  notifying = 0;
  notifying_all = 0;
  accepted = 7 ∷ [];
  taken = 7 ∷ [];
}

two_wait : Reach 1 (record (start 1) { pop_waiting = 2 })
unfolding pop pop_from after_pop
two_wait =
    Reach.later
      (Reach.later (Reach.later (Reach.later Reach.begin Step.call_pop) (Step.run_pop 0 refl))
        Step.call_pop)
      (Step.run_pop 0 refl)

one_full : Reach 1 (record (start 1) {
  queue = record { max_size = 1; jobs = 7 ∷ []; stopping = false };
  push_waiting = 8 ∷ [];
  popping = 1;
  pop_waiting = 1;
  accepted = 7 ∷ [];
})
unfolding push after_push is_full
one_full =
    Reach.later
      (Reach.later
        (Reach.later
          (Reach.later (Reach.later two_wait (Step.call_push 7)) (Step.run_push [] [] 7 refl))
          (Step.notify_pop 0 1 refl refl))
        (Step.call_push 8))
      (Step.run_push [] [] 8 refl)

-- The queue is empty, 8 waits for room, a thread waits for a job, and no notification is due.
stuck_reached : Reach 1 stuck
unfolding pop pop_from after_pop
stuck_reached =
    Reach.later
      (Reach.later (Reach.later one_full (Step.run_pop 0 refl)) (Step.notify_pop 0 0 refl refl))
      (Step.run_pop 0 refl)

first_in_first_out_example :
    (stuck.accepted ≡ stuck.taken ++ [])
    × ((stuck.queue.max_size ≡ 0) ⊎ (length stuck.queue.jobs ≤ 1))
first_in_first_out_example = first_in_first_out 1 stuck stuck_reached

abbrev halted : Threads
halted = record stuck {
  queue = record { max_size = 1; jobs = []; stopping = true };
  pushing = 8 ∷ [];
  push_waiting = [];
  popping = 1;
  pop_waiting = 0;
}

halted_reached : Reach 1 halted
unfolding after_stop stop wake_all
halted_reached = Reach.later (Reach.later stuck_reached Step.call_stop) (Step.notify_all 0 refl)

none_waits_after_stop_example : (halted.push_waiting ≡ []) × (halted.pop_waiting ≡ 0)
none_waits_after_stop_example = none_waits_after_stop 1 halted halted_reached refl refl

abbrev waiting : Threads
waiting = record (start 0) {
  queue = record { max_size = 0; jobs = 7 ∷ []; stopping = false };
  pop_waiting = 1;
  notifying = 1;
  accepted = 7 ∷ [];
}

waiting_reached : Reach 0 waiting
unfolding pop pop_from after_pop push after_push is_full
waiting_reached =
    Reach.later
      (Reach.later (Reach.later (Reach.later Reach.begin Step.call_pop) (Step.run_pop 0 refl))
        (Step.call_push 7))
      (Step.run_push [] [] 7 refl)

no_wakeup_is_lost_example :
    (length waiting.queue.jobs ≤ waiting.notifying + waiting.popping) × (waiting.push_waiting ≡ [])
no_wakeup_is_lost_example = no_wakeup_is_lost waiting waiting_reached (omega arith)
