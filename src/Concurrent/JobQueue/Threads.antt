-- ===== src/Concurrent/JobQueue/Threads.antt =====
-- The threads that use one `JobQueue` (core/src/concurrent/job_queue.cpp), interleaved in any order.
-- Threads at the same place are alike, so that the state counts them. The mutex makes one step of
-- what a call does under it; a notification is a step of its own, after the mutex is given back, and
-- wakes any one thread that waits on the one condition variable, which may also wake up on its own.
use dynaxis.Base.{ℕ, suc, ◌+◌, List, [], ◌∷◌, ◌++◌, if◌then◌else◌, ltb, ◌≡◌}
use dynaxis.Concurrent.JobQueue.{
  JobQueue, PushOutcome, PopOutcome, create, enqueued, push, try_push, pop, stop,
}

-- `accepted` and `taken` are the jobs that were ever queued and popped, in order.
pub record Threads : Type 0 where
  pub queue : JobQueue
  pub pushing : List ℕ
  pub push_waiting : List ℕ
  pub popping : ℕ
  pub pop_waiting : ℕ
  pub notifying : ℕ
  pub notifying_all : ℕ
  pub accepted : List ℕ
  pub taken : List ℕ

abbrev pub start : ℕ → Threads
start max_size = record {
  queue = create max_size;
  pushing = [];
  push_waiting = [];
  popping = 0;
  pop_waiting = 0;
  notifying = 0;
  notifying_all = 0;
  accepted = [];
  taken = [];
}

-- The push of a job, and the notification that is due then.
abbrev pub accept : Threads → ℕ → Threads
accept s job = record s {
  queue = enqueued s.queue job;
  notifying = suc s.notifying;
  accepted = s.accepted ++ job ∷ [];
}

unfoldable pub after_push : PushOutcome → Threads → ℕ → Threads
after_push PushOutcome.refused s job = s
after_push PushOutcome.waits s job = record s { push_waiting = job ∷ s.push_waiting }
after_push PushOutcome.queued s job = accept s job

unfoldable pub after_try_push : PushOutcome → Threads → ℕ → Threads
after_try_push PushOutcome.refused s job = s
after_try_push PushOutcome.waits s job = s
after_try_push PushOutcome.queued s job = accept s job

-- A pop notifies only when the queue is bounded.
unfoldable pub after_pop : PopOutcome → Threads → Threads
after_pop PopOutcome.waits s = record s { pop_waiting = suc s.pop_waiting }
after_pop PopOutcome.stopped s = s
after_pop (PopOutcome.popped job rest) s = record s {
  queue = record s.queue { jobs = rest };
  notifying = if ltb 0 s.queue.max_size then suc s.notifying else s.notifying;
  taken = s.taken ++ job ∷ [];
}

unfoldable pub after_stop : Threads → Threads
after_stop s = record s { queue = stop s.queue; notifying_all = suc s.notifying_all }

unfoldable pub wake_all : Threads → Threads
wake_all s = record s {
  pushing = s.push_waiting ++ s.pushing;
  push_waiting = [];
  popping = s.pop_waiting + s.popping;
  pop_waiting = 0;
}

abbrev pub wake_push : Threads → ℕ → List ℕ → Threads
wake_push s job others = record s { pushing = job ∷ s.pushing; push_waiting = others }

abbrev pub wake_pop : Threads → ℕ → Threads
wake_pop s others = record s { popping = suc s.popping; pop_waiting = others }

pub data Step (s : Threads) : Threads → Type 0 where
  call_push : (job : ℕ) → Step s (record s { pushing = job ∷ s.pushing })
  run_push :
      (xs ys : List ℕ) (job : ℕ)
      → s.pushing ≡ xs ++ job ∷ ys
      → Step s (after_push (push s.queue) (record s { pushing = xs ++ ys }) job)
  call_try_push : (job : ℕ) → Step s (after_try_push (try_push s.queue) s job)
  call_pop : Step s (record s { popping = suc s.popping })
  run_pop :
      (n : ℕ) → s.popping ≡ suc n → Step s (after_pop (pop s.queue) (record s { popping = n }))
  call_stop : Step s (after_stop s)
  notify_all :
      (n : ℕ) → s.notifying_all ≡ suc n → Step s (wake_all (record s { notifying_all = n }))
  -- a notification that nobody waits for
  notify_none :
      (n : ℕ)
      → s.notifying ≡ suc n
      → s.push_waiting ≡ []
      → s.pop_waiting ≡ 0
      → Step s (record s { notifying = n })
  notify_push :
      (n : ℕ) (xs ys : List ℕ) (job : ℕ)
      → s.notifying ≡ suc n
      → s.push_waiting ≡ xs ++ job ∷ ys
      → Step s (wake_push (record s { notifying = n }) job (xs ++ ys))
  notify_pop :
      (n others : ℕ)
      → s.notifying ≡ suc n
      → s.pop_waiting ≡ suc others
      → Step s (wake_pop (record s { notifying = n }) others)
  -- the wake-ups that nobody asked for
  spurious_push :
      (xs ys : List ℕ) (job : ℕ)
      → s.push_waiting ≡ xs ++ job ∷ ys
      → Step s (wake_push s job (xs ++ ys))
  spurious_pop : (others : ℕ) → s.pop_waiting ≡ suc others → Step s (wake_pop s others)

pub data Reach (max_size : ℕ) : Threads → Type 0 where
  begin : Reach max_size (start max_size)
  later : {s t : Threads} → Reach max_size s → Step s t → Reach max_size t
