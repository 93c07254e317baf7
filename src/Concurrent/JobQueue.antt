-- ===== src/Concurrent/JobQueue.antt =====
-- core/src/concurrent/job_queue.cpp: `JobQueue`. A job is a number, and an empty one is not modelled
-- further than that no call takes it. Each function here is what a call does under the mutex, from
-- where it takes the mutex, or wakes up, to where it gives the mutex back or waits.
pub mod Threads
pub mod Order
pub mod Prompt
pub mod Tests
use dynaxis.Base.{ℕ, Bool, true, false, List, [], ◌∷◌, ◌++◌, if◌then◌else◌, ltb, leb, ◌&&◌, length}

pub record JobQueue : Type 0 where
  pub max_size : ℕ
  pub jobs : List ℕ
  pub stopping : Bool

abbrev pub create : ℕ → JobQueue
create max_size = record { max_size = max_size; jobs = []; stopping = false }

unfoldable pub is_full : JobQueue → Bool
is_full q = ltb 0 q.max_size && leb q.max_size (length q.jobs)

abbrev pub enqueued : JobQueue → ℕ → JobQueue
enqueued q job = record q { jobs = q.jobs ++ job ∷ [] }

-- `refused` is the return without a push.
pub data PushOutcome : Type 0 where
  refused waits queued : PushOutcome

-- `Push`, at its begin and after each wake-up.
unfoldable pub push : JobQueue → PushOutcome
push q =
    if q.stopping
    then PushOutcome.refused
    else if is_full q
    then PushOutcome.waits
    else PushOutcome.queued

unfoldable pub try_push : JobQueue → PushOutcome
try_push q =
    if q.stopping
    then PushOutcome.refused
    else if is_full q
    then PushOutcome.refused
    else PushOutcome.queued

-- `stopped` is the return of nullptr.
pub data PopOutcome : Type 0 where
  waits stopped : PopOutcome
  popped : ℕ → List ℕ → PopOutcome

-- `Pop`, at its begin and after each wake-up.
unfoldable pub pop_from : Bool → List ℕ → PopOutcome
pop_from stopping [] = if stopping then PopOutcome.stopped else PopOutcome.waits
pop_from stopping (job ∷ rest) = PopOutcome.popped job rest

unfoldable pub pop : JobQueue → PopOutcome
pop q = pop_from q.stopping q.jobs

unfoldable pub stop : JobQueue → JobQueue
stop q = record q { stopping = true }
