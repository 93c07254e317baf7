-- ===== src/Concurrent/JobQueue/Order.antt =====
-- What every interleaving keeps: the order and the number of the jobs, and who waits after a stop.
use dynaxis.Base.{
  ◌≡◌, refl, ap, sym, ◌∙◌, ℕ, ◌≤◌, ◌<◌, Bool, true, false, List, [], ◌∷◌, ◌++◌, append_assoc,
  length, length-append, arith, ◌⊎◌, inl, inr, three_ways,
}
use dynaxis.Concurrent.JobQueue.{PushOutcome, push, try_push, pop, pop_from, stop, is_full}
use dynaxis.Concurrent.JobQueue.Threads.{
  Threads, Step, Reach, accept, after_push, after_try_push, after_pop, after_stop, wake_all,
}

-- The jobs are taken in the order in which they were accepted, each once, and a bounded queue holds
-- no more than it may.
abbrev pub IsFifo : ℕ → Threads → Type 0
IsFifo max_size s =
    (s.queue.max_size ≡ max_size)
    × (s.accepted ≡ s.taken ++ s.queue.jobs)
    × (0 < max_size → length s.queue.jobs ≤ max_size)

-- After a stop nobody waits, or the notification of all is still to come.
abbrev pub IsWoken : Threads → Type 0
IsWoken s =
    s.queue.stopping ≡ true → (0 < s.notifying_all) ⊎ ((s.push_waiting ≡ []) × (s.pop_waiting ≡ 0))

eq_zero : (n : ℕ) → (n ≡ 0) ⊎ (0 < n)
eq_zero n = ground arith

module _ (max_size : ℕ) where
  accept-IsFifo :
      (s : Threads) (job : ℕ)
      → is_full s.queue ≡ false
      → IsFifo max_size s
      → IsFifo max_size (accept s job)
  unfolding is_full
  accept-IsFifo s job room (same, order, bound) = (
    same,
    ap (λ l. l ++ job ∷ []) order ∙ append_assoc s.taken s.queue.jobs (job ∷ []),
    λ limited. ground (arith, limited, same, length-append s.queue.jobs (job ∷ []), room),
  )

  after_push-IsFifo :
      (s : Threads) (job : ℕ)
      → IsFifo max_size s
      → IsFifo max_size (after_push (push s.queue) s job)
  unfolding push after_push
  after_push-IsFifo s job h =
      three_ways (λ o. IsFifo max_size (after_push o s job)) s.queue.stopping (is_full s.queue)
        PushOutcome.refused PushOutcome.waits PushOutcome.queued (λ _. h) (λ _ _. h)
        (λ _ room. accept-IsFifo s job room h)

  after_try_push-IsFifo :
      (s : Threads) (job : ℕ)
      → IsFifo max_size s
      → IsFifo max_size (after_try_push (try_push s.queue) s job)
  unfolding try_push after_try_push
  after_try_push-IsFifo s job h =
      three_ways (λ o. IsFifo max_size (after_try_push o s job)) s.queue.stopping (is_full s.queue)
        PushOutcome.refused PushOutcome.refused PushOutcome.queued (λ _. h) (λ _ _. h)
        (λ _ room. accept-IsFifo s job room h)

  pop_from-IsFifo :
      (s : Threads) (stopping : Bool) (jobs : List ℕ)
      → s.queue.jobs ≡ jobs
      → IsFifo max_size s
      → IsFifo max_size (after_pop (pop_from stopping jobs) s)
  unfolding after_pop pop_from
  pop_from-IsFifo s true [] same h = h
  pop_from-IsFifo s false [] same h = h
  pop_from-IsFifo s stopping (job ∷ rest) same (size, order, bound) = (
    size,
    order ∙ ap (λ l. s.taken ++ l) same ∙ sym (append_assoc s.taken (job ∷ []) rest),
    λ limited. ground (arith, bound limited, same),
  )

  IsFifo-Step : {s t : Threads} → Step s t → IsFifo max_size s → IsFifo max_size t
  unfolding after_stop stop wake_all pop
  IsFifo-Step (Step.call_push job) h = h
  IsFifo-Step (Step.run_push xs ys job _) h = after_push-IsFifo _ job h
  IsFifo-Step (Step.call_try_push job) h = after_try_push-IsFifo _ job h
  IsFifo-Step Step.call_pop h = h
  IsFifo-Step (Step.run_pop n _) h = pop_from-IsFifo _ _ _ refl h
  IsFifo-Step Step.call_stop h = h
  IsFifo-Step (Step.notify_all n _) h = h
  IsFifo-Step (Step.notify_none n _ _ _) h = h
  IsFifo-Step (Step.notify_push n xs ys job _ _) h = h
  IsFifo-Step (Step.notify_pop n others _ _) h = h
  IsFifo-Step (Step.spurious_push xs ys job _) h = h
  IsFifo-Step (Step.spurious_pop others _) h = h

  reach-IsFifo : (s : Threads) → Reach max_size s → IsFifo max_size s
  reach-IsFifo s Reach.begin = (refl, refl, λ _. omega arith)
  reach-IsFifo s (Reach.later r step) = IsFifo-Step step (reach-IsFifo _ r)

  -- In every interleaving of pushes, pops and stops, the jobs that were popped, followed by those in
  -- the queue, are the jobs that were accepted, in order; and a queue with a bound never holds more
  -- than it.
  pub first_in_first_out :
      (s : Threads)
      → Reach max_size s
      → (s.accepted ≡ s.taken ++ s.queue.jobs) × ((max_size ≡ 0) ⊎ (length s.queue.jobs ≤ max_size))
  first_in_first_out s r =
      let (_, order, bound) = reach-IsFifo s r in
      (
        order,
        elim (eq_zero max_size) [
          | inl unbounded ↦ inl unbounded
          | inr limited ↦ inr (bound limited)
        ],
      )

pub no_element : (xs ys : List ℕ) (job : ℕ) → ¬ (xs ++ job ∷ ys ≡ [])
no_element [] ys job h = cc
no_element (x ∷ xs) ys job h = cc

-- A thread that waits after a stop is still to be notified.
still_due :
    {A : Type 0} (s : Threads)
    → IsWoken s
    → ¬ ((s.push_waiting ≡ []) × (s.pop_waiting ≡ 0))
    → s.queue.stopping ≡ true
    → (0 < s.notifying_all) ⊎ A
still_due s h waits stopping = elim (h stopping) [
  | inl due ↦ inl due
  | inr none_waits ↦ absurd (waits none_waits)
]

after_push-IsWoken : (s : Threads) (job : ℕ) → IsWoken s → IsWoken (after_push (push s.queue) s job)
unfolding push after_push
after_push-IsWoken s job h =
    three_ways (λ o. IsWoken (after_push o s job)) s.queue.stopping (is_full s.queue)
      PushOutcome.refused PushOutcome.waits PushOutcome.queued (λ _. h)
      (λ open_queue _ stopping. ground (arith, open_queue, stopping)) (λ _ _. h)

after_try_push-IsWoken :
    (s : Threads) (job : ℕ) → IsWoken s → IsWoken (after_try_push (try_push s.queue) s job)
unfolding try_push after_try_push
after_try_push-IsWoken s job h =
    three_ways (λ o. IsWoken (after_try_push o s job)) s.queue.stopping (is_full s.queue)
      PushOutcome.refused PushOutcome.refused PushOutcome.queued (λ _. h) (λ _ _. h) (λ _ _. h)

pop_from-IsWoken :
    (s : Threads) (stopping : Bool) (jobs : List ℕ)
    → s.queue.stopping ≡ stopping
    → IsWoken s
    → IsWoken (after_pop (pop_from stopping jobs) s)
unfolding after_pop pop_from
pop_from-IsWoken s true [] same h = h
pop_from-IsWoken s false [] same h = λ stopping. ground (arith, same, stopping)
pop_from-IsWoken s stopping (job ∷ rest) same h = h

IsWoken-Step : {s t : Threads} → Step s t → IsWoken s → IsWoken t
unfolding after_stop stop wake_all pop
IsWoken-Step (Step.call_push job) h = h
IsWoken-Step (Step.run_push xs ys job _) h = after_push-IsWoken _ job h
IsWoken-Step (Step.call_try_push job) h = after_try_push-IsWoken _ job h
IsWoken-Step Step.call_pop h = h
IsWoken-Step (Step.run_pop n _) h = pop_from-IsWoken _ _ _ refl h
IsWoken-Step Step.call_stop h = λ _. inl (omega arith)
IsWoken-Step (Step.notify_all n _) h = λ _. inr (refl, refl)
IsWoken-Step (Step.notify_none n _ _ _) h = h
IsWoken-Step {s} (Step.notify_push n xs ys job _ here) h =
    still_due s h (λ empty. no_element xs ys job (sym here ∙ empty.0))
IsWoken-Step {s} (Step.notify_pop n others _ here) h =
    still_due s h (λ empty. omega (arith, here, empty.1))
IsWoken-Step {s} (Step.spurious_push xs ys job here) h =
    still_due s h (λ empty. no_element xs ys job (sym here ∙ empty.0))
IsWoken-Step {s} (Step.spurious_pop others here) h =
    still_due s h (λ empty. omega (arith, here, empty.1))

reach-IsWoken : (max_size : ℕ) (s : Threads) → Reach max_size s → IsWoken s
reach-IsWoken max_size s Reach.begin = λ stopping. ground (arith, stopping)
reach-IsWoken max_size s (Reach.later r step) = IsWoken-Step step (reach-IsWoken max_size _ r)

-- In every interleaving, when the queue is stopped and no notification of all is due, no thread
-- waits in a push or in a pop.
pub none_waits_after_stop :
    (max_size : ℕ) (s : Threads)
    → Reach max_size s
    → s.queue.stopping ≡ true
    → s.notifying_all ≡ 0
    → (s.push_waiting ≡ []) × (s.pop_waiting ≡ 0)
none_waits_after_stop max_size s r stopping done = elim (reach-IsWoken max_size s r stopping) [
  | inl due ↦ absurd (omega (arith, due, done))
  | inr nobody ↦ nobody
]
