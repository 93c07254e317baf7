-- ===== src/Concurrent/JobQueue/Prompt.antt =====
-- No wake-up is lost on a queue without a bound.
use dynaxis.Base.{
  ◌≡◌, refl, sym, ◌∙◌, ℕ, suc, ◌+◌, ◌≤◌, ◌<◌, Bool, true, false, List, [], ◌∷◌, length,
  length-append, arith, three_ways,
}
use dynaxis.Concurrent.JobQueue.{PushOutcome, push, try_push, pop, pop_from, stop, is_full}
use dynaxis.Concurrent.JobQueue.Threads.{
  Threads, Step, Reach, accept, after_push, after_try_push, after_pop, after_stop, wake_all,
}
use dynaxis.Concurrent.JobQueue.Order.{no_element}

-- While a thread waits for a job, there are no more jobs than threads that are about to notify or
-- are awake in a pop; and nobody waits in a push.
abbrev pub IsPrompt : Threads → Type 0
IsPrompt s =
    (s.queue.max_size ≡ 0)
    × (s.push_waiting ≡ [])
    × (0 < s.pop_waiting → length s.queue.jobs ≤ s.notifying + s.popping)

accept-IsPrompt : (s : Threads) (job : ℕ) → IsPrompt s → IsPrompt (accept s job)
accept-IsPrompt s job (size, nobody, prompt) =
    (size, nobody, λ waits. omega (arith, prompt waits, length-append s.queue.jobs (job ∷ [])))

after_push-IsPrompt :
    (s : Threads) (job : ℕ) → IsPrompt s → IsPrompt (after_push (push s.queue) s job)
unfolding push after_push is_full
after_push-IsPrompt s job h =
    three_ways (λ o. IsPrompt (after_push o s job)) s.queue.stopping (is_full s.queue)
      PushOutcome.refused PushOutcome.waits PushOutcome.queued (λ _. h)
      (λ _ full. ground (arith, full, h.0)) (λ _ _. accept-IsPrompt s job h)

after_try_push-IsPrompt :
    (s : Threads) (job : ℕ) → IsPrompt s → IsPrompt (after_try_push (try_push s.queue) s job)
unfolding try_push after_try_push
after_try_push-IsPrompt s job h =
    three_ways (λ o. IsPrompt (after_try_push o s job)) s.queue.stopping (is_full s.queue)
      PushOutcome.refused PushOutcome.refused PushOutcome.queued (λ _. h) (λ _ _. h)
      (λ _ _. accept-IsPrompt s job h)

-- `n` threads are left awake in a pop.
pop_from-IsPrompt :
    (s : Threads) (n : ℕ) (stopping : Bool) (jobs : List ℕ)
    → s.popping ≡ suc n
    → s.queue.jobs ≡ jobs
    → IsPrompt s
    → IsPrompt (after_pop (pop_from stopping jobs) (record s { popping = n }))
unfolding after_pop pop_from
pop_from-IsPrompt s n true [] awake same (size, nobody, prompt) =
    (size, nobody, λ waits. ground (arith, same))
pop_from-IsPrompt s n false [] awake same (size, nobody, prompt) =
    (size, nobody, λ waits. ground (arith, same))
pop_from-IsPrompt s n stopping (job ∷ rest) awake same (size, nobody, prompt) =
    (size, nobody, λ waits. ground (arith, same, awake, prompt waits, size))

IsPrompt-Step : {s t : Threads} → Step s t → IsPrompt s → IsPrompt t
unfolding after_stop stop wake_all pop
IsPrompt-Step (Step.call_push job) h = h
IsPrompt-Step (Step.run_push xs ys job _) h = after_push-IsPrompt _ job h
IsPrompt-Step (Step.call_try_push job) h = after_try_push-IsPrompt _ job h
IsPrompt-Step Step.call_pop h = (h.0, h.1, λ waits. omega (arith, h.2 waits))
IsPrompt-Step {s} (Step.run_pop n awake) h = pop_from-IsPrompt s n _ _ awake refl h
IsPrompt-Step Step.call_stop h = h
IsPrompt-Step (Step.notify_all n _) h = (h.0, refl, λ waits. absurd (omega (arith, waits)))
IsPrompt-Step (Step.notify_none n _ _ none_waits) h =
    (h.0, h.1, λ waits. absurd (omega (arith, waits, none_waits)))
IsPrompt-Step (Step.notify_push n xs ys job _ here) h =
    absurd (no_element xs ys job (sym here ∙ h.1))
IsPrompt-Step (Step.notify_pop n others due here) h =
    (h.0, h.1, λ waits. ground (arith, due, here, h.2))
IsPrompt-Step (Step.spurious_push xs ys job here) h = absurd (no_element xs ys job (sym here ∙ h.1))
IsPrompt-Step (Step.spurious_pop others here) h = (h.0, h.1, λ waits. ground (arith, here, h.2))

reach-IsPrompt : (s : Threads) → Reach 0 s → IsPrompt s
reach-IsPrompt s Reach.begin = (refl, refl, λ waits. omega (arith, waits))
reach-IsPrompt s (Reach.later r step) = IsPrompt-Step step (reach-IsPrompt _ r)

-- On a queue without a bound, in every interleaving, while a thread waits in a pop there are no more
-- jobs in the queue than threads that are about to notify or are awake in a pop, and nobody waits in
-- a push: no job lies there with every thread asleep.
pub no_wakeup_is_lost :
    (s : Threads)
    → Reach 0 s
    → 0 < s.pop_waiting
    → (length s.queue.jobs ≤ s.notifying + s.popping) × (s.push_waiting ≡ [])
no_wakeup_is_lost s r waits = let (_, nobody, prompt) = reach-IsPrompt s r in (prompt waits, nobody)
