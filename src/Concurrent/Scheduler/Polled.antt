-- ===== src/Concurrent/Scheduler/Polled.antt =====
-- A record that is canceled never runs again, whatever is called and polled.
use dynaxis.Base.{
  ℕ, ◌<◌, ◌≡◌, refl, ap, ◌∙◌, sym, subst, Bool, true, false, not, ◌||◌, Option, none, some, List,
  [], ◌∷◌, ◌++◌, arith, leb, ◌==◌, if◌then◌else◌, find_id, find_id-put_at, two_ways, Bool-cases,
  inl, inr, ==_iff,
}
use dynaxis.Concurrent.Scheduler.{
  Environment, TaskScheduler, TaskRecord, ReadyTask, DelayedTask, RepeatDecision, RepeatContext,
  Call, change, change_found, steps, read_clock, do_cancel, cancel_found, stale,
}
use dynaxis.Concurrent.Scheduler.Poll.{
  next_repeat_delay, is_current, promote, collect_ready, done, finish, validated, count_run,
  count_skip, again, mark_executed, run_one_shot, decided, run_repeated, run_found, run_all, poll,
}
use dynaxis.Concurrent.Scheduler.Canceled.{
  is_canceled, count, StoppedIn, change-Stopped, requeue-Stopped, apply_jitter-Stopped,
  steps-Stopped,
}

module _ (p n : ℕ) where
  next_repeat_delay-Stopped :
      (env : Environment) (s : TaskScheduler) (r : TaskRecord)
      → StoppedIn p n s
      → StoppedIn p n (next_repeat_delay env s r).1
  unfolding next_repeat_delay
  next_repeat_delay-Stopped env s r h = apply_jitter-Stopped p n env s _ r.repeat_policy.jitter h

  promote-Stopped :
      (s : TaskScheduler) (now : ℕ) (ds : List DelayedTask)
      → StoppedIn p n s
      → StoppedIn p n (promote s now ds)
  unfolding promote
  promote-Stopped s now [] h = h
  promote-Stopped s now (d ∷ ds) h =
      let entry : ReadyTask = record { place = d.place; generation = d.generation } in
      let current = is_current d.generation (find_id s.records d.place) in
      let more = record s { ready = s.ready ++ entry ∷ [] } in
      two_ways (StoppedIn p n) (leb d.due now) (promote (if current then more else s) now ds) _
        (λ e.
          promote-Stopped (if current then more else s) now ds
            (two_ways (StoppedIn p n) current more s (λ k. h) (λ k. h)))
        (λ e. h)

  finish-Stopped :
      (s : TaskScheduler) (place id : ℕ) → StoppedIn p n s → StoppedIn p n (finish s place id)
  unfolding finish
  finish-Stopped s place id h = change-Stopped p n s place done (λ r k. refl) h

  again-Stopped :
      (env : Environment) (s : TaskScheduler) (place : ℕ) (add : RepeatContext → RepeatContext)
      (o : Option TaskRecord)
      → StoppedIn p n s
      → StoppedIn p n (again env s place add o)
  again-Stopped env s place add none h = h
  again-Stopped env s place add (some r) h =
      two_ways (StoppedIn p n) r.canceled s _ (λ e. h)
        (λ e. requeue-Stopped p n env _ place r _ (λ q k. k) (next_repeat_delay-Stopped env s _ h))

  mark_executed-Stopped :
      (s : TaskScheduler) (q : ℕ)
      → (q == p) ≡ false
      → StoppedIn p n s
      → StoppedIn p n (mark_executed s q)
  mark_executed-Stopped s q differs h = record {
    canceled = h.canceled;
    below = h.below;
    ran = ground (arith, differs, h.ran);
  }

  decided-Stopped :
      (env : Environment) (s : TaskScheduler) (place id : ℕ) (d : RepeatDecision)
      → StoppedIn p n s
      → StoppedIn p n (decided env s place id d)
  decided-Stopped env s place id RepeatDecision.stop h = finish-Stopped s place id h
  decided-Stopped env s place id RepeatDecision.go_on h =
      again-Stopped env s place count_run (find_id s.records place) h

  run_found-Stopped :
      (env : Environment) (s : TaskScheduler) (entry : ReadyTask) (o : Option TaskRecord)
      → find_id s.records entry.place ≡ o
      → StoppedIn p n s
      → StoppedIn p n (run_found env s entry o)
  unfolding run_repeated run_one_shot
  run_found-Stopped env s entry none e h = h
  run_found-Stopped env s entry (some r) e h =
      let q = entry.place in
      let (valid, asked) = validated env s r in
      let s1 = steps env s asked in
      let h1 = steps-Stopped p n env s asked h in
      let one = steps env (mark_executed s1 q) (env.one_shot r.callable s1.readings) in
      let (decision, calls) = env.repeat r.callable r.repeat_context in
      two_ways (StoppedIn p n) (not (is_current entry.generation (some r))) s _ (λ k. h)
        (λ k.
          let differs : (q == p) ≡ false = elim (Bool-cases (q == p)) [
            | inl same ↦
                let here = ap (find_id s.records) ((==_iff q p).0 same) in
                absurd (ground (arith, k, e, here, h.canceled))
            | inr differs ↦ differs
          ] in
          let marked = mark_executed-Stopped s1 q differs h1 in
          two_ways (StoppedIn p n) r.repeating (run_repeated env s q r) (run_one_shot env s q r)
            (λ k.
              two_ways (StoppedIn p n) valid _ _
                (λ k.
                  decided-Stopped env _ q r.id decision
                    (steps-Stopped p n env (mark_executed s1 q) calls marked))
                (λ k. again-Stopped env s1 q count_skip (find_id s1.records q) h1))
            (λ k.
              two_ways (StoppedIn p n) valid (finish one q r.id) (finish s1 q r.id)
                (λ k. finish-Stopped one q r.id (
                  steps-Stopped p n env (mark_executed s1 q) (env.one_shot r.callable s1.readings)
                    marked))
                (λ k. finish-Stopped s1 q r.id h1)))

  pub run_all-Stopped :
      (env : Environment) (s : TaskScheduler) (batch : List ReadyTask)
      → StoppedIn p n s
      → StoppedIn p n (run_all env s batch)
  unfolding run_all
  run_all-Stopped env s [] h = h
  run_all-Stopped env s (e ∷ es) h =
      run_all-Stopped env (run_found env s e (find_id s.records e.place)) es
        (run_found-Stopped env s e (find_id s.records e.place) refl h)

  poll-Stopped :
      (env : Environment) (s : TaskScheduler) (max_tasks : ℕ)
      → StoppedIn p n s
      → StoppedIn p n (poll env s max_tasks)
  unfolding poll collect_ready
  poll-Stopped env s max_tasks h =
      two_ways (StoppedIn p n) s.is_shutdown s _ (λ e. h)
        (λ e.
          run_all-Stopped env _ _
            (promote-Stopped (read_clock s) (env.clock s.readings) s.delayed h))

-- What is done with a scheduler from outside.
pub data Use : Type 0 where
  calls : List Call → Use
  polls : ℕ → Use

unfoldable pub use_all : Environment → TaskScheduler → List Use → TaskScheduler
use_all env s [] = s
use_all env s (Use.calls l ∷ us) = use_all env (steps env s l) us
use_all env s (Use.polls max_tasks ∷ us) = use_all env (poll env s max_tasks) us

use_all-Stopped :
    (p n : ℕ) (env : Environment) (s : TaskScheduler) (us : List Use)
    → StoppedIn p n s
    → StoppedIn p n (use_all env s us)
unfolding use_all
use_all-Stopped p n env s [] h = h
use_all-Stopped p n env s (Use.calls l ∷ us) h =
    use_all-Stopped p n env (steps env s l) us (steps-Stopped p n env s l h)
use_all-Stopped p n env s (Use.polls m ∷ us) h =
    use_all-Stopped p n env (poll env s m) us (poll-Stopped p n env s m h)

cancel_found-Stopped :
    (s : TaskScheduler) (token place : ℕ) (r : TaskRecord)
    → find_id s.records place ≡ some r
    → place < s.next_place
    → StoppedIn place (count s.executed place) (cancel_found s token (some place)).1
unfolding change
cancel_found-Stopped s token place r there below = record {
  canceled =
      ap (λ o. is_canceled (find_id (change_found s.records place stale o) place)) there
      ∙ ap is_canceled (find_id-put_at s.records place (stale r));
  below = below;
  ran = refl;
}

cancel_known :
    (s : TaskScheduler) (token place : ℕ)
    → 0 < token
    → s.is_shutdown ≡ false
    → find_id s.tasks token ≡ some place
    → do_cancel s token ≡ cancel_found s token (some place)
unfolding do_cancel
cancel_known s token place known live led =
    let no : (token == 0 || s.is_shutdown) ≡ false = ground (arith, known, live) in
    ap (λ b. if b then (false, s) else cancel_found s token (find_id s.tasks token)) no
    ∙ ap (cancel_found s token) led

-- On a scheduler that is not shut down, `cancel` of a token that leads to a record in the heap answers
-- true, and the task never runs after it: not from more calls, not from the turns of a poll under way
-- that are still to come, and not from any later calls and polls, whatever the callables and the
-- validators call. The turn that is under way is not among these: a validator's own cancel does not
-- keep its task from running in that turn.
pub count-use_all-do_cancel :
    (env : Environment) (s : TaskScheduler) (token place : ℕ) (r : TaskRecord) (more : List Call)
    (batch : List ReadyTask) (later : List Use)
    → 0 < token
    → s.is_shutdown ≡ false
    → find_id s.tasks token ≡ some place
    → find_id s.records place ≡ some r
    → place < s.next_place
    → ((do_cancel s token).0 ≡ true)
      × (count
            (use_all env (run_all env (steps env (do_cancel s token).1 more) batch) later).executed
            place
          ≡ count s.executed place)
count-use_all-do_cancel env s token place r more batch later known live led there below =
    let done = cancel_known s token place known live led in
    let n = count s.executed place in
    let stopped : StoppedIn place n (do_cancel s token).1 =
      subst (λ (x : Bool × TaskScheduler). StoppedIn place n x.1) (sym done)
        (cancel_found-Stopped s token place r there below) in
    let after = use_all-Stopped place n env _ later (
      run_all-Stopped place n env _ batch
        (steps-Stopped place n env (do_cancel s token).1 more stopped)) in
    (ap (λ (x : Bool × TaskScheduler). x.0) done, after.ran)
