-- ===== src/Concurrent/Scheduler/Canceled.antt =====
-- A record that is canceled never runs again.
use dynaxis.Base.{
  ℕ, suc, ◌+◌, ◌<◌, ◌≡◌, refl, ap, ◌∙◌, Bool, true, false, not, ◌||◌, Option, none, some, List, [],
  ◌∷◌, arith, ◌==◌, if◌then◌else◌, Table, find_id, erase_id, find_id-put_id, find_id-put_past, ℤ,
  pos, leb_ℤ, ltb_ℤ, above, two_ways, Bool-cases, inl, inr, ==_iff,
}
use dynaxis.Concurrent.Scheduler.{
  Environment, TaskScheduler, TaskRecord, RepeatPolicy, Call, change, change_found, apply_jitter,
  requeue, step, steps, read_clock, push_delayed, queue, enter, do_schedule, do_schedule_every,
  do_cancel, cancel_found, stale, has_group, cancel_all, do_cancel_group, do_reschedule,
  reschedule_found, record_at, next_run, do_update_repeat_policy, update_found, do_shutdown,
}

abbrev pub is_canceled : Option TaskRecord → Bool
is_canceled none = false
is_canceled (some r) = r.canceled

-- How often a place stands in a list.
abbrev pub count : List ℕ → ℕ → ℕ
count [] p = 0
count (x ∷ xs) p = if x == p then suc (count xs p) else count xs p

-- The record at `p` is canceled and has run `n` times.
pub record Stopped (p n : ℕ) (records : Table TaskRecord) (next : ℕ) (executed : List ℕ)
    : Type 0 where
  pub canceled : is_canceled (find_id records p) ≡ true
  pub below : p < next
  pub ran : count executed p ≡ n

abbrev pub StoppedIn : ℕ → ℕ → TaskScheduler → Type 0
StoppedIn p n s = Stopped p n s.records s.next_place s.executed

abbrev pub Keeps : (TaskRecord → TaskRecord) → Type 0
Keeps f = (r : TaskRecord) → r.canceled ≡ true → (f r).canceled ≡ true

module _ (p n : ℕ) where
  change_found-Stopped :
      (records : Table TaskRecord) (next : ℕ) (executed : List ℕ) (q : ℕ)
      (f : TaskRecord → TaskRecord) (o : Option TaskRecord)
      → find_id records q ≡ o
      → Keeps f
      → Stopped p n records next executed
      → Stopped p n (change_found records q f o) next executed
  change_found-Stopped records next executed q f none e k h = h
  change_found-Stopped records next executed q f (some r) e k h = record {
    canceled = elim (Bool-cases (q == p)) [
      | inl same ↦
          let here = ap (find_id records) ((==_iff q p).0 same) in
          ground (arith, find_id-put_id records q p (f r), same, e, here, k r, h.canceled)
      | inr differs ↦ ground (arith, find_id-put_id records q p (f r), differs, h.canceled)
    ];
    below = h.below;
    ran = h.ran;
  }

  pub change-Stopped :
      (s : TaskScheduler) (q : ℕ) (f : TaskRecord → TaskRecord)
      → Keeps f
      → StoppedIn p n s
      → StoppedIn p n (change s q f)
  unfolding change
  change-Stopped s q f k h =
      change_found-Stopped s.records s.next_place s.executed q f (find_id s.records q) refl k h

  queue-Stopped :
      (s : TaskScheduler) (delay : ℤ) (due place generation : ℕ)
      → StoppedIn p n s
      → StoppedIn p n (queue s delay due place generation)
  unfolding push_delayed
  queue-Stopped s delay due place generation h =
      two_ways (StoppedIn p n) (leb_ℤ delay (pos 0)) _ _ (λ e. h) (λ e. h)

  enter-Stopped : (s : TaskScheduler) (r : TaskRecord) → StoppedIn p n s → StoppedIn p n (enter s r)
  enter-Stopped s r h = record {
    canceled =
        let past : (s.next_place == p) ≡ false = ground (arith, h.below) in
        ap is_canceled (find_id-put_past s.records s.next_place p r past) ∙ h.canceled;
    below = omega (arith, h.below);
    ran = h.ran;
  }

  pub apply_jitter-Stopped :
      (env : Environment) (s : TaskScheduler) (delay jitter : ℤ)
      → StoppedIn p n s
      → StoppedIn p n (apply_jitter env s delay jitter).1
  unfolding apply_jitter
  apply_jitter-Stopped env s delay jitter h =
      two_ways (λ (x : ℕ × TaskScheduler). StoppedIn p n x.1) (above jitter == 0) _ _ (λ e. h)
        (λ e. h)

  pub requeue-Stopped :
      (env : Environment) (ds : ℕ × TaskScheduler) (place : ℕ) (r : TaskRecord)
      (f : TaskRecord → TaskRecord)
      → Keeps f
      → StoppedIn p n ds.1
      → StoppedIn p n (requeue env ds place r f)
  unfolding requeue push_delayed
  requeue-Stopped env (delay, s) place r f k h =
      change-Stopped (read_clock s) place (λ q. next_run delay (env.clock s.readings + delay) (f q))
        k h

  do_schedule-Stopped :
      (env : Environment) (s : TaskScheduler) (task : Option ℕ) (delay : ℤ) (group : ℕ)
      (validator : Option ℕ)
      → StoppedIn p n s
      → StoppedIn p n (do_schedule env s task delay group validator).1
  unfolding do_schedule
  do_schedule-Stopped env s none delay group validator h = h
  do_schedule-Stopped env s (some task) delay group validator h =
      two_ways (λ (x : ℕ × TaskScheduler). StoppedIn p n x.1) s.is_shutdown _ _ (λ e. h)
        (λ e. queue-Stopped _ delay _ _ _ (enter-Stopped (read_clock s) _ h))

  do_schedule_every-Stopped :
      (env : Environment) (s : TaskScheduler) (task : Option ℕ) (policy : RepeatPolicy)
      (validator : Option ℕ) (group : ℕ)
      → StoppedIn p n s
      → StoppedIn p n (do_schedule_every env s task policy validator group).1
  unfolding do_schedule_every push_delayed
  do_schedule_every-Stopped env s none policy validator group h = h
  do_schedule_every-Stopped env s (some task) policy validator group h =
      two_ways (λ (x : ℕ × TaskScheduler). StoppedIn p n x.1)
        (not (ltb_ℤ (pos 0) policy.interval) || s.is_shutdown) _ _ (λ e. h)
        (λ e.
          enter-Stopped (read_clock (apply_jitter env s policy.interval policy.jitter).1) _
            (apply_jitter-Stopped env s policy.interval policy.jitter h))

  do_cancel-Stopped :
      (s : TaskScheduler) (token : ℕ) → StoppedIn p n s → StoppedIn p n (do_cancel s token).1
  unfolding do_cancel
  do_cancel-Stopped s token h =
      two_ways (λ (x : Bool × TaskScheduler). StoppedIn p n x.1) (token == 0 || s.is_shutdown) _ _
        (λ e. h) (λ e. found (find_id s.tasks token))
    where
      found : (o : Option ℕ) → StoppedIn p n (cancel_found s token o).1
      found none = h
      found (some q) = change-Stopped s q stale (λ r k. refl) h

  cancel_all-Stopped :
      (s : TaskScheduler) (group : ℕ) (es : Table ℕ)
      → StoppedIn p n s
      → StoppedIn p n (cancel_all s group es).1
  unfolding cancel_all
  cancel_all-Stopped s group [] h = h
  cancel_all-Stopped s group (e ∷ es) h =
      let hit = has_group group (find_id s.records e.1) in
      let less = record (change s e.1 stale) { tasks = erase_id s.tasks e.0 } in
      cancel_all-Stopped (if hit then less else s) group es (
        two_ways (StoppedIn p n) hit less s (λ k. change-Stopped s e.1 stale (λ r k. refl) h)
          (λ k. h))

  do_cancel_group-Stopped :
      (s : TaskScheduler) (group : ℕ) → StoppedIn p n s → StoppedIn p n (do_cancel_group s group).1
  unfolding do_cancel_group
  do_cancel_group-Stopped s group h =
      two_ways (λ (x : ℕ × TaskScheduler). StoppedIn p n x.1) (group == 0 || s.is_shutdown) _ _
        (λ e. h) (λ e. cancel_all-Stopped s group s.tasks h)

  do_reschedule-Stopped :
      (env : Environment) (s : TaskScheduler) (token : ℕ) (delay : ℤ)
      → StoppedIn p n s
      → StoppedIn p n (do_reschedule env s token delay).1
  unfolding do_reschedule
  do_reschedule-Stopped env s token delay h =
      two_ways (λ (x : Bool × TaskScheduler). StoppedIn p n x.1) (token == 0 || s.is_shutdown) _ _
        (λ e. h) (λ e. found (record_at s (find_id s.tasks token)))
    where
      found : (o : Option (ℕ × TaskRecord)) → StoppedIn p n (reschedule_found env s delay o).1
      found none = h
      found (some (q, r)) =
          two_ways (λ (x : Bool × TaskScheduler). StoppedIn p n x.1) r.canceled _ _ (λ e. h)
            (λ e. queue-Stopped _ delay _ _ _ (change-Stopped (read_clock s) q _ (λ r k. k) h))

  do_update_repeat_policy-Stopped :
      (env : Environment) (s : TaskScheduler) (token : ℕ) (policy : RepeatPolicy)
      → StoppedIn p n s
      → StoppedIn p n (do_update_repeat_policy env s token policy).1
  unfolding do_update_repeat_policy
  do_update_repeat_policy-Stopped env s token policy h =
      two_ways (λ (x : Bool × TaskScheduler). StoppedIn p n x.1)
        (token == 0 || (not (ltb_ℤ (pos 0) policy.interval) || s.is_shutdown)) _ _ (λ e. h)
        (λ e. found (record_at s (find_id s.tasks token)))
    where
      found : (o : Option (ℕ × TaskRecord)) → StoppedIn p n (update_found env s policy o).1
      found none = h
      found (some (q, r)) =
          two_ways (λ (x : Bool × TaskScheduler). StoppedIn p n x.1) (not r.repeating || r.canceled)
            _ _ (λ e. h)
            (λ e.
              requeue-Stopped env _ q r _ (λ r k. k)
                (apply_jitter-Stopped env s policy.interval policy.jitter h))

  pub step-Stopped :
      (env : Environment) (s : TaskScheduler) (call : Call)
      → StoppedIn p n s
      → StoppedIn p n (step env s call)
  unfolding step do_shutdown
  step-Stopped env s (Call.schedule_controlled task delay group validator) h =
      do_schedule-Stopped env s task delay group validator h
  step-Stopped env s (Call.schedule_every_controlled task policy validator group) h =
      do_schedule_every-Stopped env s task policy validator group h
  step-Stopped env s (Call.cancel token) h = do_cancel-Stopped s token h
  step-Stopped env s (Call.cancel_group group) h = do_cancel_group-Stopped s group h
  step-Stopped env s (Call.reschedule token delay) h = do_reschedule-Stopped env s token delay h
  step-Stopped env s (Call.update_repeat_policy token policy) h =
      do_update_repeat_policy-Stopped env s token policy h
  step-Stopped env s Call.shutdown h = two_ways (StoppedIn p n) s.is_shutdown s _ (λ e. h) (λ e. h)

  pub steps-Stopped :
      (env : Environment) (s : TaskScheduler) (calls : List Call)
      → StoppedIn p n s
      → StoppedIn p n (steps env s calls)
  unfolding steps
  steps-Stopped env s [] h = h
  steps-Stopped env s (call ∷ calls) h =
      steps-Stopped env (step env s call) calls (step-Stopped env s call h)
