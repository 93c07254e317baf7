-- ===== src/Realtime/Runtime/Rewind.antt =====
-- `WorldRuntime::rewind_at_or_before` over the calls of a world: the past that histories keep.
pub mod Histories
use dynaxis.Base.{
  ℕ, suc, zero, ◌+◌, ◌^◌, ◌≤◌, ◌<◌, ◌≡◌, refl, ap, ◌∙◌, sym, subst, Bool, true, false, Option, none,
  some, List, [], ◌∷◌, ◌++◌, arith, ◌==◌, if◌then◌else◌, ltb, leb, u32, Table, find_id, put_id,
  erase_id, length, length-append, All, All-append, option_map, map_values, find_id-map_values,
  find_id-put_some, find_id-erase_some, Bool-cases, Option-cases, inl, inr, two_ways,
}
use dynaxis.Realtime.Runtime.State.{
  RuntimeConfig, ActorTransformSample, sample_of, ActorState, StagedInput, WorldRuntime,
  update_actor_cells, sanitize_config, InputCommand,
}
use dynaxis.Realtime.Runtime.Inputs.{
  ensure_found, emplace_found, new_actor, stage_input, ensure_actor_for_session, is_stale,
  StageInputResult, remove_session, remove_found,
}
use dynaxis.Realtime.Runtime.Ticks.{
  trim, record_history, clean, apply_staged, step_actor, apply_inputs, advance, tick, RewindQuery,
  RewindResult, rewind_history, rewind_found, rewind_at_or_before,
}
use dynaxis.Realtime.Runtime.Replica.Actors.{Related, apply_inputs-Related, Related-some}
use dynaxis.Realtime.Runtime.Replica.World.{some_same}
use dynaxis.Realtime.Runtime.Replica.Calls.{Call, Both, step, run, left}
use dynaxis.Realtime.Runtime.Replica.Runs.{Bounds, run-Bounds, run-Holds}
use dynaxis.Realtime.Runtime.Rewind.Histories.{Keeps, Keeps-trim, Keeps-single, rewind-Keeps}

apply_staged-history :
    (staged : Option StagedInput) (a : ActorState) → a.history ≡ (apply_staged staged a).history
apply_staged-history none a = refl
apply_staged-history (some s) a = ground arith

step_actor-history :
    (config : RuntimeConfig) (staged : Option StagedInput) (a : ActorState)
    → a.history ≡ (step_actor config staged a).history
unfolding step_actor update_actor_cells
step_actor-history config staged a = apply_staged-history staged a

-- An actor after a tick was there before, and its history has one sample more.
tick-history :
    (w : WorldRuntime) (id : ℕ) (b : ActorState)
    → find_id (tick w).1.actors id ≡ some b
    → (a : ActorState) × (find_id w.actors id ≡ some a)
      × (b.history
          ≡ trim w.config.history_ticks (a.history ++ (sample_of (u32 (w.server_tick + 1)) b ∷ [])))
unfolding tick advance record_history
tick-history w id b e =
    let t = u32 (w.server_tick + 1) in
    let moved = apply_inputs w.config w.staged_inputs w.actors w.session_to_actor in
    let recorded = map_values (record_history w.config.history_ticks t) moved in
    let read : find_id (map_values clean recorded) id
        ≡ option_map clean
            (option_map (record_history w.config.history_ticks t) (find_id moved id)) =
      find_id-map_values clean recorded id
      ∙ ap (option_map clean)
          (find_id-map_values (record_history w.config.history_ticks t) moved id) in
    elim (Option-cases (find_id moved id)) [
      | inl gone ↦ absurd (ground (arith, e, read, gone))
      | inr (m, there) ↦
          let (a, was, same) =
            Related-some (λ a b. a.history ≡ b.history) (find_id w.actors id) m
              (subst (Related (λ a b. a.history ≡ b.history) (find_id w.actors id)) there (
                apply_inputs-Related (λ a b. a.history ≡ b.history) (λ a. refl) (λ a b c h k. h ∙ k)
                  w.config (step_actor-history w.config) w.staged_inputs w.actors w.session_to_actor
                  id)) in
          let made : clean (record_history w.config.history_ticks t m) ≡ b =
            ground (arith, e, read, there) in
          (
            a,
            was,
            subst
                (λ (x : ActorState).
                  x.history ≡ trim w.config.history_ticks (a.history ++ (sample_of t x ∷ [])))
                made (ap (λ h. trim w.config.history_ticks (h ++ (sample_of t m ∷ []))) (sym same)),
          )
    ]

-- Wherever the actor is still there, its history holds the sample.
record Recorded (id : ℕ) (s : ActorTransformSample) (n next tick : ℕ) (actors : Table ActorState)
    : Type 0 where
  below : id < next
  past : s.server_tick ≤ tick
  kept : (a : ActorState) → find_id actors id ≡ some a → Keeps n s a.history

abbrev RecordedIn : ℕ → ActorTransformSample → ℕ → WorldRuntime → Type 0
RecordedIn id s n w = Recorded id s n w.next_actor_id w.server_tick w.actors

module _ (id : ℕ) (s : ActorTransformSample) (n : ℕ) (w : WorldRuntime)
    (r : RecordedIn id s n w) where
  ensure_found-Recorded :
      (session : ℕ) (o : Option ℕ)
      → suc w.next_actor_id < 2 ^ 32
      → RecordedIn id s n (ensure_found w session o).1
  ensure_found-Recorded session (some key) fits = r
  ensure_found-Recorded session none fits = record {
    below = omega (arith, r.below, fits);
    past = r.past;
    kept = λ a e. r.kept a (before (find_id w.actors w.next_actor_id) a e);
  }
    where
      before :
          (o : Option ActorState) (a : ActorState)
          → find_id
              (emplace_found w.actors w.next_actor_id
                (new_actor w.config w.next_actor_id session)
                o)
              id
            ≡ some a
          → find_id w.actors id ≡ some a
      before (some there) a e = e
      before none a e =
          elim (find_id-put_some w.actors w.next_actor_id id
            (new_actor w.config w.next_actor_id session) a e) [
              | inl (k, same) ↦ absurd (omega (arith, k, r.below))
              | inr (differs, old) ↦ old
            ]

  remove_found-Recorded :
      (session : ℕ) (o : Option ℕ) → RecordedIn id s n (remove_found (left w session) session o)
  remove_found-Recorded session none = r
  remove_found-Recorded session (some key) = record {
    below = r.below;
    past = r.past;
    kept = λ a e. r.kept a (find_id-erase_some w.actors key id a e).1;
  }

  tick-Recorded :
      suc w.server_tick < 2 ^ 32
      → suc (suc n) ≤ w.config.history_ticks
      → RecordedIn id s (suc n) (tick w).1
  unfolding tick advance
  tick-Recorded fits room = record {
    below = r.below;
    past = omega (arith, r.past, fits);
    kept = λ b e.
        let (a, was, grown) = tick-history w id b e in
        let t = u32 (w.server_tick + 1) in
        subst (Keeps (suc n) s) (sym grown) (
          Keeps-trim w.config.history_ticks n s (sample_of t b) a.history room
            (omega (arith, r.past, fits)) (r.kept a was));
  }

-- The ticks among some calls.
abbrev pub ticks : List Call → ℕ
ticks [] = 0
ticks (Call.next_tick ∷ calls) = suc (ticks calls)
ticks (Call.stage session input ∷ calls) = ticks calls
ticks (Call.leave session ∷ calls) = ticks calls

-- One call after a sample was recorded, which is the one after `calls`.
step-Recorded :
    (config : RuntimeConfig) (id : ℕ) (s : ActorTransformSample) (calls : List Call) (n : ℕ)
    (b : Both) (call : Call)
    → Bounds config n b.0
    → RecordedIn id s (ticks calls) b.0
    → n + 3 < 2 ^ 32
    → suc (ticks (call ∷ calls)) ≤ (sanitize_config config).history_ticks
    → RecordedIn id s (ticks (call ∷ calls)) (step b call).0
unfolding step stage_input ensure_actor_for_session remove_session
step-Recorded config id s calls n (w, clients) (Call.stage session input) bounds r fits room =
    let found = find_id w.session_to_actor session in
    let kept =
      ensure_found-Recorded id s (ticks calls) w r session found
        (omega (arith, bounds.actors, fits)) in
    two_ways (λ (p : StageInputResult × WorldRuntime). RecordedIn id s (ticks calls) p.1)
      (is_stale (find_id (ensure_found w session found).1.staged_inputs session) input) _ _
      (λ e. kept) (λ e. kept)
step-Recorded config id s calls n (w, clients) (Call.leave session) bounds r fits room =
    remove_found-Recorded id s (ticks calls) w r session (find_id w.session_to_actor session)
step-Recorded config id s calls n (w, clients) Call.next_tick bounds r fits room =
    tick-Recorded id s (ticks calls) w r (omega (arith, bounds.ticks, fits)) (
      subst (λ (c : RuntimeConfig). suc (suc (ticks calls)) ≤ c.history_ticks)
        (sym bounds.config_same) room)

-- Calls after a sample was recorded.
later-Recorded :
    (config : RuntimeConfig) (start : List Call) (id : ℕ) (s : ActorTransformSample)
    (calls : List Call)
    → length (calls ++ start) + 2 < 2 ^ 32
    → suc (ticks calls) ≤ (sanitize_config config).history_ticks
    → RecordedIn id s 0 (run config start).0
    → RecordedIn id s (ticks calls) (run config (calls ++ start)).0
unfolding run
later-Recorded config start id s [] fits room r = r
later-Recorded config start id s (call ∷ calls) fits room r =
    let before =
      later-Recorded config start id s calls (omega (arith, fits)) (fewer call calls room) r in
    let bounds = run-Bounds config (calls ++ start) (omega (arith, fits)) in
    step-Recorded config id s calls (length (calls ++ start)) (run config (calls ++ start)) call
      bounds before (omega (arith, fits)) room
  where
    fewer :
        (call : Call) (calls : List Call) {limit : ℕ}
        → suc (ticks (call ∷ calls)) ≤ limit
        → suc (ticks calls) ≤ limit
    fewer (Call.stage session input) calls h = h
    fewer (Call.leave session) calls h = h
    fewer Call.next_tick calls h = omega (arith, h)

sanitize_config-history_ticks :
    (config : RuntimeConfig) → 1 ≤ (sanitize_config config).history_ticks
unfolding sanitize_config
sanitize_config-history_ticks config = ground arith

-- The sample that a tick records.
first-Recorded :
    (config : RuntimeConfig) (start : List Call) (id : ℕ) (a : ActorState)
    → length start + 3 < 2 ^ 32
    → find_id (run config (Call.next_tick ∷ start)).0.actors id ≡ some a
    → RecordedIn id
        (sample_of (run config (Call.next_tick ∷ start)).0.server_tick a)
        0
        (run config (Call.next_tick ∷ start)).0
unfolding run step tick advance
first-Recorded config start id a fits e =
    let w = (run config start).0 in
    let bounds = run-Bounds config start (omega (arith, fits)) in
    let (b, was, grown) = tick-history w id a e in
    let x = sample_of (u32 (w.server_tick + 1)) a in
    let room : 1 ≤ w.config.history_ticks =
      subst (λ (c : RuntimeConfig). 1 ≤ c.history_ticks) (sym bounds.config_same)
        (sanitize_config-history_ticks config) in
    record {
      below = (run-Holds config (Call.next_tick ∷ start) (omega (arith, fits))).below id a e;
      past = omega arith;
      kept = λ c there.
          subst (Keeps 0 x)
            (sym grown ∙ ap (λ (o : ActorState). o.history) (some_same (sym e ∙ there)))
            (Keeps-single w.config.history_ticks x b.history room);
    }

-- Where an actor was there after a tick, and is there after fewer further ticks than the configured
-- length of histories, whatever other calls came between, all calls fewer than 2 ^ 32 - 3, a rewind
-- to that tick finds, as an exact hit, the actor as it was after that tick.
pub rewind_at_or_before-exact :
    (config : RuntimeConfig) (start later : List Call) (id : ℕ) (a b : ActorState)
    → length (later ++ Call.next_tick ∷ start) + 2 < 2 ^ 32
    → suc (ticks later) ≤ (sanitize_config config).history_ticks
    → find_id (run config (Call.next_tick ∷ start)).0.actors id ≡ some a
    → find_id (run config (later ++ Call.next_tick ∷ start)).0.actors id ≡ some b
    → rewind_at_or_before (run config (later ++ Call.next_tick ∷ start)).0 (record {
      actor_id = id;
      server_tick = (run config (Call.next_tick ∷ start)).0.server_tick;
    })
      ≡ some (record {
        sample = sample_of (run config (Call.next_tick ∷ start)).0.server_tick a;
        exact_tick = true;
      })
unfolding rewind_at_or_before
rewind_at_or_before-exact config start later id a b fits room was now =
    let t = (run config (Call.next_tick ∷ start)).0.server_tick in
    let fewer : length start + 3 < 2 ^ 32 =
      omega (arith, fits, length-append later (Call.next_tick ∷ start)) in
    let r =
      later-Recorded config (Call.next_tick ∷ start) id (sample_of t a) later fits room
        (first-Recorded config start id a fewer was) in
    ap (rewind_found t) now ∙ rewind-Keeps (ticks later) (sample_of t a) b.history (r.kept b now)
