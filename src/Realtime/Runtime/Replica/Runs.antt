-- ===== src/Realtime/Runtime/Replica/Runs.antt =====
-- A world and its clients over any sequence of calls.
use dynaxis.Base.{
  ℕ, suc, ◌+◌, ◌^◌, ◌≤◌, ◌<◌, ◌≡◌, refl, Option, none, some, List, [], ◌∷◌, arith, find_id, length,
  two_ways,
}
use dynaxis.Realtime.Runtime.State.{
  RuntimeConfig, ViewerState, WorldRuntime, create, sanitize_config,
}
use dynaxis.Realtime.Runtime.Inputs.{
  ensure_found, ensure_actor_for_session, stage_input, remove_session, remove_found,
  StageInputResult, is_stale,
}
use dynaxis.Realtime.Runtime.Ticks.{advance, tick}
use dynaxis.Realtime.Runtime.Replica.{Exact}
use dynaxis.Realtime.Runtime.Replica.Ticked.{after-Exact}
use dynaxis.Realtime.Runtime.Replica.Calls.{
  Call, Both, step, run, Holds, left, create-Holds, stage_input-Holds, remove_session-Holds,
  advance-Holds, tick-Holds,
}

pub record Counts (config : RuntimeConfig) (n next tick : ℕ) (own : RuntimeConfig) : Type 0 where
  pub actors : next ≤ suc n
  pub ticks : tick ≤ n
  pub config_same : own ≡ sanitize_config config

-- How far the numbering of actors and the ticks have come after `n` calls, and the configuration.
abbrev pub Bounds : RuntimeConfig → ℕ → WorldRuntime → Type 0
Bounds config n w = Counts config n w.next_actor_id w.server_tick w.config

module _ (config : RuntimeConfig) (n : ℕ) (w : WorldRuntime) (h : Bounds config n w) where
  Bounds-suc : Bounds config (suc n) w
  Bounds-suc = record {
    actors = omega (arith, h.actors);
    ticks = omega (arith, h.ticks);
    config_same = h.config_same;
  }

  ensure_found-Bounds :
      (session : ℕ) (o : Option ℕ)
      → n + 2 < 2 ^ 32
      → Bounds config (suc n) (ensure_found w session o).1
  ensure_found-Bounds session none fits = record {
    actors = omega (arith, h.actors, fits);
    ticks = omega (arith, h.ticks);
    config_same = h.config_same;
  }
  ensure_found-Bounds session (some id) fits = Bounds-suc

  remove_found-Bounds :
      (session : ℕ) (o : Option ℕ) → Bounds config (suc n) (remove_found (left w session) session o)
  remove_found-Bounds session none = Bounds-suc
  remove_found-Bounds session (some id) = Bounds-suc

step-Bounds :
    (config : RuntimeConfig) (b : Both) (call : Call) (n : ℕ)
    → n + 2 < 2 ^ 32
    → Bounds config n b.0
    → Bounds config (suc n) (step b call).0
unfolding step stage_input ensure_actor_for_session remove_session tick advance
step-Bounds config (w, clients) (Call.stage session input) n fits h =
    let found = find_id w.session_to_actor session in
    let kept = ensure_found-Bounds config n w h session found fits in
    two_ways (λ (p : StageInputResult × WorldRuntime). Bounds config (suc n) p.1)
      (is_stale (find_id (ensure_found w session found).1.staged_inputs session) input) _ _
      (λ e. kept) (λ e. kept)
step-Bounds config (w, clients) (Call.leave session) n fits h =
    remove_found-Bounds config n w h session (find_id w.session_to_actor session)
step-Bounds config (w, clients) Call.next_tick n fits h = record {
  actors = omega (arith, h.actors);
  ticks = omega (arith, h.ticks);
  config_same = h.config_same;
}

create-Bounds : (config : RuntimeConfig) → Bounds config 0 (create config)
unfolding create
create-Bounds config = record { actors = omega arith; ticks = omega arith; config_same = refl }

pub run-Bounds :
    (config : RuntimeConfig) (calls : List Call)
    → length calls + 1 < 2 ^ 32
    → Bounds config (length calls) (run config calls).0
unfolding run
run-Bounds config [] fits = create-Bounds config
run-Bounds config (call ∷ calls) fits =
    step-Bounds config (run config calls) call (length calls) (omega (arith, fits))
      (run-Bounds config calls (omega (arith, fits)))

step-Holds :
    (b : Both) (call : Call) → suc b.0.next_actor_id < 2 ^ 32 → Holds b → Holds (step b call)
unfolding step
step-Holds (w, clients) (Call.stage session input) fits h =
    stage_input-Holds w clients session input fits h
step-Holds (w, clients) (Call.leave session) fits h = remove_session-Holds w clients session h
step-Holds (w, clients) Call.next_tick fits h = tick-Holds w clients h

-- Between any two of fewer than 2 ^ 32 - 2 calls the world is in order: actors bear their numbers,
-- all below the next one, removed ones are gone, sessions have actors of their own and viewers look
-- through them, and every client shows each actor its viewer sees, unless it changed, as it is.
pub run-Holds :
    (config : RuntimeConfig) (calls : List Call)
    → length calls + 2 < 2 ^ 32
    → Holds (run config calls)
unfolding run
run-Holds config [] fits = create-Holds config
run-Holds config (call ∷ calls) fits =
    let bounds = run-Bounds config calls (omega (arith, fits)) in
    step-Holds (run config calls) call (omega (arith, bounds.actors, fits))
      (run-Holds config calls (omega (arith, fits)))

-- After fewer than 2 ^ 32 - 2 calls the last of which is `tick`, every client shows exactly the
-- actors in its session's visible set, each with its present position, yaw and input number,
-- whichever updates were snapshots, which deltas, and which were not sent.
pub replica-Exact :
    (config : RuntimeConfig) (calls : List Call) (session : ℕ) (viewer : ViewerState)
    → length calls + 2 < 2 ^ 32
    → find_id (run config (Call.next_tick ∷ calls)).0.viewers session ≡ some viewer
    → Exact
        (run config (Call.next_tick ∷ calls)).0.actors
        viewer
        ((run config (Call.next_tick ∷ calls)).1 session)
unfolding run step tick
replica-Exact config calls session viewer fits found =
    let (w, clients) = run config calls in
    after-Exact (advance w) (advance-Holds w clients (run-Holds config calls fits)) session viewer
      found
