-- ===== src/Realtime/Runtime/Ticks.antt =====
-- `WorldRuntime::tick`, and what a rewind reads.
use dynaxis.Base.{
  ℕ, ◌+◌, Bool, true, false, ◌&&◌, Option, none, some, List, [], ◌∷◌, ◌++◌, ltb, leb, ◌==◌,
  if◌then◌else◌, u32, u64, length, keep_if, Table, find_id, put_id, map_values, ◌+ℤ◌, or_else,
}
use dynaxis.Realtime.Runtime.State.{
  RuntimeConfig, ActorState, StagedInput, WorldRuntime, ActorTransformSample, sample_of, clamp_i32,
  update_actor_cells,
}
use dynaxis.Realtime.Runtime.Views.{ReplicationUpdate, Outcome, replicate_all}

-- core/include/server/core/realtime/simulation_phase.hpp
pub data SimulationPhase : Type 0 where
  tick_begin inputs_applied actors_advanced replication_computed tick_end : SimulationPhase

pub record SimulationPhaseContext : Type 0 where
  pub server_tick : ℕ
  pub actor_count : ℕ
  pub viewer_count : ℕ
  pub staged_input_count : ℕ
  pub replication_update_count : ℕ

abbrev pub apply_staged : Option StagedInput → ActorState → ActorState
apply_staged none actor = actor
apply_staged (some staged) actor =
    let input = staged.input in
    if staged.present && ltb actor.last_applied_input_seq input.input_seq
    then record actor {
      x_mm = clamp_i32 (actor.x_mm +ℤ input.move_x_mm);
      y_mm = clamp_i32 (actor.y_mm +ℤ input.move_y_mm);
      yaw_mdeg = input.yaw_mdeg;
      last_applied_input_seq = input.input_seq;
      dirty = true;
    }
    else actor

-- The body of the first loop for an actor that is found.
unfoldable pub step_actor : RuntimeConfig → Option StagedInput → ActorState → ActorState
step_actor config staged actor = update_actor_cells config (apply_staged staged actor)

abbrev pub apply_found :
    RuntimeConfig → Option StagedInput → Table ActorState → ℕ → Option ActorState → Table ActorState
apply_found config staged actors actor_id none = actors
apply_found config staged actors actor_id (some actor) =
    put_id actors actor_id (step_actor config staged actor)

-- The first loop, over the sessions.
unfoldable pub apply_inputs :
    RuntimeConfig → Table StagedInput → Table ActorState → Table ℕ → Table ActorState
apply_inputs config staged actors [] = actors
apply_inputs config staged actors (e ∷ es) =
    apply_inputs config staged
      (apply_found config (find_id staged e.0) actors e.1 (find_id actors e.1)) es

-- The loop that drops old samples.
unfoldable pub trim : ℕ → List ActorTransformSample → List ActorTransformSample
trim history_ticks [] = []
trim history_ticks (x ∷ xs) =
    let rest = trim history_ticks xs in if ltb history_ticks (length (x ∷ xs)) then rest else x ∷ xs

-- The body of the second loop.
unfoldable pub record_history : ℕ → ℕ → ActorState → ActorState
record_history history_ticks server_tick actor = record actor {
  history = trim history_ticks (actor.history ++ (sample_of server_tick actor ∷ []));
}

abbrev pub clean : ActorState → ActorState
clean actor = record actor { dirty = false }

abbrev pub count : (Outcome → Bool) → List Outcome → ℕ
count p outcomes = length (keep_if p outcomes)

-- The world once inputs are applied and histories written, before the viewers are told.
unfoldable pub advance : WorldRuntime → WorldRuntime
advance w =
    let server_tick = u32 (w.server_tick + 1) in
    let moved = apply_inputs w.config w.staged_inputs w.actors w.session_to_actor in
    record w {
      server_tick = server_tick;
      tick_total = u64 (w.tick_total + 1);
      actors = map_values (record_history w.config.history_ticks server_tick) moved;
    }

-- A phase as the observer is told of it.
abbrev pub capture_phase :
    WorldRuntime → SimulationPhase → ℕ → SimulationPhase × SimulationPhaseContext
capture_phase w phase updates = (
  phase,
  record {
    server_tick = w.server_tick;
    actor_count = length w.actors;
    viewer_count = length w.viewers;
    staged_input_count = length w.staged_inputs;
    replication_update_count = updates;
  },
)

-- No phase changes how many actors, viewers and inputs there are, so all are read off one world.
abbrev pub phase_events : WorldRuntime → ℕ → List (SimulationPhase × SimulationPhaseContext)
phase_events w updates =
    if w.simulation_phase_observer
    then capture_phase w SimulationPhase.tick_begin 0
      ∷ capture_phase w SimulationPhase.inputs_applied 0
      ∷ capture_phase w SimulationPhase.actors_advanced 0
      ∷ capture_phase w SimulationPhase.replication_computed updates
      ∷ capture_phase w SimulationPhase.tick_end updates
      ∷ []
    else []

pub record TickResult : Type 0 where
  pub outbound : List ReplicationUpdate
  pub phases : List (SimulationPhase × SimulationPhaseContext)

unfoldable pub tick : WorldRuntime → TickResult × WorldRuntime
tick w =
    let advanced = advance w in
    let (outbound, viewers, outcomes) = replicate_all advanced advanced.viewers in
    (
      record { outbound = outbound; phases = phase_events advanced (length outbound) },
      record advanced {
        actors = map_values clean advanced.actors;
        viewers = viewers;
        removed_actor_ids = [];
        snapshot_total = u64 (w.snapshot_total + count (λ o. o.snapshot) outcomes);
        delta_total = u64 (w.delta_total + count (λ o. o.delta) outcomes);
        delta_budget_snapshot_total =
            u64 (w.delta_budget_snapshot_total + count (λ o. o.over_budget) outcomes);
      },
    )

pub record RewindQuery : Type 0 where
  pub actor_id : ℕ
  pub server_tick : ℕ

pub record RewindResult : Type 0 where
  pub sample : ActorTransformSample
  pub exact_tick : Bool

-- The loop from the newest sample to the oldest: what lies behind a sample is newer.
unfoldable pub rewind_history : ℕ → List ActorTransformSample → Option RewindResult
rewind_history server_tick [] = none
rewind_history server_tick (x ∷ xs) = or_else (rewind_history server_tick xs) (
    if leb x.server_tick server_tick
    then some (record { sample = x; exact_tick = x.server_tick == server_tick })
    else none)

abbrev pub rewind_found : ℕ → Option ActorState → Option RewindResult
rewind_found server_tick none = none
rewind_found server_tick (some actor) = rewind_history server_tick actor.history

unfoldable pub rewind_at_or_before : WorldRuntime → RewindQuery → Option RewindResult
rewind_at_or_before w query = rewind_found query.server_tick (find_id w.actors query.actor_id)
