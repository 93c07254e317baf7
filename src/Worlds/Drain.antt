-- ===== src/Worlds/Drain.antt =====
-- The first half of core/include/server/core/worlds/world_drain.hpp: how far a world has drained,
-- judged from one observation. The loop over the instances is a left fold.
pub mod Drained
use dynaxis.Base.{
  ℕ, ◌+◌, String, Bool, true, false, not, ◌&&◌, List, [], ◌∷◌, ltb, if◌then◌else◌, str_eq, length,
  u32,
}
use dynaxis.Worlds.Transfer.{is_blank}

pub record ObservedWorldDrainInstance : Type 0 where
  pub instance_id : String
  pub ready : Bool
  pub active_sessions : ℕ

pub record ObservedWorldDrainState : Type 0 where
  pub world_id : String
  pub owner_instance_id : String
  pub draining : Bool
  pub replacement_owner_instance_id : String
  pub instances : List ObservedWorldDrainInstance

pub data WorldDrainPhase : Type 0 where
  idle replacement_target_missing replacement_target_not_ready : WorldDrainPhase
  draining_sessions drained : WorldDrainPhase

abbrev pub is_drained : WorldDrainPhase → Bool
is_drained WorldDrainPhase.drained = true
is_drained _ = false

pub record WorldDrainSummary : Type 0 where
  pub drain_declared : Bool
  pub replacement_declared : Bool
  pub owner_present : Bool
  pub replacement_present : Bool
  pub replacement_ready : Bool
  pub instances_total : ℕ
  pub ready_instances : ℕ
  pub active_sessions_total : ℕ
  pub owner_active_sessions : ℕ
  pub replacement_active_sessions : ℕ

pub record WorldDrainStatus : Type 0 where
  pub world_id : String
  pub owner_instance_id : String
  pub replacement_owner_instance_id : String
  pub phase : WorldDrainPhase
  pub summary : WorldDrainSummary

-- One turn of the loop over the instances.
unfoldable pub note_instance :
    String → String → WorldDrainSummary → ObservedWorldDrainInstance → WorldDrainSummary
note_instance owner replacement s i =
    let is_owner = not (is_blank owner) && str_eq i.instance_id owner in
    let is_replacement = not (is_blank replacement) && str_eq i.instance_id replacement in
    record s {
      active_sessions_total = u32 (s.active_sessions_total + i.active_sessions);
      ready_instances = if i.ready then u32 (s.ready_instances + 1) else s.ready_instances;
      owner_active_sessions = if is_owner then i.active_sessions else s.owner_active_sessions;
      replacement_present = if is_replacement then true else s.replacement_present;
      replacement_ready = if is_replacement then i.ready else s.replacement_ready;
      replacement_active_sessions =
          if is_replacement then i.active_sessions else s.replacement_active_sessions;
    }

unfoldable pub note_instances :
    String → String → WorldDrainSummary → List ObservedWorldDrainInstance → WorldDrainSummary
note_instances owner replacement s [] = s
note_instances owner replacement s (i ∷ is) =
    note_instances owner replacement (note_instance owner replacement s i) is

-- The summary before the loop.
abbrev pub first_summary : ObservedWorldDrainState → WorldDrainSummary
first_summary state = record {
  drain_declared = state.draining;
  replacement_declared = not (is_blank state.replacement_owner_instance_id);
  owner_present = not (is_blank state.owner_instance_id);
  replacement_present = false;
  replacement_ready = false;
  instances_total = u32 (length state.instances);
  ready_instances = 0;
  active_sessions_total = 0;
  owner_active_sessions = 0;
  replacement_active_sessions = 0;
}

unfoldable pub drain_summary : ObservedWorldDrainState → WorldDrainSummary
drain_summary state =
    note_instances state.owner_instance_id state.replacement_owner_instance_id (first_summary state)
      state.instances

-- The phase that a summary gives.
unfoldable pub drain_phase : Bool → WorldDrainSummary → WorldDrainPhase
drain_phase draining s =
    if not draining
    then WorldDrainPhase.idle
    else if s.replacement_declared && not s.replacement_present
    then WorldDrainPhase.replacement_target_missing
    else if s.replacement_declared && not s.replacement_ready
    then WorldDrainPhase.replacement_target_not_ready
    else if ltb 0 s.active_sessions_total
    then WorldDrainPhase.draining_sessions
    else WorldDrainPhase.drained

unfoldable pub evaluate_world_drain : ObservedWorldDrainState → WorldDrainStatus
evaluate_world_drain state = record {
  world_id = state.world_id;
  owner_instance_id = state.owner_instance_id;
  replacement_owner_instance_id = state.replacement_owner_instance_id;
  phase = drain_phase state.draining (drain_summary state);
  summary = drain_summary state;
}
