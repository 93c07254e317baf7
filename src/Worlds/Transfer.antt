-- ===== src/Worlds/Transfer.antt =====
-- core/include/server/core/worlds/world_transfer.hpp: how far the transfer of a world to another
-- owner has come, judged from one observation. The loop over the instances is a left fold.
pub mod Targets
use dynaxis.Base.{
  ℕ, ◌+◌, String, Bool, true, false, not, ◌&&◌, List, [], ◌∷◌, if◌then◌else◌, str_eq, length, u32,
}

pub record ObservedWorldTransferInstance : Type 0 where
  pub instance_id : String
  pub ready : Bool

pub record ObservedWorldTransferState : Type 0 where
  pub world_id : String
  pub owner_instance_id : String
  pub draining : Bool
  pub replacement_owner_instance_id : String
  pub instances : List ObservedWorldTransferInstance

pub data WorldTransferPhase : Type 0 where
  idle target_missing target_not_ready owner_missing : WorldTransferPhase
  awaiting_owner_handoff owner_handoff_committed : WorldTransferPhase

abbrev pub is_committed : WorldTransferPhase → Bool
is_committed WorldTransferPhase.owner_handoff_committed = true
is_committed _ = false

pub record WorldTransferSummary : Type 0 where
  pub transfer_declared : Bool
  pub draining : Bool
  pub owner_present : Bool
  pub target_present : Bool
  pub target_ready : Bool
  pub owner_matches_target : Bool
  pub instances_total : ℕ
  pub ready_instances : ℕ

pub record WorldTransferStatus : Type 0 where
  pub world_id : String
  pub owner_instance_id : String
  pub target_owner_instance_id : String
  pub phase : WorldTransferPhase
  pub summary : WorldTransferSummary

abbrev pub is_blank : String → Bool
is_blank s = str_eq s ""

-- One turn of the loop over the instances.
unfoldable pub note_instance :
    String → WorldTransferSummary → ObservedWorldTransferInstance → WorldTransferSummary
note_instance target s instance =
    let counted = record s {
      ready_instances = if instance.ready then u32 (s.ready_instances + 1) else s.ready_instances;
    } in
    if str_eq instance.instance_id target
    then record counted { target_present = true; target_ready = instance.ready }
    else counted

unfoldable pub note_instances :
    String → WorldTransferSummary → List ObservedWorldTransferInstance → WorldTransferSummary
note_instances target s [] = s
note_instances target s (i ∷ is) = note_instances target (note_instance target s i) is

-- The phase that a summary gives.
unfoldable pub transfer_phase : WorldTransferSummary → WorldTransferPhase
transfer_phase s =
    if not s.transfer_declared
    then WorldTransferPhase.idle
    else if not s.target_present
    then WorldTransferPhase.target_missing
    else if not s.target_ready
    then WorldTransferPhase.target_not_ready
    else if not s.owner_present
    then WorldTransferPhase.owner_missing
    else if s.owner_matches_target
    then WorldTransferPhase.owner_handoff_committed
    else WorldTransferPhase.awaiting_owner_handoff

-- The summary before the loop.
abbrev pub first_summary : ObservedWorldTransferState → WorldTransferSummary
first_summary state = record {
  transfer_declared = state.draining && not (is_blank state.replacement_owner_instance_id);
  draining = state.draining;
  owner_present = not (is_blank state.owner_instance_id);
  target_present = false;
  target_ready = false;
  owner_matches_target = false;
  instances_total = u32 (length state.instances);
  ready_instances = 0;
}

unfoldable pub transfer_summary : ObservedWorldTransferState → WorldTransferSummary
transfer_summary state =
    let owner = state.owner_instance_id in
    let target = state.replacement_owner_instance_id in
    let observed = note_instances target (first_summary state) state.instances in
    record observed {
      owner_matches_target =
          observed.owner_present && (not (is_blank target) && str_eq owner target);
    }

unfoldable pub evaluate_world_transfer : ObservedWorldTransferState → WorldTransferStatus
evaluate_world_transfer state = record {
  world_id = state.world_id;
  owner_instance_id = state.owner_instance_id;
  target_owner_instance_id = state.replacement_owner_instance_id;
  phase = transfer_phase (transfer_summary state);
  summary = transfer_summary state;
}
