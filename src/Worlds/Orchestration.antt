-- ===== src/Worlds/Orchestration.antt =====
-- The second half of core/include/server/core/worlds/world_drain.hpp: when the drain policy of a
-- world may be cleared, from its drain, the transfer of its owner and its migration.
pub mod Clears
use dynaxis.Base.{ℕ, String, Bool, true, false, not, ◌&&◌, ◌||◌, Option, none, some, if◌then◌else◌}
use dynaxis.Worlds.Transfer.{is_committed, WorldTransferStatus}
use dynaxis.Worlds.Migration.{is_ready_to_resume, WorldMigrationStatus}
use dynaxis.Worlds.Drain.{WorldDrainPhase, is_drained, WorldDrainStatus}

pub data WorldDrainOrchestrationPhase : Type 0 where
  idle blocked_by_replacement_target draining : WorldDrainOrchestrationPhase
  awaiting_owner_transfer awaiting_migration ready_to_clear : WorldDrainOrchestrationPhase

pub data WorldDrainNextAction : Type 0 where
  nothing wait_for_drain stabilize_replacement_target : WorldDrainNextAction
  commit_owner_transfer await_migration clear_policy : WorldDrainNextAction

pub record WorldDrainOrchestrationSummary : Type 0 where
  pub drain_declared : Bool
  pub drained : Bool
  pub transfer_declared : Bool
  pub transfer_committed : Bool
  pub migration_declared : Bool
  pub migration_ready : Bool
  pub clear_allowed : Bool

pub record WorldDrainOrchestrationStatus : Type 0 where
  pub world_id : String
  pub drain_phase : WorldDrainPhase
  pub phase : WorldDrainOrchestrationPhase
  pub next_action : WorldDrainNextAction
  pub target_owner_instance_id : String
  pub target_world_id : String
  pub summary : WorldDrainOrchestrationSummary

-- The status before the first test.
abbrev pub first_status : WorldDrainStatus → WorldDrainOrchestrationStatus
first_status drain = record {
  world_id = drain.world_id;
  drain_phase = drain.phase;
  phase = WorldDrainOrchestrationPhase.idle;
  next_action = WorldDrainNextAction.nothing;
  target_owner_instance_id = "";
  target_world_id = "";
  summary = record {
    drain_declared = drain.summary.drain_declared;
    drained = is_drained drain.phase;
    transfer_declared = false;
    transfer_committed = false;
    migration_declared = false;
    migration_ready = false;
    clear_allowed = false;
  };
}

-- The last lines: nothing stands in the way.
abbrev pub clear : WorldDrainOrchestrationStatus → WorldDrainOrchestrationStatus
clear out = record out {
  phase = WorldDrainOrchestrationPhase.ready_to_clear;
  next_action = WorldDrainNextAction.clear_policy;
  summary = record (out.summary) { clear_allowed = true };
}

-- The migration, where there is an envelope, and what follows it.
unfoldable pub check_migration :
    Option WorldMigrationStatus → WorldDrainOrchestrationStatus → WorldDrainOrchestrationStatus
check_migration none out = clear out
check_migration (some migration) out =
    let ready = is_ready_to_resume migration.phase in
    let declared = record out {
      target_world_id = migration.target_world_id;
      target_owner_instance_id = migration.target_owner_instance_id;
      summary = record (out.summary) { migration_declared = true; migration_ready = ready };
    } in
    if not migration.summary.envelope_present
    then clear out
    else if not ready
    then record declared {
      phase = WorldDrainOrchestrationPhase.awaiting_migration;
      next_action = WorldDrainNextAction.await_migration;
    }
    else clear declared

-- The transfer, where it is declared, and what follows it.
unfoldable pub check_transfer :
    Option WorldTransferStatus
    → Option WorldMigrationStatus
    → WorldDrainOrchestrationStatus
    → WorldDrainOrchestrationStatus
check_transfer none migration out = check_migration migration out
check_transfer (some transfer) migration out =
    let committed = is_committed transfer.phase in
    let declared = record out {
      target_owner_instance_id = transfer.target_owner_instance_id;
      summary = record (out.summary) { transfer_declared = true; transfer_committed = committed };
    } in
    if not transfer.summary.transfer_declared
    then check_migration migration out
    else if not committed
    then record declared {
      phase = WorldDrainOrchestrationPhase.awaiting_owner_transfer;
      next_action = WorldDrainNextAction.commit_owner_transfer;
    }
    else check_migration migration declared

-- A stop before the drain is over, which names the replacement.
abbrev pub stop :
    WorldDrainStatus
    → WorldDrainOrchestrationPhase
    → WorldDrainNextAction
    → WorldDrainOrchestrationStatus
stop drain phase action = record (first_status drain) {
  phase = phase;
  next_action = action;
  target_owner_instance_id = drain.replacement_owner_instance_id;
}

-- The tests of the drain's phase, and what follows them.
unfoldable pub on_phase :
    WorldDrainPhase
    → WorldDrainStatus
    → Option WorldTransferStatus
    → Option WorldMigrationStatus
    → WorldDrainOrchestrationStatus
on_phase WorldDrainPhase.idle drain transfer migration = first_status drain
on_phase WorldDrainPhase.replacement_target_missing drain transfer migration =
    stop drain WorldDrainOrchestrationPhase.blocked_by_replacement_target
      WorldDrainNextAction.stabilize_replacement_target
on_phase WorldDrainPhase.replacement_target_not_ready drain transfer migration =
    stop drain WorldDrainOrchestrationPhase.blocked_by_replacement_target
      WorldDrainNextAction.stabilize_replacement_target
on_phase WorldDrainPhase.draining_sessions drain transfer migration =
    stop drain WorldDrainOrchestrationPhase.draining WorldDrainNextAction.wait_for_drain
on_phase WorldDrainPhase.drained drain transfer migration =
    check_transfer transfer migration (first_status drain)

unfoldable pub evaluate_world_drain_orchestration :
    WorldDrainStatus
    → Option WorldTransferStatus
    → Option WorldMigrationStatus
    → WorldDrainOrchestrationStatus
evaluate_world_drain_orchestration drain transfer migration =
    if not drain.summary.drain_declared
    then first_status drain
    else on_phase drain.phase drain transfer migration
