-- ===== src/Worlds/Orchestration/Clears.antt =====
-- When the drain policy of a world may be cleared.
use dynaxis.Base.{
  ◌^◌, ◌<◌, ◌≡◌, refl, Bool, true, false, not, ◌&&◌, ◌||◌, Option, none, some, arith,
}
use dynaxis.Worlds.Transfer.{
  WorldTransferStatus, is_committed, ObservedWorldTransferState, evaluate_world_transfer,
}
use dynaxis.Worlds.Transfer.Targets.{IsCommitted, evaluate_world_transfer-IsCommitted}
use dynaxis.Worlds.Migration.{WorldMigrationStatus, is_ready_to_resume}
use dynaxis.Worlds.Drain.{
  WorldDrainPhase, WorldDrainStatus, is_drained, ObservedWorldDrainState, evaluate_world_drain,
}
use dynaxis.Worlds.Drain.Drained.{sessions, IsDrained, evaluate_world_drain-IsDrained}
use dynaxis.Worlds.Orchestration.{
  WorldDrainOrchestrationStatus, check_migration, check_transfer, on_phase, first_status,
  evaluate_world_drain_orchestration,
}

-- A transfer that stands in the way of nothing: none is declared, or it is committed.
abbrev pub is_transferred : Option WorldTransferStatus → Bool
is_transferred none = true
is_transferred (some t) = not t.summary.transfer_declared || is_committed t.phase

-- A migration that stands in the way of nothing: there is no envelope, or the target may resume.
abbrev pub is_migrated : Option WorldMigrationStatus → Bool
is_migrated none = true
is_migrated (some m) = not m.summary.envelope_present || is_ready_to_resume m.phase

check_migration_clears :
    (migration : Option WorldMigrationStatus) (out : WorldDrainOrchestrationStatus)
    → out.summary.clear_allowed ≡ false
    → (check_migration migration out).summary.clear_allowed ≡ is_migrated migration
unfolding check_migration
check_migration_clears none out h = refl
check_migration_clears (some m) out h = ground (arith, h)

check_transfer_clears :
    (transfer : Option WorldTransferStatus) (migration : Option WorldMigrationStatus)
    (out : WorldDrainOrchestrationStatus)
    → out.summary.clear_allowed ≡ false
    → (check_transfer transfer migration out).summary.clear_allowed
      ≡ (is_transferred transfer && is_migrated migration)
unfolding check_transfer
check_transfer_clears none migration out h = check_migration_clears migration out h
check_transfer_clears (some t) migration out h =
    let declared = record out {
      target_owner_instance_id = t.target_owner_instance_id;
      summary = record (out.summary) {
        transfer_declared = true;
        transfer_committed = is_committed t.phase;
      };
    } in
    ground (
      arith,
      h,
      check_migration_clears migration out h,
      check_migration_clears migration declared h,
    )

on_phase_clears :
    (phase : WorldDrainPhase) (drain : WorldDrainStatus) (transfer : Option WorldTransferStatus)
    (migration : Option WorldMigrationStatus)
    → (on_phase phase drain transfer migration).summary.clear_allowed
      ≡ (is_drained phase && (is_transferred transfer && is_migrated migration))
unfolding on_phase
on_phase_clears WorldDrainPhase.idle drain transfer migration = refl
on_phase_clears WorldDrainPhase.replacement_target_missing drain transfer migration = refl
on_phase_clears WorldDrainPhase.replacement_target_not_ready drain transfer migration = refl
on_phase_clears WorldDrainPhase.draining_sessions drain transfer migration = refl
on_phase_clears WorldDrainPhase.drained drain transfer migration =
    check_transfer_clears transfer migration (first_status drain) refl

-- The policy may be cleared exactly if the drain is declared and over, no transfer is declared or
-- it is committed, and there is no migration envelope or its target is ready to resume.
pub clear_allowed_lem :
    (drain : WorldDrainStatus) (transfer : Option WorldTransferStatus)
    (migration : Option WorldMigrationStatus)
    → (evaluate_world_drain_orchestration drain transfer migration).summary.clear_allowed ≡ (
        drain.summary.drain_declared
        && (is_drained drain.phase && (is_transferred transfer && is_migrated migration)))
unfolding evaluate_world_drain_orchestration
clear_allowed_lem drain transfer migration =
    ground (arith, on_phase_clears drain.phase drain transfer migration)

-- For an observed drain and a transfer declared by an observation: if the policy may be cleared,
-- the world is draining, no instance has a session, a replacement that is named has a ready
-- instance, and the world's owner is the replacement of the transfer, which is ready, where all
-- sessions together are below 2 ^ 32.
pub clear_allowed-IsDrained :
    (state : ObservedWorldDrainState) (handoff : ObservedWorldTransferState)
    (migration : Option WorldMigrationStatus)
    → sessions state.instances < 2 ^ 32
    → (evaluate_world_transfer handoff).summary.transfer_declared ≡ true
    → (evaluate_world_drain_orchestration
        (evaluate_world_drain state)
        (some (evaluate_world_transfer handoff))
        migration).summary.clear_allowed
      ≡ true
    → IsDrained state × IsCommitted handoff
clear_allowed-IsDrained state handoff migration few declared allowed =
    let e =
      clear_allowed_lem (evaluate_world_drain state) (some (evaluate_world_transfer handoff))
        migration in
    (
      evaluate_world_drain-IsDrained state few (ground (arith, e, allowed)),
      evaluate_world_transfer-IsCommitted handoff (ground (arith, e, allowed, declared)),
    )
