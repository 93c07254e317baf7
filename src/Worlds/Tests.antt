-- ===== src/Worlds/Tests.antt =====
-- The theorems about worlds at concrete inputs.
use dynaxis.Base.{◌≡◌, refl, true, false, ◌&&◌, [], ◌∷◌, none, some, arith}
use dynaxis.Worlds.Transfer.{
  ObservedWorldTransferState, evaluate_world_transfer, note_instance, note_instances,
  transfer_summary, transfer_phase, is_committed,
}
use dynaxis.Worlds.Transfer.Targets.{IsCommitted}
use dynaxis.Worlds.Drain as Drain
use dynaxis.Worlds.Drain.{
  ObservedWorldDrainState, evaluate_world_drain, drain_summary, drain_phase, is_drained,
}
use dynaxis.Worlds.Drain.Drained.{IsDrained, evaluate_world_drain-IsDrained}
use dynaxis.Worlds.Migration.{
  WorldMigrationEnvelope, ObservedWorldMigrationWorld, is_ready_to_resume, first_owner,
  migration_phase, judge_target, evaluate_world_migration,
}
use dynaxis.Worlds.Orchestration.{
  evaluate_world_drain_orchestration, on_phase, check_transfer, check_migration,
}
use dynaxis.Worlds.Orchestration.Clears.{
  is_transferred, is_migrated, clear_allowed_lem, clear_allowed-IsDrained,
}

-- A world whose owner `b` has taken over from `a`, and whose sessions are gone.
abbrev quiet_world : ObservedWorldDrainState
quiet_world = record {
  world_id = "w1";
  owner_instance_id = "a";
  draining = true;
  replacement_owner_instance_id = "b";
  instances =
      record { instance_id = "a"; ready = false; active_sessions = 0 }
      ∷ record { instance_id = "b"; ready = true; active_sessions = 0 }
      ∷ [];
}

abbrev handed_over : ObservedWorldTransferState
handed_over = record {
  world_id = "w1";
  owner_instance_id = "b";
  draining = true;
  replacement_owner_instance_id = "b";
  instances =
      record { instance_id = "a"; ready = false } ∷ record { instance_id = "b"; ready = true } ∷ [];
}

quiet_world_drained : is_drained (evaluate_world_drain quiet_world).phase ≡ true
unfolding evaluate_world_drain drain_summary drain_phase Drain.note_instances Drain.note_instance
quiet_world_drained = refl

evaluate_world_drain-IsDrained_example : IsDrained quiet_world
evaluate_world_drain-IsDrained_example =
    evaluate_world_drain-IsDrained quiet_world (omega arith) quiet_world_drained

handed_over_committed : is_committed (evaluate_world_transfer handed_over).phase ≡ true
unfolding evaluate_world_transfer transfer_summary transfer_phase note_instances note_instance
handed_over_committed = refl

handed_over_declared : (evaluate_world_transfer handed_over).summary.transfer_declared ≡ true
unfolding evaluate_world_transfer transfer_summary note_instances note_instance
handed_over_declared = refl

clear_allowed_example :
    (evaluate_world_drain_orchestration
      (evaluate_world_drain quiet_world)
      (some (evaluate_world_transfer handed_over))
      none).summary.clear_allowed
    ≡ ((evaluate_world_drain quiet_world).summary.drain_declared
        && (is_drained (evaluate_world_drain quiet_world).phase
            && (is_transferred (some (evaluate_world_transfer handed_over)) && is_migrated none)))
clear_allowed_example =
    clear_allowed_lem (evaluate_world_drain quiet_world)
      (some (evaluate_world_transfer handed_over)) none

quiet_world_clears :
    (evaluate_world_drain_orchestration
      (evaluate_world_drain quiet_world)
      (some (evaluate_world_transfer handed_over))
      none).summary.clear_allowed
    ≡ true
unfolding evaluate_world_drain drain_summary drain_phase Drain.note_instances Drain.note_instance
    evaluate_world_transfer transfer_summary transfer_phase note_instances note_instance
    evaluate_world_drain_orchestration on_phase check_transfer check_migration
quiet_world_clears = refl

clear_allowed-IsDrained_example : IsDrained quiet_world × IsCommitted handed_over
clear_allowed-IsDrained_example =
    clear_allowed-IsDrained quiet_world handed_over none (omega arith) handed_over_declared
      quiet_world_clears

abbrev envelope_to_b : WorldMigrationEnvelope
envelope_to_b = record {
  target_world_id = "w2";
  target_owner_instance_id = "b";
  preserve_room = true;
  payload_kind = "room";
  payload_ref = "r1";
  updated_at_ms = 7;
}

abbrev source_world : ObservedWorldMigrationWorld
source_world = record {
  world_id = "w1";
  current_owner_instance_id = "a";
  draining = true;
  instances = [];
}

abbrev target_world : ObservedWorldMigrationWorld
target_world = record {
  world_id = "w2";
  current_owner_instance_id = "b";
  draining = false;
  instances = record { instance_id = "b"; ready = true } ∷ [];
}

ready_to_resume :
    is_ready_to_resume
      (evaluate_world_migration source_world (some envelope_to_b) (some target_world)).phase
    ≡ true
unfolding evaluate_world_migration judge_target first_owner migration_phase
ready_to_resume = refl
