-- ===== src/Worlds/Migration.antt =====
-- The judgement of core/include/server/core/worlds/migration.hpp on a world that moves to another.
pub mod Resumes
use dynaxis.Base.{
  ℕ, String, Bool, true, false, not, ◌&&◌, List, [], ◌∷◌, Option, none, some, if◌then◌else◌, str_eq,
}
use dynaxis.Worlds.Transfer.{is_blank}

pub record WorldMigrationEnvelope : Type 0 where
  pub target_world_id : String
  pub target_owner_instance_id : String
  pub preserve_room : Bool
  pub payload_kind : String
  pub payload_ref : String
  pub updated_at_ms : ℕ

pub record ObservedWorldMigrationInstance : Type 0 where
  pub instance_id : String
  pub ready : Bool

pub record ObservedWorldMigrationWorld : Type 0 where
  pub world_id : String
  pub current_owner_instance_id : String
  pub draining : Bool
  pub instances : List ObservedWorldMigrationInstance

pub data WorldMigrationPhase : Type 0 where
  idle target_world_missing target_owner_missing : WorldMigrationPhase
  target_owner_not_ready awaiting_source_drain ready_to_resume : WorldMigrationPhase

abbrev pub is_ready_to_resume : WorldMigrationPhase → Bool
is_ready_to_resume WorldMigrationPhase.ready_to_resume = true
is_ready_to_resume _ = false

pub record WorldMigrationSummary : Type 0 where
  pub envelope_present : Bool
  pub source_draining : Bool
  pub target_world_present : Bool
  pub target_owner_present : Bool
  pub target_owner_ready : Bool
  pub target_owner_matches_target_world_owner : Bool
  pub preserve_room : Bool

pub record WorldMigrationStatus : Type 0 where
  pub source_world_id : String
  pub target_world_id : String
  pub target_owner_instance_id : String
  pub payload_kind : String
  pub payload_ref : String
  pub phase : WorldMigrationPhase
  pub summary : WorldMigrationSummary

-- The status before the loop, without an envelope.
abbrev pub idle_status : ObservedWorldMigrationWorld → WorldMigrationStatus
idle_status source_world = record {
  source_world_id = source_world.world_id;
  target_world_id = "";
  target_owner_instance_id = "";
  payload_kind = "";
  payload_ref = "";
  phase = WorldMigrationPhase.idle;
  summary = record {
    envelope_present = false;
    source_draining = source_world.draining;
    target_world_present = false;
    target_owner_present = false;
    target_owner_ready = false;
    target_owner_matches_target_world_owner = false;
    preserve_room = false;
  };
}

abbrev pub with_envelope : WorldMigrationStatus → WorldMigrationEnvelope → WorldMigrationStatus
with_envelope out envelope = record out {
  target_world_id = envelope.target_world_id;
  target_owner_instance_id = envelope.target_owner_instance_id;
  payload_kind = envelope.payload_kind;
  payload_ref = envelope.payload_ref;
  summary = record (out.summary) {
    envelope_present = true;
    preserve_room = envelope.preserve_room;
  };
}

-- The loop over the instances of the target world, which stops at the first of the given name.
unfoldable pub first_owner : String → List ObservedWorldMigrationInstance → Option Bool
first_owner owner [] = none
first_owner owner (i ∷ is) =
    let rest = first_owner owner is in
    if not (str_eq i.instance_id owner) then rest else some i.ready

unfoldable pub migration_phase : Option Bool → Bool → WorldMigrationPhase
migration_phase none source_draining = WorldMigrationPhase.target_owner_missing
migration_phase (some ready) source_draining =
    if not ready
    then WorldMigrationPhase.target_owner_not_ready
    else if not source_draining
    then WorldMigrationPhase.awaiting_source_drain
    else WorldMigrationPhase.ready_to_resume

abbrev found_any : Option Bool → Bool
found_any none = false
found_any (some ready) = true

abbrev found_ready : Option Bool → Bool
found_ready none = false
found_ready (some ready) = ready

-- What follows once there is an envelope and a target world.
unfoldable pub judge_target :
    WorldMigrationStatus
    → ObservedWorldMigrationWorld
    → WorldMigrationEnvelope
    → ObservedWorldMigrationWorld
    → WorldMigrationStatus
judge_target out source_world envelope target_world =
    let owner = first_owner envelope.target_owner_instance_id target_world.instances in
    record out {
      phase = migration_phase owner source_world.draining;
      summary = record (out.summary) {
        target_world_present = true;
        target_owner_present = found_any owner;
        target_owner_ready = found_ready owner;
        target_owner_matches_target_world_owner =
            not (is_blank target_world.current_owner_instance_id)
            && str_eq target_world.current_owner_instance_id envelope.target_owner_instance_id;
      };
    }

unfoldable pub evaluate_world_migration :
    ObservedWorldMigrationWorld
    → Option WorldMigrationEnvelope
    → Option ObservedWorldMigrationWorld
    → WorldMigrationStatus
evaluate_world_migration source_world none target_world = idle_status source_world
evaluate_world_migration source_world (some envelope) none =
    record (with_envelope (idle_status source_world) envelope) {
      phase = WorldMigrationPhase.target_world_missing;
    }
evaluate_world_migration source_world (some envelope) (some target_world) =
    let out = with_envelope (idle_status source_world) envelope in
    if is_blank target_world.world_id
    then record out { phase = WorldMigrationPhase.target_world_missing }
    else judge_target out source_world envelope target_world
