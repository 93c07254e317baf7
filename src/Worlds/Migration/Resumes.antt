-- ===== src/Worlds/Migration/Resumes.antt =====
-- When a world may resume on its target.
use dynaxis.Base.{
  String, ◌≡◌, refl, Bool, true, false, ◌&&◌, List, [], ◌∷◌, Option, none, some, inl, inr, arith,
  str_eq, Bool-cases,
}
use dynaxis.Worlds.Transfer.{is_blank}
use dynaxis.Worlds.Migration.{
  WorldMigrationEnvelope, ObservedWorldMigrationInstance, ObservedWorldMigrationWorld,
  is_ready_to_resume, first_owner, migration_phase, judge_target, evaluate_world_migration,
}

-- The first instance of the given name is ready.
pub data FirstReady (name : String) : List ObservedWorldMigrationInstance → Type 0 where
  here :
      {i : ObservedWorldMigrationInstance} {is : List ObservedWorldMigrationInstance}
      → str_eq i.instance_id name ≡ true
      → i.ready ≡ true
      → FirstReady name (i ∷ is)
  later :
      {i : ObservedWorldMigrationInstance} {is : List ObservedWorldMigrationInstance}
      → str_eq i.instance_id name ≡ false
      → FirstReady name is
      → FirstReady name (i ∷ is)

abbrev pub is_some_ready : Option Bool → Bool
is_some_ready none = false
is_some_ready (some ready) = ready

first_owner-FirstReady :
    (name : String) (is : List ObservedWorldMigrationInstance)
    → is_some_ready (first_owner name is) ≡ true
    → FirstReady name is
unfolding first_owner
first_owner-FirstReady name [] h = cc
first_owner-FirstReady name (i ∷ is) h = elim (Bool-cases (str_eq i.instance_id name)) [
  | inl same ↦ FirstReady.here same (ground (arith, h, same))
  | inr differs ↦
      FirstReady.later differs (first_owner-FirstReady name is (ground (arith, h, differs)))
]

resume_phase :
    (o : Option Bool) (draining : Bool)
    → is_ready_to_resume (migration_phase o draining) ≡ (is_some_ready o && draining)
unfolding migration_phase
resume_phase none draining = refl
resume_phase (some ready) draining = ground arith

-- A source that drains, an envelope, and a target world where the first instance that bears the
-- name of the new owner is ready.
pub CanResume :
    ObservedWorldMigrationWorld
    → Option WorldMigrationEnvelope
    → Option ObservedWorldMigrationWorld
    → Type 0
CanResume source (some envelope) (some target) =
    (source.draining ≡ true)
    × (is_blank target.world_id ≡ false)
    × FirstReady envelope.target_owner_instance_id target.instances
CanResume source _ _ = ⊥

-- A migration is judged ready to resume only if the source world is draining, and there are an
-- envelope and a target world with a name, where the first instance that bears the name of the new
-- owner is ready.
pub evaluate_world_migration-CanResume :
    (source : ObservedWorldMigrationWorld) (envelope : Option WorldMigrationEnvelope)
    (target : Option ObservedWorldMigrationWorld)
    → is_ready_to_resume (evaluate_world_migration source envelope target).phase ≡ true
    → CanResume source envelope target
unfolding evaluate_world_migration judge_target CanResume
evaluate_world_migration-CanResume source none target h = ground (arith, h)
evaluate_world_migration-CanResume source (some envelope) none h = ground (arith, h)
evaluate_world_migration-CanResume source (some envelope) (some target) h =
    let owner = first_owner envelope.target_owner_instance_id target.instances in
    let phase = resume_phase owner source.draining in
    let ready : is_some_ready owner ≡ true = ground (arith, h, phase) in
    (
      ground (arith, h, phase),
      ground (arith, h),
      first_owner-FirstReady envelope.target_owner_instance_id target.instances ready,
    )
