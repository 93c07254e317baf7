-- ===== src/Worlds/Topology/Plan.antt =====
-- core/include/server/core/worlds/topology.hpp: `plan_topology_actuation` turns what is not aligned
-- into actions.
pub mod Lookups
pub mod Expected
use dynaxis.Base.{
  ℕ, ◌+◌, ◌-◌, ◌^◌, String, Bool, true, false, Option, none, some, List, [], ◌∷◌, if◌then◌else◌,
  ltb, ◌==◌, ◌&&◌, u32, length, ℤ, pos, negsuc, ◌-ℤ◌, above, below,
}
use dynaxis.Worlds.Topology.Pools.{DesiredTopologyDocument, ObservedTopologyPool, make_pool_key}
use dynaxis.Worlds.Topology.Reconcile.{
  TopologyPoolStatus, ReconciledTopologyPool, reconcile_topology,
}

pub data TopologyActuationActionKind : Type 0 where
  scale_out_pool scale_in_pool restore_pool_readiness : TopologyActuationActionKind
  observe_undeclared_pool : TopologyActuationActionKind

-- The value of the enumeration, by which two kinds are compared.
abbrev pub kind_value : TopologyActuationActionKind → ℕ
kind_value TopologyActuationActionKind.scale_out_pool = 0
kind_value TopologyActuationActionKind.scale_in_pool = 1
kind_value TopologyActuationActionKind.restore_pool_readiness = 2
kind_value TopologyActuationActionKind.observe_undeclared_pool = 3

pub record TopologyActuationAction : Type 0 where
  pub world_id : String
  pub shard : String
  pub status : TopologyPoolStatus
  pub action : TopologyActuationActionKind
  pub desired_replicas : ℕ
  pub observed_instances : ℕ
  pub ready_instances : ℕ
  pub replica_delta : ℤ
  pub actionable : Bool

pub record TopologyActuationPlanSummary : Type 0 where
  pub desired_present : Bool
  pub actions_total : ℕ
  pub actionable_actions : ℕ
  pub scale_out_actions : ℕ
  pub scale_in_actions : ℕ
  pub readiness_recovery_actions : ℕ
  pub observe_only_actions : ℕ

pub record TopologyActuationPlan : Type 0 where
  pub summary : TopologyActuationPlanSummary
  pub actions : List TopologyActuationAction

abbrev pub action_key : TopologyActuationAction → String
action_key action = make_pool_key action.world_id action.shard

-- `static_cast<std::int32_t>` of a word of 32 bits.
abbrev pub to_i32 : ℕ → ℤ
to_i32 n = if ltb n (2 ^ 31) then pos n else negsuc (2 ^ 32 - n - 1)

abbrev pub eq_ℤ : ℤ → ℤ → Bool
eq_ℤ x y = (above x == above y) && (below x == below y)

abbrev pub action_of :
    ReconciledTopologyPool → TopologyActuationActionKind → ℤ → Bool → TopologyActuationAction
action_of pool kind delta actionable = record {
  world_id = pool.world_id;
  shard = pool.shard;
  status = pool.status;
  action = kind;
  desired_replicas = pool.desired_replicas;
  observed_instances = pool.observed_instances;
  ready_instances = pool.ready_instances;
  replica_delta = delta;
  actionable = actionable;
}

-- The `switch` over the status. The difference of two counts below 2 ^ 31 fits; beyond that the
-- subtraction of the source is not defined, and the model's has no bound.
unfoldable pub action_for :
    TopologyPoolStatus → ReconciledTopologyPool → Option TopologyActuationAction
action_for TopologyPoolStatus.aligned pool = none
action_for TopologyPoolStatus.missing_observed_pool pool =
    let delta = to_i32 pool.desired_replicas -ℤ to_i32 pool.observed_instances in
    some (action_of pool TopologyActuationActionKind.scale_out_pool delta true)
action_for TopologyPoolStatus.under_replicated pool =
    let delta = to_i32 pool.desired_replicas -ℤ to_i32 pool.observed_instances in
    some (action_of pool TopologyActuationActionKind.scale_out_pool delta true)
action_for TopologyPoolStatus.over_replicated pool =
    let delta = to_i32 pool.observed_instances -ℤ to_i32 pool.desired_replicas in
    some (action_of pool TopologyActuationActionKind.scale_in_pool delta true)
action_for TopologyPoolStatus.no_ready_instances pool =
    some (action_of pool TopologyActuationActionKind.restore_pool_readiness (pos 0) true)
action_for TopologyPoolStatus.undeclared_observed_pool pool =
    let delta = to_i32 pool.observed_instances in
    some (action_of pool TopologyActuationActionKind.observe_undeclared_pool delta false)

abbrev pub plan_pool : ReconciledTopologyPool → Option TopologyActuationAction
plan_pool pool = action_for pool.status pool

abbrev pub add_action {ℓ} : {A : Type ℓ} → Option A → List A → List A
add_action none actions = actions
add_action (some action) actions = action ∷ actions

unfoldable pub plan_pools : List ReconciledTopologyPool → List TopologyActuationAction
plan_pools [] = []
plan_pools (pool ∷ pools) = add_action (plan_pool pool) (plan_pools pools)

-- The counters that an action increments.
unfoldable pub count_action :
    TopologyActuationActionKind → TopologyActuationPlanSummary → TopologyActuationPlanSummary
count_action TopologyActuationActionKind.scale_out_pool s = record s {
  scale_out_actions = u32 (s.scale_out_actions + 1);
  actionable_actions = u32 (s.actionable_actions + 1);
}
count_action TopologyActuationActionKind.scale_in_pool s = record s {
  scale_in_actions = u32 (s.scale_in_actions + 1);
  actionable_actions = u32 (s.actionable_actions + 1);
}
count_action TopologyActuationActionKind.restore_pool_readiness s = record s {
  readiness_recovery_actions = u32 (s.readiness_recovery_actions + 1);
  actionable_actions = u32 (s.actionable_actions + 1);
}
count_action TopologyActuationActionKind.observe_undeclared_pool s = record s {
  observe_only_actions = u32 (s.observe_only_actions + 1);
}

unfoldable pub count_actions :
    TopologyActuationPlanSummary → List TopologyActuationAction → TopologyActuationPlanSummary
count_actions s [] = s
count_actions s (a ∷ actions) = count_actions (count_action a.action s) actions

unfoldable pub plan_topology_actuation :
    Option DesiredTopologyDocument → List ObservedTopologyPool → TopologyActuationPlan
plan_topology_actuation desired observed =
    let reconciliation = reconcile_topology desired observed in
    let actions = plan_pools reconciliation.pools in
    record {
      summary =
          count_actions
            record {
              desired_present = reconciliation.summary.desired_present;
              actions_total = u32 (length actions);
              actionable_actions = 0;
              scale_out_actions = 0;
              scale_in_actions = 0;
              readiness_recovery_actions = 0;
              observe_only_actions = 0;
            }
            actions;
      actions = actions;
    }
