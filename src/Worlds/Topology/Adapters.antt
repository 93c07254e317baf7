-- ===== src/Worlds/Topology/Adapters.antt =====
-- core/include/server/core/worlds/topology.hpp: `evaluate_topology_actuation_adapter_status` joins
-- the lease of a scaling adapter with the execution and its realization, and a runtime's assignment
-- is looked up. What the loop counts is a fold over what it pushes.
pub mod Lookups
pub mod Realized
pub mod Closes
pub mod Backed
pub mod Tallies
use dynaxis.Base.{
  ℕ, ◌+◌, String, Bool, true, false, not, Option, none, some, List, [], ◌∷◌, if◌then◌else◌, ◌==◌,
  ◌&&◌, ◌||◌, str_eq, u32, length, map, option_map, ℤ, find, index_from,
}
use dynaxis.Worlds.Topology.Pools.{DesiredTopologyDocument, ObservedTopologyPool, make_pool_key}
use dynaxis.Worlds.Topology.Reconcile.{has_value}
use dynaxis.Worlds.Topology.Plan.{TopologyActuationActionKind}
use dynaxis.Worlds.Topology.Requests.{TopologyActuationRequestDocument, is_same_action}
use dynaxis.Worlds.Topology.Executions.{
  TopologyActuationExecutionDocument, TopologyActuationExecutionStatusState,
  TopologyActuationExecutionActionStatus, evaluate_topology_actuation_execution_status,
}
use dynaxis.Worlds.Topology.Realizations.{
  TopologyActuationRealizationState, TopologyActuationRealizationActionStatus, executed_key,
  evaluate_topology_actuation_realization_status,
}

pub record TopologyActuationAdapterLeaseAction : Type 0 where
  pub world_id : String
  pub shard : String
  pub action : TopologyActuationActionKind
  pub replica_delta : ℤ

pub record TopologyActuationAdapterLeaseDocument : Type 0 where
  pub adapter_id : String
  pub revision : ℕ
  pub leased_at_ms : ℕ
  pub execution_revision : ℕ
  pub actions : List TopologyActuationAdapterLeaseAction

pub data TopologyActuationAdapterStatusState : Type 0 where
  available leased awaiting_realization : TopologyActuationAdapterStatusState
  realized failed stale : TopologyActuationAdapterStatusState

pub record TopologyActuationAdapterStatusAction : Type 0 where
  pub world_id : String
  pub shard : String
  pub requested_action : TopologyActuationActionKind
  pub requested_replica_delta : ℤ
  pub state : TopologyActuationAdapterStatusState
  pub execution_state : Option TopologyActuationExecutionStatusState
  pub realization_state : Option TopologyActuationRealizationState

pub record TopologyActuationAdapterStatusSummary : Type 0 where
  pub execution_present : Bool
  pub lease_present : Bool
  pub lease_revision_matches_current_execution : Bool
  pub lease_execution_revision : ℕ
  pub current_execution_revision : ℕ
  pub actions_total : ℕ
  pub available_actions : ℕ
  pub leased_actions : ℕ
  pub awaiting_realization_actions : ℕ
  pub realized_actions : ℕ
  pub failed_actions : ℕ
  pub stale_actions : ℕ

pub record TopologyActuationAdapterStatus : Type 0 where
  pub summary : TopologyActuationAdapterStatusSummary
  pub actions : List TopologyActuationAdapterStatusAction

abbrev pub lease_key : TopologyActuationAdapterLeaseAction → String
lease_key action = make_pool_key action.world_id action.shard

abbrev pub realization_key : TopologyActuationRealizationActionStatus → String
realization_key action = make_pool_key action.world_id action.shard

abbrev pub leased_actions_of :
    Option TopologyActuationAdapterLeaseDocument → List TopologyActuationAdapterLeaseAction
leased_actions_of none = []
leased_actions_of (some lease) = lease.actions

abbrev pub lease_index :
    Option TopologyActuationAdapterLeaseDocument
    → List (String × TopologyActuationAdapterLeaseAction)
lease_index lease = index_from lease_key [] (leased_actions_of lease)

abbrev pub realization_index :
    List TopologyActuationRealizationActionStatus
    → List (String × TopologyActuationRealizationActionStatus)
realization_index actions = index_from realization_key [] actions

-- Whether a lease is for the action requested.
abbrev pub lease_matches_action :
    Option TopologyActuationAdapterLeaseAction → TopologyActuationExecutionActionStatus → Bool
lease_matches_action none action = false
lease_matches_action (some lease) action =
    is_same_action lease.action lease.replica_delta action.requested_action
      action.requested_replica_delta

-- `std::optional` set against a value.
abbrev pub is_now_realized : Option TopologyActuationRealizationState → Bool
is_now_realized (some TopologyActuationRealizationState.realized) = true
is_now_realized _ = false

abbrev pub is_awaiting : Option TopologyActuationRealizationState → Bool
is_awaiting (some TopologyActuationRealizationState.awaiting_observation) = true
is_awaiting _ = false

abbrev pub is_stale : TopologyActuationExecutionStatusState → Bool
is_stale TopologyActuationExecutionStatusState.stale = true
is_stale _ = false

abbrev pub is_failed : TopologyActuationExecutionStatusState → Bool
is_failed TopologyActuationExecutionStatusState.failed = true
is_failed _ = false

abbrev pub if_leased :
    Bool → TopologyActuationAdapterStatusState → TopologyActuationAdapterStatusState
if_leased found state = if found then state else TopologyActuationAdapterStatusState.available

-- The branches; `found` says that the lease has the pool, `matches` that it is for this action and
-- `current` that the lease's revision is the execution's.
unfoldable pub adapter_state :
    Bool
    → Bool
    → Bool
    → TopologyActuationExecutionStatusState
    → Option TopologyActuationRealizationState
    → TopologyActuationAdapterStatusState
adapter_state current found matches execution realization =
    if is_stale execution || (found && (not current || not matches))
    then TopologyActuationAdapterStatusState.stale
    else if is_now_realized realization
    then TopologyActuationAdapterStatusState.realized
    else if is_awaiting realization
    then if_leased found TopologyActuationAdapterStatusState.awaiting_realization
    else if is_failed execution
    then if_leased found TopologyActuationAdapterStatusState.failed
    else if found && matches
    then TopologyActuationAdapterStatusState.leased
    else TopologyActuationAdapterStatusState.available

-- One turn of the loop over the actions of the execution's status, with what the lease and the
-- realization have for the pool.
unfoldable pub judge_adapter :
    Bool
    → Option TopologyActuationAdapterLeaseAction
    → Option TopologyActuationRealizationActionStatus
    → TopologyActuationExecutionActionStatus
    → TopologyActuationAdapterStatusAction
judge_adapter current lease realization action =
    let result = option_map (λ r. r.state) realization in
    record {
      world_id = action.world_id;
      shard = action.shard;
      requested_action = action.requested_action;
      requested_replica_delta = action.requested_replica_delta;
      state =
          adapter_state current (has_value lease) (lease_matches_action lease action) action.state
            result;
      execution_state = some action.state;
      realization_state = result;
    }

unfoldable pub count_adapter :
    TopologyActuationAdapterStatusState
    → TopologyActuationAdapterStatusSummary
    → TopologyActuationAdapterStatusSummary
count_adapter TopologyActuationAdapterStatusState.available s = record s {
  available_actions = u32 (s.available_actions + 1);
}
count_adapter TopologyActuationAdapterStatusState.leased s = record s {
  leased_actions = u32 (s.leased_actions + 1);
}
count_adapter TopologyActuationAdapterStatusState.awaiting_realization s = record s {
  awaiting_realization_actions = u32 (s.awaiting_realization_actions + 1);
}
count_adapter TopologyActuationAdapterStatusState.realized s = record s {
  realized_actions = u32 (s.realized_actions + 1);
}
count_adapter TopologyActuationAdapterStatusState.failed s = record s {
  failed_actions = u32 (s.failed_actions + 1);
}
count_adapter TopologyActuationAdapterStatusState.stale s = record s {
  stale_actions = u32 (s.stale_actions + 1);
}

unfoldable pub count_adapters :
    TopologyActuationAdapterStatusSummary
    → List TopologyActuationAdapterStatusAction
    → TopologyActuationAdapterStatusSummary
count_adapters s [] = s
count_adapters s (a ∷ actions) = count_adapters (count_adapter a.state s) actions

abbrev pub lease_revision_of : Option TopologyActuationAdapterLeaseDocument → ℕ
lease_revision_of none = 0
lease_revision_of (some lease) = lease.execution_revision

abbrev pub execution_revision_of : Option TopologyActuationExecutionDocument → ℕ
execution_revision_of none = 0
execution_revision_of (some execution) = execution.revision

unfoldable pub lease_revision_matches :
    Option TopologyActuationAdapterLeaseDocument → Option TopologyActuationExecutionDocument → Bool
lease_revision_matches lease execution =
    has_value lease
    && has_value execution
    && (lease_revision_of lease == execution_revision_of execution)

unfoldable pub evaluate_topology_actuation_adapter_status :
    Option TopologyActuationAdapterLeaseDocument
    → Option TopologyActuationExecutionDocument
    → Option TopologyActuationRequestDocument
    → Option DesiredTopologyDocument
    → List ObservedTopologyPool
    → TopologyActuationAdapterStatus
evaluate_topology_actuation_adapter_status lease execution request desired observed =
    let current = lease_revision_matches lease execution in
    let executions =
      evaluate_topology_actuation_execution_status execution request desired observed in
    let realizations =
      evaluate_topology_actuation_realization_status execution request desired observed in
    let lease_of : String → Option TopologyActuationAdapterLeaseAction =
      λ key. find (lease_index lease) key in
    let realization_of : String → Option TopologyActuationRealizationActionStatus =
      λ key. find (realization_index realizations.actions) key in
    let actions =
      map
        (λ a. judge_adapter current (lease_of (executed_key a)) (realization_of (executed_key a)) a)
        executions.actions in
    record {
      summary =
          count_adapters
            record {
              execution_present = has_value execution;
              lease_present = has_value lease;
              lease_revision_matches_current_execution = current;
              lease_execution_revision = lease_revision_of lease;
              current_execution_revision = execution_revision_of execution;
              actions_total = u32 (length actions);
              available_actions = 0;
              leased_actions = 0;
              awaiting_realization_actions = 0;
              realized_actions = 0;
              failed_actions = 0;
              stale_actions = 0;
            }
            actions;
      actions = actions;
    }

pub record TopologyActuationRuntimeAssignmentItem : Type 0 where
  pub instance_id : String
  pub world_id : String
  pub shard : String
  pub action : TopologyActuationActionKind

pub record TopologyActuationRuntimeAssignmentDocument : Type 0 where
  pub adapter_id : String
  pub revision : ℕ
  pub updated_at_ms : ℕ
  pub lease_revision : ℕ
  pub assignments : List TopologyActuationRuntimeAssignmentItem

unfoldable pub find_assignment :
    List TopologyActuationRuntimeAssignmentItem
    → String
    → Option TopologyActuationRuntimeAssignmentItem
find_assignment [] instance_id = none
find_assignment (a ∷ assignments) instance_id =
    let rest = find_assignment assignments instance_id in
    if str_eq a.instance_id instance_id then some a else rest

unfoldable pub find_topology_actuation_runtime_assignment :
    TopologyActuationRuntimeAssignmentDocument
    → String
    → Option TopologyActuationRuntimeAssignmentItem
find_topology_actuation_runtime_assignment document instance_id =
    find_assignment document.assignments instance_id
