-- ===== src/Worlds/Topology/Realizations.antt =====
-- core/include/server/core/worlds/topology.hpp: `evaluate_topology_actuation_realization_status`
-- judges from the pools observed whether a completed execution took effect. What the loop counts is
-- a fold over what it pushes.
use dynaxis.Base.{
  ℕ, ◌+◌, String, Bool, false, Option, none, some, List, [], ◌∷◌, if◌then◌else◌, ltb, leb, ◌==◌,
  ◌&&◌, u32, length, map, ℤ, above, find,
}
use dynaxis.Worlds.Topology.Pools.{DesiredTopologyDocument, ObservedTopologyPool, make_pool_key}
use dynaxis.Worlds.Topology.Reconcile.{observed_index}
use dynaxis.Worlds.Topology.Plan.{TopologyActuationActionKind}
use dynaxis.Worlds.Topology.Requests.{
  TopologyActuationRequestDocument, TopologyActuationRequestActionState,
}
use dynaxis.Worlds.Topology.Executions.{
  TopologyActuationExecutionDocument, TopologyActuationExecutionItem,
  TopologyActuationExecutionActionState, TopologyActuationExecutionStatusState,
  TopologyActuationExecutionActionStatus, TopologyActuationExecutionStatusSummary, execution_index,
  evaluate_topology_actuation_execution_status,
}

pub data TopologyActuationRealizationState : Type 0 where
  available claimed awaiting_observation : TopologyActuationRealizationState
  realized failed stale : TopologyActuationRealizationState

pub record TopologyActuationRealizationActionStatus : Type 0 where
  pub world_id : String
  pub shard : String
  pub requested_action : TopologyActuationActionKind
  pub requested_replica_delta : ℤ
  pub state : TopologyActuationRealizationState
  pub request_state : Option TopologyActuationRequestActionState
  pub execution_state : Option TopologyActuationExecutionActionState
  pub observed_instances_before : ℕ
  pub ready_instances_before : ℕ
  pub current_observed_instances : ℕ
  pub current_ready_instances : ℕ

pub record TopologyActuationRealizationStatusSummary : Type 0 where
  pub request_present : Bool
  pub execution_present : Bool
  pub execution_revision_matches_current_request : Bool
  pub execution_request_revision : ℕ
  pub current_request_revision : ℕ
  pub actions_total : ℕ
  pub available_actions : ℕ
  pub claimed_actions : ℕ
  pub awaiting_observation_actions : ℕ
  pub realized_actions : ℕ
  pub failed_actions : ℕ
  pub stale_actions : ℕ

pub record TopologyActuationRealizationStatus : Type 0 where
  pub summary : TopologyActuationRealizationStatusSummary
  pub actions : List TopologyActuationRealizationActionStatus

-- The counts of a pool observed and of an item's baseline; 0 where there is none.
abbrev pub instances_of : Option ObservedTopologyPool → ℕ
instances_of none = 0
instances_of (some pool) = pool.instances

abbrev pub ready_of : Option ObservedTopologyPool → ℕ
ready_of none = 0
ready_of (some pool) = pool.ready_instances

abbrev pub instances_before : Option TopologyActuationExecutionItem → ℕ
instances_before none = 0
instances_before (some item) = item.observed_instances_before

abbrev pub ready_before : Option TopologyActuationExecutionItem → ℕ
ready_before none = 0
ready_before (some item) = item.ready_instances_before

-- Whether the counts show the effect of an action; `above` is `std::max(delta, 0)`.
unfoldable pub is_realized :
    TopologyActuationActionKind
    → ℤ
    → Option TopologyActuationExecutionItem
    → Option ObservedTopologyPool
    → Bool
is_realized TopologyActuationActionKind.scale_out_pool delta item pool =
    leb (u32 (instances_before item + above delta)) (instances_of pool)
is_realized TopologyActuationActionKind.scale_in_pool delta item pool =
    leb (u32 (instances_of pool + above delta)) (instances_before item)
is_realized TopologyActuationActionKind.restore_pool_readiness delta item pool =
    (ready_before item == 0) && ltb 0 (ready_of pool)
is_realized TopologyActuationActionKind.observe_undeclared_pool delta item pool = false

-- The `switch` over the execution's state.
unfoldable pub realization_state :
    Bool → TopologyActuationExecutionStatusState → TopologyActuationRealizationState
realization_state took TopologyActuationExecutionStatusState.available =
    TopologyActuationRealizationState.available
realization_state took TopologyActuationExecutionStatusState.claimed =
    TopologyActuationRealizationState.claimed
realization_state took TopologyActuationExecutionStatusState.failed =
    TopologyActuationRealizationState.failed
realization_state took TopologyActuationExecutionStatusState.stale =
    TopologyActuationRealizationState.stale
realization_state took TopologyActuationExecutionStatusState.completed =
    if took
    then TopologyActuationRealizationState.realized
    else TopologyActuationRealizationState.awaiting_observation

abbrev pub executed_key : TopologyActuationExecutionActionStatus → String
executed_key action = make_pool_key action.world_id action.shard

-- One turn of the loop over the actions of the execution's status, with the pool's item and the pool.
unfoldable pub judge_realization :
    Option TopologyActuationExecutionItem
    → Option ObservedTopologyPool
    → TopologyActuationExecutionActionStatus
    → TopologyActuationRealizationActionStatus
judge_realization item pool action =
    let took = is_realized action.requested_action action.requested_replica_delta item pool in
    record {
      world_id = action.world_id;
      shard = action.shard;
      requested_action = action.requested_action;
      requested_replica_delta = action.requested_replica_delta;
      state = realization_state took action.state;
      request_state = action.request_state;
      execution_state = action.execution_state;
      observed_instances_before = instances_before item;
      ready_instances_before = ready_before item;
      current_observed_instances = instances_of pool;
      current_ready_instances = ready_of pool;
    }

unfoldable pub count_realization :
    TopologyActuationRealizationState
    → TopologyActuationRealizationStatusSummary
    → TopologyActuationRealizationStatusSummary
count_realization TopologyActuationRealizationState.available s = record s {
  available_actions = u32 (s.available_actions + 1);
}
count_realization TopologyActuationRealizationState.claimed s = record s {
  claimed_actions = u32 (s.claimed_actions + 1);
}
count_realization TopologyActuationRealizationState.awaiting_observation s = record s {
  awaiting_observation_actions = u32 (s.awaiting_observation_actions + 1);
}
count_realization TopologyActuationRealizationState.realized s = record s {
  realized_actions = u32 (s.realized_actions + 1);
}
count_realization TopologyActuationRealizationState.failed s = record s {
  failed_actions = u32 (s.failed_actions + 1);
}
count_realization TopologyActuationRealizationState.stale s = record s {
  stale_actions = u32 (s.stale_actions + 1);
}

unfoldable pub count_realizations :
    TopologyActuationRealizationStatusSummary
    → List TopologyActuationRealizationActionStatus
    → TopologyActuationRealizationStatusSummary
count_realizations s [] = s
count_realizations s (a ∷ actions) = count_realizations (count_realization a.state s) actions

-- The summary before the loop, from the execution's.
abbrev pub first_realizations :
    TopologyActuationExecutionStatusSummary → ℕ → TopologyActuationRealizationStatusSummary
first_realizations s total = record {
  request_present = s.request_present;
  execution_present = s.execution_present;
  execution_revision_matches_current_request = s.execution_revision_matches_current_request;
  execution_request_revision = s.execution_request_revision;
  current_request_revision = s.current_request_revision;
  actions_total = u32 total;
  available_actions = 0;
  claimed_actions = 0;
  awaiting_observation_actions = 0;
  realized_actions = 0;
  failed_actions = 0;
  stale_actions = 0;
}

unfoldable pub evaluate_topology_actuation_realization_status :
    Option TopologyActuationExecutionDocument
    → Option TopologyActuationRequestDocument
    → Option DesiredTopologyDocument
    → List ObservedTopologyPool
    → TopologyActuationRealizationStatus
evaluate_topology_actuation_realization_status execution request desired observed =
    let executions =
      evaluate_topology_actuation_execution_status execution request desired observed in
    let item_of : String → Option TopologyActuationExecutionItem =
      λ key. find (execution_index execution) key in
    let pool_of : String → Option ObservedTopologyPool =
      λ key. find (observed_index observed) key in
    let actions =
      map (λ a. judge_realization (item_of (executed_key a)) (pool_of (executed_key a)) a)
        executions.actions in
    record {
      summary = count_realizations (first_realizations executions.summary (length actions)) actions;
      actions = actions;
    }
