-- ===== src/Worlds/Topology/Executions.antt =====
-- core/include/server/core/worlds/topology.hpp: `evaluate_topology_actuation_execution_status` sets
-- what an executor recorded against the request of the moment. What the loop counts is a fold over
-- what it pushes.
use dynaxis.Base.{
  ℕ, ◌+◌, String, Bool, true, false, not, Option, none, some, List, [], ◌∷◌, if◌then◌else◌, ◌==◌,
  ◌&&◌, ◌||◌, u32, length, map, option_map, ℤ, find, index_from,
}
use dynaxis.Worlds.Topology.Pools.{DesiredTopologyDocument, ObservedTopologyPool, make_pool_key}
use dynaxis.Worlds.Topology.Reconcile.{has_value}
use dynaxis.Worlds.Topology.Plan.{TopologyActuationActionKind}
use dynaxis.Worlds.Topology.Requests.{
  TopologyActuationRequestDocument, TopologyActuationRequestActionState,
  TopologyActuationRequestActionStatus, is_same_action, evaluate_topology_actuation_request_status,
}

pub record TopologyActuationExecutionAction : Type 0 where
  pub world_id : String
  pub shard : String
  pub action : TopologyActuationActionKind
  pub replica_delta : ℤ

pub data TopologyActuationExecutionActionState : Type 0 where
  claimed completed failed : TopologyActuationExecutionActionState

pub record TopologyActuationExecutionItem : Type 0 where
  pub action : TopologyActuationExecutionAction
  pub observed_instances_before : ℕ
  pub ready_instances_before : ℕ
  pub state : TopologyActuationExecutionActionState

pub record TopologyActuationExecutionDocument : Type 0 where
  pub executor_id : String
  pub revision : ℕ
  pub updated_at_ms : ℕ
  pub request_revision : ℕ
  pub actions : List TopologyActuationExecutionItem

pub data TopologyActuationExecutionStatusState : Type 0 where
  available claimed completed failed stale : TopologyActuationExecutionStatusState

pub record TopologyActuationExecutionActionStatus : Type 0 where
  pub world_id : String
  pub shard : String
  pub requested_action : TopologyActuationActionKind
  pub requested_replica_delta : ℤ
  pub state : TopologyActuationExecutionStatusState
  pub request_state : Option TopologyActuationRequestActionState
  pub execution_state : Option TopologyActuationExecutionActionState

pub record TopologyActuationExecutionStatusSummary : Type 0 where
  pub request_present : Bool
  pub execution_present : Bool
  pub execution_revision_matches_current_request : Bool
  pub execution_request_revision : ℕ
  pub current_request_revision : ℕ
  pub actions_total : ℕ
  pub available_actions : ℕ
  pub claimed_actions : ℕ
  pub completed_actions : ℕ
  pub failed_actions : ℕ
  pub stale_actions : ℕ

pub record TopologyActuationExecutionStatus : Type 0 where
  pub summary : TopologyActuationExecutionStatusSummary
  pub actions : List TopologyActuationExecutionActionStatus

abbrev pub item_key : TopologyActuationExecutionItem → String
item_key item = make_pool_key item.action.world_id item.action.shard

abbrev pub execution_items :
    Option TopologyActuationExecutionDocument → List TopologyActuationExecutionItem
execution_items none = []
execution_items (some execution) = execution.actions

abbrev pub execution_index :
    Option TopologyActuationExecutionDocument → List (String × TopologyActuationExecutionItem)
execution_index execution = index_from item_key [] (execution_items execution)

unfoldable pub execution_matches_request :
    TopologyActuationExecutionItem → TopologyActuationRequestActionStatus → Bool
execution_matches_request item requested =
    is_same_action item.action.action item.action.replica_delta requested.requested_action
      requested.requested_replica_delta

abbrev pub is_completed : TopologyActuationExecutionActionState → Bool
is_completed TopologyActuationExecutionActionState.completed = true
is_completed _ = false

-- The last three branches of a pending action.
abbrev pub progress_of :
    TopologyActuationExecutionActionState → TopologyActuationExecutionStatusState
progress_of TopologyActuationExecutionActionState.claimed =
    TopologyActuationExecutionStatusState.claimed
progress_of TopologyActuationExecutionActionState.failed =
    TopologyActuationExecutionStatusState.failed
progress_of TopologyActuationExecutionActionState.completed =
    TopologyActuationExecutionStatusState.stale

-- The state of an action that has an item, by the request's state; `current` says that the revisions
-- match.
unfoldable pub item_state :
    Bool
    → TopologyActuationExecutionItem
    → TopologyActuationRequestActionStatus
    → TopologyActuationRequestActionState
    → TopologyActuationExecutionStatusState
item_state current item requested TopologyActuationRequestActionState.pending =
    if not current || not (execution_matches_request item requested)
    then TopologyActuationExecutionStatusState.stale
    else progress_of item.state
item_state current item requested TopologyActuationRequestActionState.satisfied =
    if current && execution_matches_request item requested && is_completed item.state
    then TopologyActuationExecutionStatusState.completed
    else TopologyActuationExecutionStatusState.stale
item_state current item requested TopologyActuationRequestActionState.superseded =
    TopologyActuationExecutionStatusState.stale

-- The state of an action without an item.
abbrev pub no_item_state :
    TopologyActuationRequestActionState → TopologyActuationExecutionStatusState
no_item_state TopologyActuationRequestActionState.pending =
    TopologyActuationExecutionStatusState.available
no_item_state _ = TopologyActuationExecutionStatusState.stale

unfoldable pub execution_status_state :
    Bool
    → Option TopologyActuationExecutionItem
    → TopologyActuationRequestActionStatus
    → TopologyActuationExecutionStatusState
execution_status_state current none requested = no_item_state requested.state
execution_status_state current (some item) requested =
    item_state current item requested requested.state

abbrev pub status_key : TopologyActuationRequestActionStatus → String
status_key requested = make_pool_key requested.world_id requested.shard

-- One turn of the loop over the actions of the request's status, with the pool's item.
unfoldable pub judge_execution :
    Bool
    → Option TopologyActuationExecutionItem
    → TopologyActuationRequestActionStatus
    → TopologyActuationExecutionActionStatus
judge_execution current item requested = record {
  world_id = requested.world_id;
  shard = requested.shard;
  requested_action = requested.requested_action;
  requested_replica_delta = requested.requested_replica_delta;
  state = execution_status_state current item requested;
  request_state = some requested.state;
  execution_state = option_map (λ i. i.state) item;
}

unfoldable pub count_execution :
    TopologyActuationExecutionStatusState
    → TopologyActuationExecutionStatusSummary
    → TopologyActuationExecutionStatusSummary
count_execution TopologyActuationExecutionStatusState.available s = record s {
  available_actions = u32 (s.available_actions + 1);
}
count_execution TopologyActuationExecutionStatusState.claimed s = record s {
  claimed_actions = u32 (s.claimed_actions + 1);
}
count_execution TopologyActuationExecutionStatusState.completed s = record s {
  completed_actions = u32 (s.completed_actions + 1);
}
count_execution TopologyActuationExecutionStatusState.failed s = record s {
  failed_actions = u32 (s.failed_actions + 1);
}
count_execution TopologyActuationExecutionStatusState.stale s = record s {
  stale_actions = u32 (s.stale_actions + 1);
}

unfoldable pub count_executions :
    TopologyActuationExecutionStatusSummary
    → List TopologyActuationExecutionActionStatus
    → TopologyActuationExecutionStatusSummary
count_executions s [] = s
count_executions s (a ∷ actions) = count_executions (count_execution a.state s) actions

abbrev pub request_revision_of : Option TopologyActuationRequestDocument → ℕ
request_revision_of none = 0
request_revision_of (some request) = request.revision

abbrev pub execution_request_revision_of : Option TopologyActuationExecutionDocument → ℕ
execution_request_revision_of none = 0
execution_request_revision_of (some execution) = execution.request_revision

unfoldable pub revision_matches :
    Option TopologyActuationExecutionDocument → Option TopologyActuationRequestDocument → Bool
revision_matches execution request =
    has_value execution
    && has_value request
    && (execution_request_revision_of execution == request_revision_of request)

unfoldable pub evaluate_topology_actuation_execution_status :
    Option TopologyActuationExecutionDocument
    → Option TopologyActuationRequestDocument
    → Option DesiredTopologyDocument
    → List ObservedTopologyPool
    → TopologyActuationExecutionStatus
evaluate_topology_actuation_execution_status execution request desired observed =
    let current = revision_matches execution request in
    let requests = evaluate_topology_actuation_request_status request desired observed in
    let index = execution_index execution in
    let actions =
      map (λ a. judge_execution current (find index (status_key a)) a) requests.actions in
    record {
      summary =
          count_executions
            record {
              request_present = has_value request;
              execution_present = has_value execution;
              execution_revision_matches_current_request = current;
              execution_request_revision = execution_request_revision_of execution;
              current_request_revision = request_revision_of request;
              actions_total = u32 (length actions);
              available_actions = 0;
              claimed_actions = 0;
              completed_actions = 0;
              failed_actions = 0;
              stale_actions = 0;
            }
            actions;
      actions = actions;
    }
