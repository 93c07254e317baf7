-- ===== src/Worlds/Topology/Requests.antt =====
-- core/include/server/core/worlds/topology.hpp: `evaluate_topology_actuation_request_status` sets the
-- actions that an operator approved against the plan of the moment. What the loop counts is a fold
-- over what it pushes.
use dynaxis.Base.{
  ℕ, ◌+◌, String, Bool, true, false, Option, none, some, List, [], ◌∷◌, if◌then◌else◌, ◌==◌, ◌&&◌,
  u32, length, map, option_map, ℤ, pos, find, index_from,
}
use dynaxis.Worlds.Topology.Pools.{DesiredTopologyDocument, ObservedTopologyPool, make_pool_key}
use dynaxis.Worlds.Topology.Reconcile.{TopologyPoolStatus, has_value}
use dynaxis.Worlds.Topology.Plan.{
  TopologyActuationActionKind, TopologyActuationAction, kind_value, eq_ℤ, action_key,
  plan_topology_actuation,
}

pub record TopologyActuationRequestAction : Type 0 where
  pub world_id : String
  pub shard : String
  pub action : TopologyActuationActionKind
  pub replica_delta : ℤ

pub record TopologyActuationRequestDocument : Type 0 where
  pub request_id : String
  pub revision : ℕ
  pub requested_at_ms : ℕ
  pub basis_topology_revision : ℕ
  pub actions : List TopologyActuationRequestAction

pub data TopologyActuationRequestActionState : Type 0 where
  pending satisfied superseded : TopologyActuationRequestActionState

pub record TopologyActuationRequestActionStatus : Type 0 where
  pub world_id : String
  pub shard : String
  pub requested_action : TopologyActuationActionKind
  pub requested_replica_delta : ℤ
  pub state : TopologyActuationRequestActionState
  pub current_status : Option TopologyPoolStatus
  pub current_action : Option TopologyActuationActionKind
  pub current_replica_delta : ℤ

pub record TopologyActuationRequestStatusSummary : Type 0 where
  pub request_present : Bool
  pub desired_present : Bool
  pub basis_topology_revision_matches_current : Bool
  pub basis_topology_revision : ℕ
  pub current_topology_revision : ℕ
  pub actions_total : ℕ
  pub pending_actions : ℕ
  pub satisfied_actions : ℕ
  pub superseded_actions : ℕ

pub record TopologyActuationRequestStatus : Type 0 where
  pub summary : TopologyActuationRequestStatusSummary
  pub actions : List TopologyActuationRequestActionStatus

abbrev pub request_key : TopologyActuationRequestAction → String
request_key action = make_pool_key action.world_id action.shard

abbrev pub plan_index : List TopologyActuationAction → List (String × TopologyActuationAction)
plan_index actions = index_from action_key [] actions

abbrev pub is_same_action : TopologyActuationActionKind → ℤ → TopologyActuationActionKind → ℤ → Bool
is_same_action kind delta other other_delta =
    kind_value kind == kind_value other && eq_ℤ delta other_delta

-- The state of an action, by what the plan has for its pool.
unfoldable pub request_state :
    Option TopologyActuationAction
    → TopologyActuationRequestAction
    → TopologyActuationRequestActionState
request_state none requested = TopologyActuationRequestActionState.satisfied
request_state (some current) requested =
    if current.actionable
      && is_same_action current.action current.replica_delta requested.action
          requested.replica_delta
    then TopologyActuationRequestActionState.pending
    else TopologyActuationRequestActionState.superseded

abbrev pub current_delta : Option TopologyActuationAction → ℤ
current_delta none = pos 0
current_delta (some current) = current.replica_delta

-- One turn of the loop over the actions requested, with what the plan has for the pool.
unfoldable pub judge_request :
    Option TopologyActuationAction
    → TopologyActuationRequestAction
    → TopologyActuationRequestActionStatus
judge_request current requested = record {
  world_id = requested.world_id;
  shard = requested.shard;
  requested_action = requested.action;
  requested_replica_delta = requested.replica_delta;
  state = request_state current requested;
  current_status = option_map (λ a. a.status) current;
  current_action = option_map (λ a. a.action) current;
  current_replica_delta = current_delta current;
}

unfoldable pub count_request :
    TopologyActuationRequestActionState
    → TopologyActuationRequestStatusSummary
    → TopologyActuationRequestStatusSummary
count_request TopologyActuationRequestActionState.pending s = record s {
  pending_actions = u32 (s.pending_actions + 1);
}
count_request TopologyActuationRequestActionState.satisfied s = record s {
  satisfied_actions = u32 (s.satisfied_actions + 1);
}
count_request TopologyActuationRequestActionState.superseded s = record s {
  superseded_actions = u32 (s.superseded_actions + 1);
}

unfoldable pub count_requests :
    TopologyActuationRequestStatusSummary
    → List TopologyActuationRequestActionStatus
    → TopologyActuationRequestStatusSummary
count_requests s [] = s
count_requests s (a ∷ actions) = count_requests (count_request a.state s) actions

abbrev pub current_revision : Option DesiredTopologyDocument → ℕ
current_revision none = 0
current_revision (some document) = document.revision

abbrev pub matches_basis : Option DesiredTopologyDocument → ℕ → Bool
matches_basis none basis = false
matches_basis (some document) basis = document.revision == basis

-- The summary before the loop.
abbrev pub first_request_summary :
    Option TopologyActuationRequestDocument
    → Option DesiredTopologyDocument
    → TopologyActuationRequestStatusSummary
first_request_summary none desired = record {
  request_present = false;
  desired_present = has_value desired;
  basis_topology_revision_matches_current = false;
  basis_topology_revision = 0;
  current_topology_revision = current_revision desired;
  actions_total = 0;
  pending_actions = 0;
  satisfied_actions = 0;
  superseded_actions = 0;
}
first_request_summary (some request) desired = record {
  request_present = true;
  desired_present = has_value desired;
  basis_topology_revision_matches_current = matches_basis desired request.basis_topology_revision;
  basis_topology_revision = request.basis_topology_revision;
  current_topology_revision = current_revision desired;
  actions_total = u32 (length request.actions);
  pending_actions = 0;
  satisfied_actions = 0;
  superseded_actions = 0;
}

abbrev pub requested_actions :
    Option TopologyActuationRequestDocument → List TopologyActuationRequestAction
requested_actions none = []
requested_actions (some request) = request.actions

unfoldable pub evaluate_topology_actuation_request_status :
    Option TopologyActuationRequestDocument
    → Option DesiredTopologyDocument
    → List ObservedTopologyPool
    → TopologyActuationRequestStatus
evaluate_topology_actuation_request_status request desired observed =
    let index = plan_index (plan_topology_actuation desired observed).actions in
    let actions =
      map (λ a. judge_request (find index (request_key a)) a) (requested_actions request) in
    record {
      summary = count_requests (first_request_summary request desired) actions;
      actions = actions;
    }
