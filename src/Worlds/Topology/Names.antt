-- ===== src/Worlds/Topology/Names.antt =====
-- core/include/server/core/worlds/topology.hpp: the names of the states in documents and answers.
use dynaxis.Base.{
  ◌≡◌, refl, subst, String, Option, none, some, if◌then◌else◌, str_eq, eq_iff, arith, ◌↔◌,
}
use dynaxis.Worlds.Topology.Reconcile.{TopologyPoolStatus}
use dynaxis.Worlds.Topology.Plan.{TopologyActuationActionKind}
use dynaxis.Worlds.Topology.Requests.{TopologyActuationRequestActionState}
use dynaxis.Worlds.Topology.Executions.{
  TopologyActuationExecutionActionState, TopologyActuationExecutionStatusState,
}
use dynaxis.Worlds.Topology.Realizations.{TopologyActuationRealizationState}
use dynaxis.Worlds.Topology.Adapters.{TopologyActuationAdapterStatusState}

unfoldable pub topology_pool_status_name : TopologyPoolStatus → String
topology_pool_status_name TopologyPoolStatus.aligned = "aligned"
topology_pool_status_name TopologyPoolStatus.missing_observed_pool = "missing_observed_pool"
topology_pool_status_name TopologyPoolStatus.under_replicated = "under_replicated"
topology_pool_status_name TopologyPoolStatus.over_replicated = "over_replicated"
topology_pool_status_name TopologyPoolStatus.no_ready_instances = "no_ready_instances"
topology_pool_status_name TopologyPoolStatus.undeclared_observed_pool = "undeclared_observed_pool"

unfoldable pub topology_actuation_action_kind_name : TopologyActuationActionKind → String
topology_actuation_action_kind_name TopologyActuationActionKind.scale_out_pool = "scale_out_pool"
topology_actuation_action_kind_name TopologyActuationActionKind.scale_in_pool = "scale_in_pool"
topology_actuation_action_kind_name TopologyActuationActionKind.restore_pool_readiness =
    "restore_pool_readiness"
topology_actuation_action_kind_name TopologyActuationActionKind.observe_undeclared_pool =
    "observe_undeclared_pool"

unfoldable pub topology_actuation_request_action_state_name :
    TopologyActuationRequestActionState → String
topology_actuation_request_action_state_name TopologyActuationRequestActionState.pending = "pending"
topology_actuation_request_action_state_name TopologyActuationRequestActionState.satisfied =
    "satisfied"
topology_actuation_request_action_state_name TopologyActuationRequestActionState.superseded =
    "superseded"

unfoldable pub topology_actuation_execution_action_state_name :
    TopologyActuationExecutionActionState → String
topology_actuation_execution_action_state_name TopologyActuationExecutionActionState.claimed =
    "claimed"
topology_actuation_execution_action_state_name TopologyActuationExecutionActionState.completed =
    "completed"
topology_actuation_execution_action_state_name TopologyActuationExecutionActionState.failed =
    "failed"

unfoldable pub topology_actuation_execution_status_state_name :
    TopologyActuationExecutionStatusState → String
topology_actuation_execution_status_state_name TopologyActuationExecutionStatusState.available =
    "available"
topology_actuation_execution_status_state_name TopologyActuationExecutionStatusState.claimed =
    "claimed"
topology_actuation_execution_status_state_name TopologyActuationExecutionStatusState.completed =
    "completed"
topology_actuation_execution_status_state_name TopologyActuationExecutionStatusState.failed =
    "failed"
topology_actuation_execution_status_state_name TopologyActuationExecutionStatusState.stale = "stale"

unfoldable pub topology_actuation_realization_state_name :
    TopologyActuationRealizationState → String
topology_actuation_realization_state_name TopologyActuationRealizationState.available = "available"
topology_actuation_realization_state_name TopologyActuationRealizationState.claimed = "claimed"
topology_actuation_realization_state_name TopologyActuationRealizationState.awaiting_observation =
    "awaiting_observation"
topology_actuation_realization_state_name TopologyActuationRealizationState.realized = "realized"
topology_actuation_realization_state_name TopologyActuationRealizationState.failed = "failed"
topology_actuation_realization_state_name TopologyActuationRealizationState.stale = "stale"

unfoldable pub topology_actuation_adapter_status_state_name :
    TopologyActuationAdapterStatusState → String
topology_actuation_adapter_status_state_name TopologyActuationAdapterStatusState.available =
    "available"
topology_actuation_adapter_status_state_name TopologyActuationAdapterStatusState.leased = "leased"
topology_actuation_adapter_status_state_name
      TopologyActuationAdapterStatusState.awaiting_realization =
    "awaiting_realization"
topology_actuation_adapter_status_state_name TopologyActuationAdapterStatusState.realized =
    "realized"
topology_actuation_adapter_status_state_name TopologyActuationAdapterStatusState.failed = "failed"
topology_actuation_adapter_status_state_name TopologyActuationAdapterStatusState.stale = "stale"

unfoldable pub parse_topology_actuation_action_kind : String → Option TopologyActuationActionKind
parse_topology_actuation_action_kind name =
    if str_eq name "scale_out_pool"
    then some TopologyActuationActionKind.scale_out_pool
    else if str_eq name "scale_in_pool"
    then some TopologyActuationActionKind.scale_in_pool
    else if str_eq name "restore_pool_readiness"
    then some TopologyActuationActionKind.restore_pool_readiness
    else if str_eq name "observe_undeclared_pool"
    then some TopologyActuationActionKind.observe_undeclared_pool
    else none

unfoldable pub parse_topology_actuation_execution_action_state :
    String → Option TopologyActuationExecutionActionState
parse_topology_actuation_execution_action_state name =
    if str_eq name "claimed"
    then some TopologyActuationExecutionActionState.claimed
    else if str_eq name "completed"
    then some TopologyActuationExecutionActionState.completed
    else if str_eq name "failed"
    then some TopologyActuationExecutionActionState.failed
    else none

-- A text parses to a kind of action if and only if it is the name of the kind.
pub parse_topology_actuation_action_kind_lem :
    (name : String) (kind : TopologyActuationActionKind)
    → (parse_topology_actuation_action_kind name ≡ some kind)
      ↔ (topology_actuation_action_kind_name kind ≡ name)
unfolding parse_topology_actuation_action_kind topology_actuation_action_kind_name
parse_topology_actuation_action_kind_lem name TopologyActuationActionKind.scale_out_pool = (
  λ h. ground (
    arith,
    eq_iff name "scale_out_pool",
    eq_iff name "scale_in_pool",
    eq_iff name "restore_pool_readiness",
    eq_iff name "observe_undeclared_pool",
  ),
  λ h.
      subst
        (λ n.
          parse_topology_actuation_action_kind n ≡ some TopologyActuationActionKind.scale_out_pool)
        h refl,
)
parse_topology_actuation_action_kind_lem name TopologyActuationActionKind.scale_in_pool = (
  λ h. ground (
    arith,
    eq_iff name "scale_out_pool",
    eq_iff name "scale_in_pool",
    eq_iff name "restore_pool_readiness",
    eq_iff name "observe_undeclared_pool",
  ),
  λ h.
      subst
        (λ n.
          parse_topology_actuation_action_kind n ≡ some TopologyActuationActionKind.scale_in_pool)
        h refl,
)
parse_topology_actuation_action_kind_lem name TopologyActuationActionKind.restore_pool_readiness = (
  λ h. ground (
    arith,
    eq_iff name "scale_out_pool",
    eq_iff name "scale_in_pool",
    eq_iff name "restore_pool_readiness",
    eq_iff name "observe_undeclared_pool",
  ),
  λ h.
      subst
        (λ n.
          parse_topology_actuation_action_kind n
          ≡ some TopologyActuationActionKind.restore_pool_readiness)
        h refl,
)
parse_topology_actuation_action_kind_lem name TopologyActuationActionKind.observe_undeclared_pool =
    (
      λ h. ground (
        arith,
        eq_iff name "scale_out_pool",
        eq_iff name "scale_in_pool",
        eq_iff name "restore_pool_readiness",
        eq_iff name "observe_undeclared_pool",
      ),
      λ h.
          subst
            (λ n.
              parse_topology_actuation_action_kind n
              ≡ some TopologyActuationActionKind.observe_undeclared_pool)
            h refl,
    )

pub parse_topology_actuation_execution_action_state_lem :
    (name : String) (state : TopologyActuationExecutionActionState)
    → (parse_topology_actuation_execution_action_state name ≡ some state)
      ↔ (topology_actuation_execution_action_state_name state ≡ name)
unfolding parse_topology_actuation_execution_action_state
    topology_actuation_execution_action_state_name
parse_topology_actuation_execution_action_state_lem name
      TopologyActuationExecutionActionState.claimed =
    (
      λ h. ground (arith, eq_iff name "claimed", eq_iff name "completed", eq_iff name "failed"),
      λ h.
          subst
            (λ n.
              parse_topology_actuation_execution_action_state n
              ≡ some TopologyActuationExecutionActionState.claimed)
            h refl,
    )
parse_topology_actuation_execution_action_state_lem name
      TopologyActuationExecutionActionState.completed =
    (
      λ h. ground (arith, eq_iff name "claimed", eq_iff name "completed", eq_iff name "failed"),
      λ h.
          subst
            (λ n.
              parse_topology_actuation_execution_action_state n
              ≡ some TopologyActuationExecutionActionState.completed)
            h refl,
    )
parse_topology_actuation_execution_action_state_lem name
      TopologyActuationExecutionActionState.failed =
    (
      λ h. ground (arith, eq_iff name "claimed", eq_iff name "completed", eq_iff name "failed"),
      λ h.
          subst
            (λ n.
              parse_topology_actuation_execution_action_state n
              ≡ some TopologyActuationExecutionActionState.failed)
            h refl,
    )
