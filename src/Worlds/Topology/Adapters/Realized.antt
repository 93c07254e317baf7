-- ===== src/Worlds/Topology/Adapters/Realized.antt =====
-- An action that was planned, approved, executed and leased is realized when its pool is as wanted.
use dynaxis.Base.{
  ◌≡◌, ap, ap₂, sym, ◌∙◌, ◌<◌, ◌^◌, String, Bool, true, Option, none, some, List, first_of,
  option_map, arith, ℤ,
}
use dynaxis.Worlds.Topology.Pools.{
  DesiredTopologyPool, DesiredTopologyDocument, ObservedTopologyPool, observed_key,
}
use dynaxis.Worlds.Topology.Reconcile.{desired_key}
use dynaxis.Worlds.Topology.Plan.{
  TopologyActuationAction, TopologyActuationActionKind, action_key, plan_topology_actuation,
}
use dynaxis.Worlds.Topology.Plan.Lookups.{
  AreDistinct, planned_from, first_of-plan_topology_actuation,
}
use dynaxis.Worlds.Topology.Requests.{
  TopologyActuationRequestAction, TopologyActuationRequestDocument, request_key, judge_request,
  request_state, is_same_action,
}
use dynaxis.Worlds.Topology.Executions.{
  TopologyActuationExecutionItem, TopologyActuationExecutionDocument,
  TopologyActuationExecutionActionState, TopologyActuationExecutionStatusState, item_key,
  judge_execution, TopologyActuationExecutionActionStatus,
  evaluate_topology_actuation_execution_status, revision_matches, execution_status_state,
  item_state, execution_matches_request,
}
use dynaxis.Worlds.Topology.Realizations.{
  instances_of, is_realized, judge_realization, realization_state,
  TopologyActuationRealizationState, TopologyActuationRealizationActionStatus, executed_key,
  evaluate_topology_actuation_realization_status,
}
use dynaxis.Worlds.Topology.Adapters.{
  TopologyActuationAdapterLeaseAction, TopologyActuationAdapterLeaseDocument,
  TopologyActuationAdapterStatusState, lease_key, realization_key,
  evaluate_topology_actuation_adapter_status, judge_adapter, adapter_state, lease_revision_matches,
  lease_matches_action,
}
use dynaxis.Worlds.Topology.Adapters.Lookups.{
  adapter_key, first_of-requests, first_of-executions, first_of-realizations, first_of-adapters,
}
use dynaxis.Worlds.Topology.Adapters.Closes.{
  IsSteady, IsBaseline, planned_from-IsSteady, shows_effect, shows_effect-planned_from,
}

-- The plan made at `before` has `action` for the pool wanted under the key.
pub record IsPlanned (key : String) (document : DesiredTopologyDocument)
    (before : List ObservedTopologyPool) (pool : DesiredTopologyPool)
    (action : TopologyActuationAction) : Type 0 where
  pub distinct : AreDistinct document.pools
  pub found : first_of desired_key document.pools key ≡ some pool
  pub small : pool.replicas < 2 ^ 31
  pub few : instances_of (first_of observed_key before key) < 2 ^ 31
  pub planned :
      first_of action_key (plan_topology_actuation (some document) before).actions key ≡ some action

-- The request asks for the action.
pub record IsRequested (key : String) (request : TopologyActuationRequestDocument)
    (action : TopologyActuationAction) (asked : TopologyActuationRequestAction) : Type 0 where
  pub found : first_of request_key request.actions key ≡ some asked
  pub kind : asked.action ≡ action.action
  pub delta : asked.replica_delta ≡ action.replica_delta

-- The execution of the request has completed the action, from the baseline `before`.
pub record IsExecuted (key : String) (request : TopologyActuationRequestDocument)
    (execution : TopologyActuationExecutionDocument) (before : List ObservedTopologyPool)
    (action : TopologyActuationAction) (item : TopologyActuationExecutionItem) : Type 0 where
  pub found : first_of item_key execution.actions key ≡ some item
  pub kind : item.action.action ≡ action.action
  pub delta : item.action.replica_delta ≡ action.replica_delta
  pub state : item.state ≡ TopologyActuationExecutionActionState.completed
  pub revision : execution.request_revision ≡ request.revision
  pub baseline : IsBaseline item (first_of observed_key before key)

-- The lease of the execution is for the action.
pub record IsLeased (key : String) (execution : TopologyActuationExecutionDocument)
    (lease : TopologyActuationAdapterLeaseDocument) (action : TopologyActuationAction)
    (held : TopologyActuationAdapterLeaseAction) : Type 0 where
  pub found : first_of lease_key lease.actions key ≡ some held
  pub kind : held.action ≡ action.action
  pub delta : held.replica_delta ≡ action.replica_delta
  pub revision : lease.execution_revision ≡ execution.revision

is_same_action_refl :
    (kind other : TopologyActuationActionKind) (delta other_delta : ℤ)
    → kind ≡ other
    → delta ≡ other_delta
    → is_same_action kind delta other other_delta ≡ true
is_same_action_refl kind other delta other_delta same same_delta = ground (arith, same, same_delta)

module _ (key : String) (document : DesiredTopologyDocument)
    (before after : List ObservedTopologyPool) (pool : DesiredTopologyPool)
    (action : TopologyActuationAction) (request : TopologyActuationRequestDocument)
    (asked : TopologyActuationRequestAction) (execution : TopologyActuationExecutionDocument)
    (item : TopologyActuationExecutionItem) (planned : IsPlanned key document before pool action)
    (requested : IsRequested key request action asked)
    (executed : IsExecuted key request execution before action item)
    (steady : IsSteady pool (first_of observed_key after key)) where
  no_action_left :
      first_of action_key (plan_topology_actuation (some document) after).actions key ≡ none
  no_action_left =
      first_of-plan_topology_actuation (some document) after key planned.distinct
      ∙ ap (λ d. planned_from d (first_of observed_key after key)) planned.found
      ∙ planned_from-IsSteady pool (first_of observed_key after key) steady

  takes_effect :
      is_realized asked.action asked.replica_delta (some item) (first_of observed_key after key)
      ≡ true
  takes_effect =
      let o = first_of observed_key before key in
      let now = first_of observed_key after key in
      let same : planned_from (some pool) o ≡ some action =
        ap (λ d. planned_from d o) (sym planned.found)
        ∙ sym (first_of-plan_topology_actuation (some document) before key planned.distinct)
        ∙ planned.planned in
      ap₂ (λ k d. is_realized k d (some item) now) requested.kind requested.delta
      ∙ ap (λ a. shows_effect a item now) (sym same)
      ∙ shows_effect-planned_from pool now item planned.small steady o planned.few executed.baseline

  completes :
      execution_status_state
        (revision_matches (some execution) (some request))
        (some item)
        (judge_request none asked)
      ≡ TopologyActuationExecutionStatusState.completed
  unfolding execution_status_state revision_matches judge_request request_state item_state
      execution_matches_request
  completes = ground (
    arith,
    executed.revision,
    executed.state,
    is_same_action_refl item.action.action asked.action item.action.replica_delta
        asked.replica_delta (executed.kind ∙ sym requested.kind)
        (executed.delta ∙ sym requested.delta),
  )

  -- The action's status in the execution, and in the realization.
  abbrev given : TopologyActuationExecutionActionStatus
  given =
      judge_execution (revision_matches (some execution) (some request)) (some item)
        (judge_request none asked)

  abbrev result : TopologyActuationRealizationActionStatus
  result = judge_realization (some item) (first_of observed_key after key) given

  executes :
      first_of executed_key
        (evaluate_topology_actuation_execution_status
          (some execution)
          (some request)
          (some document)
          after).actions
        key
      ≡ some given
  executes =
      let current = revision_matches (some execution) (some request) in
      first_of-executions key (some document) after (some request) (some execution)
      ∙ ap₂ (λ i r. option_map (judge_execution current i) r) executed.found
          (first_of-requests key (some document) after (some request)
            ∙ ap₂ (λ a r. option_map (judge_request a) r) no_action_left requested.found)

  realizes :
      first_of realization_key
        (evaluate_topology_actuation_realization_status
          (some execution)
          (some request)
          (some document)
          after).actions
        key
      ≡ some result
  realizes =
      first_of-realizations key (some document) after (some request) (some execution)
      ∙ ap₂ (λ i e. option_map (judge_realization i (first_of observed_key after key)) e)
          executed.found executes

  result_is_realized : result.state ≡ TopologyActuationRealizationState.realized
  unfolding judge_realization judge_execution judge_request realization_state
  result_is_realized = ap₂ realization_state takes_effect completes

  matches :
      (held : TopologyActuationAdapterLeaseAction)
      → held.action ≡ action.action
      → held.replica_delta ≡ action.replica_delta
      → lease_matches_action (some held) given ≡ true
  unfolding judge_execution judge_request
  matches held kind delta =
      is_same_action_refl held.action asked.action held.replica_delta asked.replica_delta
        (kind ∙ sym requested.kind) (delta ∙ sym requested.delta)

  pub judged_realized :
      (held : TopologyActuationAdapterLeaseAction) (current : Bool)
      → current ≡ true
      → lease_matches_action (some held) given ≡ true
      → (judge_adapter current (some held) (some result) given).state
        ≡ TopologyActuationAdapterStatusState.realized
  unfolding judge_adapter judge_execution adapter_state
  judged_realized held current now same =
      ap₂ (λ c m. adapter_state c true m given.state (some result.state)) now same
      ∙ ap₂ (λ e r. adapter_state true true true e (some r)) completes result_is_realized

  -- An action of a plan that was requested and executed from the counts that the plan was made at,
  -- and is leased from that execution, has the adapter's state realized once the pool has as many
  -- instances as wanted, one of them ready. No pool is wanted twice and the counts are below 2 ^ 31.
  pub evaluate_topology_actuation_adapter_status_lem :
      (lease : TopologyActuationAdapterLeaseDocument) (held : TopologyActuationAdapterLeaseAction)
      → IsLeased key execution lease action held
      → option_map
          (λ s. s.state)
          (first_of adapter_key
            (evaluate_topology_actuation_adapter_status
              (some lease)
              (some execution)
              (some request)
              (some document)
              after).actions
            key)
        ≡ some TopologyActuationAdapterStatusState.realized
  unfolding lease_revision_matches
  evaluate_topology_actuation_adapter_status_lem lease held leased =
      let current = lease_revision_matches (some lease) (some execution) in
      let now : current ≡ true = ground (arith, leased.revision) in
      let of_execution : Option TopologyActuationExecutionActionStatus =
        first_of executed_key
          (evaluate_topology_actuation_execution_status (some execution) (some request)
            (some document) after).actions
          key in
      ap (option_map (λ s. s.state)) (
        first_of-adapters key (some document) after (some request) (some execution) (some lease)
        ∙ ap
            (λ r.
              option_map (judge_adapter current (first_of lease_key lease.actions key) r)
                of_execution)
            realizes
        ∙ ap₂ (λ l e. option_map (judge_adapter current l (some result)) e) leased.found executes)
      ∙ ap some (judged_realized held current now (matches held leased.kind leased.delta))
