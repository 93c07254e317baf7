-- ===== src/Worlds/Topology/Adapters/Lookups.antt =====
-- What the four documents' loops push for each pool key.
use dynaxis.Base.{
  ◌≡◌, refl, ap, ap₂, ◌∙◌, String, Option, List, [], find, index_from, first_of, option_map,
  find-index_from, first_of-map,
}
use dynaxis.Worlds.Topology.Pools.{
  DesiredTopologyDocument, ObservedTopologyPool, observed_key, make_pool_key,
}
use dynaxis.Worlds.Topology.Plan.{action_key, plan_topology_actuation}
use dynaxis.Worlds.Topology.Requests.{
  TopologyActuationRequestDocument, request_key, requested_actions, judge_request,
  evaluate_topology_actuation_request_status,
}
use dynaxis.Worlds.Topology.Executions.{
  TopologyActuationExecutionDocument, item_key, status_key, execution_items, judge_execution,
  revision_matches, evaluate_topology_actuation_execution_status, TopologyActuationExecutionItem,
}
use dynaxis.Worlds.Topology.Realizations.{
  executed_key, judge_realization, evaluate_topology_actuation_realization_status,
}
use dynaxis.Worlds.Topology.Adapters.{
  TopologyActuationAdapterLeaseDocument, TopologyActuationAdapterStatusAction, leased_actions_of,
  lease_key, realization_key, judge_adapter, lease_revision_matches,
  evaluate_topology_actuation_adapter_status, TopologyActuationAdapterLeaseAction,
}
use dynaxis.Worlds.Topology.Realizations.{TopologyActuationRealizationActionStatus}

abbrev pub adapter_key : TopologyActuationAdapterStatusAction → String
adapter_key action = make_pool_key action.world_id action.shard

module _ (key : String) (desired : Option DesiredTopologyDocument)
    (observed : List ObservedTopologyPool) (request : Option TopologyActuationRequestDocument) where
  pub first_of-requests :
      first_of status_key
        (evaluate_topology_actuation_request_status request desired observed).actions
        key
      ≡ option_map
          (judge_request
            (first_of action_key (plan_topology_actuation desired observed).actions key))
          (first_of request_key (requested_actions request) key)
  unfolding evaluate_topology_actuation_request_status judge_request
  first_of-requests =
      let actions = (plan_topology_actuation desired observed).actions in
      let index = index_from action_key [] actions in
      first_of-map request_key status_key judge_request (find index) (λ v a. refl)
        (requested_actions request) key
      ∙ ap
          (λ o. option_map (judge_request o) (first_of request_key (requested_actions request) key))
          (find-index_from action_key [] actions key)

  module _ (execution : Option TopologyActuationExecutionDocument) where
    pub first_of-executions :
        first_of executed_key
          (evaluate_topology_actuation_execution_status execution request desired observed).actions
          key
        ≡ option_map
            (judge_execution
              (revision_matches execution request)
              (first_of item_key (execution_items execution) key))
            (first_of status_key
              (evaluate_topology_actuation_request_status request desired observed).actions
              key)
    unfolding evaluate_topology_actuation_execution_status judge_execution
    first_of-executions =
        let current = revision_matches execution request in
        let items = execution_items execution in
        let requests =
          (evaluate_topology_actuation_request_status request desired observed).actions in
        first_of-map status_key executed_key (judge_execution current)
          (find (index_from item_key [] items)) (λ v a. refl) requests key
        ∙ ap (λ o. option_map (judge_execution current o) (first_of status_key requests key))
            (find-index_from item_key [] items key)

    pub first_of-realizations :
        first_of realization_key
          (evaluate_topology_actuation_realization_status execution request desired
            observed).actions
          key
        ≡ option_map
            (judge_realization
              (first_of item_key (execution_items execution) key)
              (first_of observed_key observed key))
            (first_of executed_key
              (evaluate_topology_actuation_execution_status execution request desired
                observed).actions
              key)
    unfolding evaluate_topology_actuation_realization_status judge_realization
    first_of-realizations =
        let items = execution_items execution in
        let executions =
          (evaluate_topology_actuation_execution_status execution request desired
            observed).actions in
        let pair : String → Option TopologyActuationExecutionItem × Option ObservedTopologyPool =
          λ k.
            (find (index_from item_key [] items) k, find (index_from observed_key [] observed) k) in
        let given = first_of executed_key executions key in
        first_of-map executed_key realization_key (λ v a. judge_realization v.0 v.1 a) pair
          (λ v a. refl) executions key
        ∙ ap₂ (λ o p. option_map (judge_realization o p) given)
            (find-index_from item_key [] items key) (find-index_from observed_key [] observed key)

    pub first_of-adapters :
        (lease : Option TopologyActuationAdapterLeaseDocument)
        → first_of adapter_key
            (evaluate_topology_actuation_adapter_status lease execution request desired
              observed).actions
            key
          ≡ option_map
              (judge_adapter
                (lease_revision_matches lease execution)
                (first_of lease_key (leased_actions_of lease) key)
                (first_of realization_key
                  (evaluate_topology_actuation_realization_status execution request desired
                    observed).actions
                  key))
              (first_of executed_key
                (evaluate_topology_actuation_execution_status execution request desired
                  observed).actions
                key)
    unfolding evaluate_topology_actuation_adapter_status judge_adapter
    first_of-adapters lease =
        let current = lease_revision_matches lease execution in
        let leases = leased_actions_of lease in
        let executions =
          (evaluate_topology_actuation_execution_status execution request desired
            observed).actions in
        let realizations =
          (evaluate_topology_actuation_realization_status execution request desired
            observed).actions in
        let pair : String
            → Option TopologyActuationAdapterLeaseAction
              × Option TopologyActuationRealizationActionStatus =
          λ k. (
            find (index_from lease_key [] leases) k,
            find (index_from realization_key [] realizations) k,
          ) in
        let given = first_of executed_key executions key in
        first_of-map executed_key adapter_key (λ v a. judge_adapter current v.0 v.1 a) pair
          (λ v a. refl) executions key
        ∙ ap₂ (λ o r. option_map (judge_adapter current o r) given)
            (find-index_from lease_key [] leases key)
            (find-index_from realization_key [] realizations key)
