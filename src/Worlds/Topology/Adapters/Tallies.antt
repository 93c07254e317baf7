-- ===== src/Worlds/Topology/Adapters/Tallies.antt =====
-- The counts of the adapter's summary.
use dynaxis.Base.{◌≡◌, refl, ap, ◌∙◌, ℕ, suc, ◌+◌, Option, List, [], ◌∷◌, arith, length, u32, map}
use dynaxis.Worlds.Topology.Pools.{DesiredTopologyDocument, ObservedTopologyPool}
use dynaxis.Worlds.Topology.Requests.{
  TopologyActuationRequestDocument, requested_actions, evaluate_topology_actuation_request_status,
}
use dynaxis.Worlds.Topology.Executions.{
  TopologyActuationExecutionDocument, evaluate_topology_actuation_execution_status,
}
use dynaxis.Worlds.Topology.Adapters.{
  TopologyActuationAdapterLeaseDocument, TopologyActuationAdapterStatusState,
  TopologyActuationAdapterStatusSummary, TopologyActuationAdapterStatusAction, count_adapter,
  count_adapters, evaluate_topology_actuation_adapter_status,
}

abbrev pub tally : TopologyActuationAdapterStatusSummary → ℕ
tally s =
    s.available_actions + s.leased_actions + s.awaiting_realization_actions + s.realized_actions
    + s.failed_actions + s.stale_actions

tally-count_adapter :
    (state : TopologyActuationAdapterStatusState) (s : TopologyActuationAdapterStatusSummary)
    → u32 (tally (count_adapter state s)) ≡ u32 (tally s + 1)
unfolding count_adapter
tally-count_adapter TopologyActuationAdapterStatusState.available s = omega arith
tally-count_adapter TopologyActuationAdapterStatusState.leased s = omega arith
tally-count_adapter TopologyActuationAdapterStatusState.awaiting_realization s = omega arith
tally-count_adapter TopologyActuationAdapterStatusState.realized s = omega arith
tally-count_adapter TopologyActuationAdapterStatusState.failed s = omega arith
tally-count_adapter TopologyActuationAdapterStatusState.stale s = omega arith

tally-count_adapters :
    (s : TopologyActuationAdapterStatusSummary)
    (actions : List TopologyActuationAdapterStatusAction)
    → u32 (tally (count_adapters s actions)) ≡ u32 (tally s + length actions)
unfolding count_adapters
tally-count_adapters s [] = ap u32 (omega arith)
tally-count_adapters s (a ∷ actions) =
    omega
      (arith, tally-count_adapters (count_adapter a.state s) actions, tally-count_adapter a.state s)

count_adapter-total :
    (state : TopologyActuationAdapterStatusState) (s : TopologyActuationAdapterStatusSummary)
    → (count_adapter state s).actions_total ≡ s.actions_total
unfolding count_adapter
count_adapter-total TopologyActuationAdapterStatusState.available s = refl
count_adapter-total TopologyActuationAdapterStatusState.leased s = refl
count_adapter-total TopologyActuationAdapterStatusState.awaiting_realization s = refl
count_adapter-total TopologyActuationAdapterStatusState.realized s = refl
count_adapter-total TopologyActuationAdapterStatusState.failed s = refl
count_adapter-total TopologyActuationAdapterStatusState.stale s = refl

count_adapters-total :
    (s : TopologyActuationAdapterStatusSummary)
    (actions : List TopologyActuationAdapterStatusAction)
    → (count_adapters s actions).actions_total ≡ s.actions_total
unfolding count_adapters
count_adapters-total s [] = refl
count_adapters-total s (a ∷ actions) =
    count_adapters-total (count_adapter a.state s) actions ∙ count_adapter-total a.state s

length-map {ℓ κ} :
    {A : Type ℓ} {B : Type κ} (f : A → B) (xs : List A) → length (map f xs) ≡ length xs
length-map f [] = refl
length-map f (x ∷ xs) = ap suc (length-map f xs)

-- Every action requested has one status of the adapter, and its summary counts each status in
-- exactly one of its six counts, all modulo 2 ^ 32.
pub tally-evaluate_topology_actuation_adapter_status :
    (lease : Option TopologyActuationAdapterLeaseDocument)
    (execution : Option TopologyActuationExecutionDocument)
    (request : Option TopologyActuationRequestDocument) (desired : Option DesiredTopologyDocument)
    (observed : List ObservedTopologyPool)
    → let status =
        evaluate_topology_actuation_adapter_status lease execution request desired observed in
      (length status.actions ≡ length (requested_actions request))
      × (status.summary.actions_total ≡ u32 (length status.actions))
      × (u32 (tally status.summary) ≡ u32 (length status.actions))
unfolding evaluate_topology_actuation_adapter_status evaluate_topology_actuation_execution_status
    evaluate_topology_actuation_request_status
tally-evaluate_topology_actuation_adapter_status lease execution request desired observed = (
  length-map _ _ ∙ length-map _ _ ∙ length-map _ (requested_actions request),
  count_adapters-total _ _,
  tally-count_adapters _ _ ∙ ap u32 (omega arith),
)
