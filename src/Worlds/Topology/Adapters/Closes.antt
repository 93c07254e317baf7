-- ===== src/Worlds/Topology/Adapters/Closes.antt =====
-- From the plan to the realization: what is observed when an action has had its effect.
use dynaxis.Base.{◌≡◌, ◌<◌, ◌^◌, Bool, true, Option, none, some, arith, ◌-ℤ◌}
use dynaxis.Worlds.Topology.Pools.{DesiredTopologyPool, ObservedTopologyPool}
use dynaxis.Worlds.Topology.Reconcile.{reconcile_pool, observed_status}
use dynaxis.Worlds.Topology.Plan.{TopologyActuationAction, action_for}
use dynaxis.Worlds.Topology.Plan.Lookups.{planned_from}
use dynaxis.Worlds.Topology.Executions.{TopologyActuationExecutionItem}
use dynaxis.Worlds.Topology.Realizations.{instances_of, ready_of, is_realized}

-- A pool that is wanted is steady: as many instances as wanted, one of them ready.
pub record IsSteady (desired : DesiredTopologyPool) (observed : Option ObservedTopologyPool)
    : Type 0 where
  pub wanted : 0 < desired.replicas
  pub instances : instances_of observed ≡ desired.replicas
  pub ready : 0 < ready_of observed

pub planned_from-IsSteady :
    (d : DesiredTopologyPool) (o : Option ObservedTopologyPool)
    → IsSteady d o
    → planned_from (some d) o ≡ none
unfolding reconcile_pool observed_status action_for
planned_from-IsSteady d none h = ground (arith, h.ready)
planned_from-IsSteady d (some o) h = ground (arith, h.wanted, h.instances, h.ready)

-- An execution's item was recorded at the observation that its action was planned from.
abbrev pub IsBaseline : TopologyActuationExecutionItem → Option ObservedTopologyPool → Type 0
IsBaseline item observed =
    (item.observed_instances_before ≡ instances_of observed)
    × (item.ready_instances_before ≡ ready_of observed)

-- The counts after show the effect of the action, if there is one.
abbrev pub shows_effect :
    Option TopologyActuationAction
    → TopologyActuationExecutionItem
    → Option ObservedTopologyPool
    → Bool
shows_effect none item after = true
shows_effect (some a) item after = is_realized a.action a.replica_delta (some item) after

module _ (d : DesiredTopologyPool) (after : Option ObservedTopologyPool)
    (item : TopologyActuationExecutionItem) (small : d.replicas < 2 ^ 31)
    (steady : IsSteady d after) where
  shows_effect-none :
      item.observed_instances_before ≡ 0
      → shows_effect (planned_from (some d) none) item after ≡ true
  unfolding reconcile_pool action_for is_realized ◌-ℤ◌
  shows_effect-none base = ground (arith, small, steady.instances, base)

  shows_effect-some :
      (o : ObservedTopologyPool)
      → o.instances < 2 ^ 31
      → item.observed_instances_before ≡ o.instances
      → item.ready_instances_before ≡ o.ready_instances
      → shows_effect (planned_from (some d) (some o)) item after ≡ true
  unfolding reconcile_pool action_for is_realized ◌-ℤ◌ observed_status
  shows_effect-some o few base ready_base = ground (arith, small, steady.instances, steady.ready)

  pub shows_effect-planned_from :
      (before : Option ObservedTopologyPool)
      → instances_of before < 2 ^ 31
      → IsBaseline item before
      → shows_effect (planned_from (some d) before) item after ≡ true
  shows_effect-planned_from none few base = shows_effect-none base.0
  shows_effect-planned_from (some o) few base = shows_effect-some o few base.0 base.1
