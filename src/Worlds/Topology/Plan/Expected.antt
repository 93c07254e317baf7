-- ===== src/Worlds/Topology/Plan/Expected.antt =====
-- The action that the counts of a pool call for, described without the code's functions.
use Prim.Native.Nat.{compare, Ordering}
use dynaxis.Base.{
  ◌≡◌, refl, ◌∙◌, ℕ, zero, suc, String, true, false, Option, none, some, List, pos, ◌-ℤ◌, ℤ,
  first_of, arith, ap,
}
use dynaxis.Worlds.Topology.Pools.{
  DesiredTopologyPool, DesiredTopologyDocument, ObservedTopologyPool, observed_key,
}
use dynaxis.Worlds.Topology.Reconcile.{
  TopologyPoolStatus, desired_key, desired_pools, undeclared_pool,
}
use dynaxis.Worlds.Topology.Reconcile.Expected.{
  observed_instances, observed_ready, expected, reconcile_pool-expected,
}
use dynaxis.Worlds.Topology.Plan.{
  TopologyActuationAction, TopologyActuationActionKind, action_key, to_i32, action_for, plan_pool,
  plan_topology_actuation,
}
use dynaxis.Worlds.Topology.Plan.Lookups.{
  AreDistinct, planned_from, first_of-plan_topology_actuation,
}

-- What the instances, those ready and the replicas wanted call for: the status, the kind and the
-- change of replicas.
abbrev call_for : ℕ → ℕ → ℕ → Option (TopologyPoolStatus × (TopologyActuationActionKind × ℤ))
call_for zero ready replicas = some (
  TopologyPoolStatus.missing_observed_pool,
  (TopologyActuationActionKind.scale_out_pool, to_i32 replicas -ℤ pos 0),
)
call_for (suc n) zero replicas = some (
  TopologyPoolStatus.no_ready_instances,
  (TopologyActuationActionKind.restore_pool_readiness, pos 0),
)
call_for (suc n) (suc r) replicas = elim (compare (suc n) replicas) [
  | Ordering.lt ↦ some (
    TopologyPoolStatus.under_replicated,
    (TopologyActuationActionKind.scale_out_pool, to_i32 replicas -ℤ to_i32 (suc n)),
  )
  | Ordering.eq ↦ none
  | Ordering.gt ↦ some (
    TopologyPoolStatus.over_replicated,
    (TopologyActuationActionKind.scale_in_pool, to_i32 (suc n) -ℤ to_i32 replicas),
  )
]

abbrev action_on :
    DesiredTopologyPool
    → ℕ
    → ℕ
    → Option (TopologyPoolStatus × (TopologyActuationActionKind × ℤ))
    → Option TopologyActuationAction
action_on d n r none = none
action_on d n r (some called) = some record {
  world_id = d.world_id;
  shard = d.shard;
  status = called.0;
  action = called.1.0;
  desired_replicas = d.replicas;
  observed_instances = n;
  ready_instances = r;
  replica_delta = called.1.1;
  actionable = true;
}

-- The action for a key, from what is wanted and what is observed of it.
abbrev pub called_for :
    Option DesiredTopologyPool → Option ObservedTopologyPool → Option TopologyActuationAction
called_for none none = none
called_for none (some o) = some record {
  world_id = o.world_id;
  shard = o.shard;
  status = TopologyPoolStatus.undeclared_observed_pool;
  action = TopologyActuationActionKind.observe_undeclared_pool;
  desired_replicas = 0;
  observed_instances = o.instances;
  ready_instances = o.ready_instances;
  replica_delta = to_i32 o.instances;
  actionable = false;
}
called_for (some d) o =
    let n = observed_instances o in
    let r = observed_ready o in action_on d n r (call_for n r d.replicas)

plan_pool-expected :
    (o : Option ObservedTopologyPool) (d : DesiredTopologyPool) (n r : ℕ)
    → observed_instances o ≡ n
    → observed_ready o ≡ r
    → plan_pool (expected o d) ≡ action_on d n r (call_for n r d.replicas)
unfolding action_for
plan_pool-expected o d zero r same ready = ground (arith, same, ready)
plan_pool-expected o d (suc n) zero same ready = ground (arith, same, ready)
plan_pool-expected o d (suc n) (suc r) same ready = ground (arith, same, ready)

pub planned_from-called_for :
    (d : Option DesiredTopologyPool) (o : Option ObservedTopologyPool)
    → planned_from d o ≡ called_for d o
unfolding action_for undeclared_pool
planned_from-called_for none none = refl
planned_from-called_for none (some o) = refl
planned_from-called_for (some d) o =
    ap plan_pool (reconcile_pool-expected o d)
    ∙ plan_pool-expected o d (observed_instances o) (observed_ready o) refl refl

-- When no pool is wanted twice, the first action of a plan for a key is the one that the counts of
-- the first pool wanted and of the first pool observed of that key call for, and there is none
-- exactly where they call for none: to scale out by the difference where no instance is observed, or
-- some are ready and there are fewer than wanted; to restore readiness where instances are observed
-- and none is ready; to scale in by the difference where some are ready and there are more than
-- wanted; and, not to be acted on, to observe a pool that is not wanted. The counts are read as
-- signed numbers of 32 bits, and their difference is exact.
pub first_of-plan_topology_actuation-called_for :
    (desired : Option DesiredTopologyDocument) (observed : List ObservedTopologyPool) (key : String)
    → AreDistinct (desired_pools desired)
    → first_of action_key (plan_topology_actuation desired observed).actions key
      ≡ called_for
          (first_of desired_key (desired_pools desired) key)
          (first_of observed_key observed key)
first_of-plan_topology_actuation-called_for desired observed key h =
    first_of-plan_topology_actuation desired observed key h
    ∙ planned_from-called_for (first_of desired_key (desired_pools desired) key)
        (first_of observed_key observed key)
