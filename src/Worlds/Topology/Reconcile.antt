-- ===== src/Worlds/Topology/Reconcile.antt =====
-- core/include/server/core/worlds/topology.hpp: `reconcile_topology` sets the pools wanted against
-- those observed. The turns of a loop that only count are a fold of their own.
pub mod Lookups
pub mod Expected
use dynaxis.Base.{
  ℕ, ◌+◌, String, Bool, true, false, Option, none, some, List, [], ◌∷◌, ◌++◌, if◌then◌else◌, ltb,
  ◌==◌, u32, length, find, erase, values, index_from,
}
use dynaxis.Worlds.Topology.Pools.{
  DesiredTopologyPool, DesiredTopologyDocument, ObservedTopologyPool, make_pool_key, observed_key,
}

pub data TopologyPoolStatus : Type 0 where
  aligned missing_observed_pool under_replicated over_replicated : TopologyPoolStatus
  no_ready_instances undeclared_observed_pool : TopologyPoolStatus

pub record ReconciledTopologyPool : Type 0 where
  pub world_id : String
  pub shard : String
  pub desired_replicas : ℕ
  pub observed_instances : ℕ
  pub ready_instances : ℕ
  pub status : TopologyPoolStatus

pub record TopologyReconciliationSummary : Type 0 where
  pub desired_present : Bool
  pub desired_pools : ℕ
  pub observed_pools : ℕ
  pub aligned_pools : ℕ
  pub missing_pools : ℕ
  pub under_replicated_pools : ℕ
  pub over_replicated_pools : ℕ
  pub undeclared_pools : ℕ
  pub no_ready_pools : ℕ

pub record TopologyReconciliation : Type 0 where
  pub summary : TopologyReconciliationSummary
  pub pools : List ReconciledTopologyPool

abbrev pub desired_key : DesiredTopologyPool → String
desired_key pool = make_pool_key pool.world_id pool.shard

abbrev pub reconciled_key : ReconciledTopologyPool → String
reconciled_key pool = make_pool_key pool.world_id pool.shard

abbrev pub observed_index : List ObservedTopologyPool → List (String × ObservedTopologyPool)
observed_index pools = index_from observed_key [] pools

-- The status of a pool that is wanted and observed.
unfoldable pub observed_status : ObservedTopologyPool → ℕ → TopologyPoolStatus
observed_status observed replicas =
    if observed.instances == 0
    then TopologyPoolStatus.missing_observed_pool
    else if observed.ready_instances == 0
    then TopologyPoolStatus.no_ready_instances
    else if ltb observed.instances replicas
    then TopologyPoolStatus.under_replicated
    else if ltb replicas observed.instances
    then TopologyPoolStatus.over_replicated
    else TopologyPoolStatus.aligned

-- One turn of the loop over the pools wanted, with what the index has for the pool's key.
unfoldable pub reconcile_pool :
    Option ObservedTopologyPool → DesiredTopologyPool → ReconciledTopologyPool
reconcile_pool none pool = record {
  world_id = pool.world_id;
  shard = pool.shard;
  desired_replicas = pool.replicas;
  observed_instances = 0;
  ready_instances = 0;
  status = TopologyPoolStatus.missing_observed_pool;
}
reconcile_pool (some observed) pool = record {
  world_id = pool.world_id;
  shard = pool.shard;
  desired_replicas = pool.replicas;
  observed_instances = observed.instances;
  ready_instances = observed.ready_instances;
  status = observed_status observed pool.replicas;
}

-- The loop over the pools wanted: what it pushes, and what it leaves in the index.
unfoldable pub reconcile_declared :
    List (String × ObservedTopologyPool) → List DesiredTopologyPool → List ReconciledTopologyPool
reconcile_declared index [] = []
reconcile_declared index (pool ∷ pools) =
    reconcile_pool (find index (desired_key pool)) pool
    ∷ reconcile_declared (erase index (desired_key pool)) pools

unfoldable pub erase_declared :
    List (String × ObservedTopologyPool)
    → List DesiredTopologyPool
    → List (String × ObservedTopologyPool)
erase_declared index [] = index
erase_declared index (pool ∷ pools) = erase_declared (erase index (desired_key pool)) pools

unfoldable pub undeclared_pool : ObservedTopologyPool → ReconciledTopologyPool
undeclared_pool pool = record {
  world_id = pool.world_id;
  shard = pool.shard;
  desired_replicas = 0;
  observed_instances = pool.instances;
  ready_instances = pool.ready_instances;
  status = TopologyPoolStatus.undeclared_observed_pool;
}

unfoldable pub reconcile_undeclared : List ObservedTopologyPool → List ReconciledTopologyPool
reconcile_undeclared [] = []
reconcile_undeclared (pool ∷ pools) = undeclared_pool pool ∷ reconcile_undeclared pools

abbrev pub desired_pools : Option DesiredTopologyDocument → List DesiredTopologyPool
desired_pools none = []
desired_pools (some document) = document.pools

abbrev pub has_value {ℓ} : {A : Type ℓ} → Option A → Bool
has_value none = false
has_value (some a) = true

-- The counter that a status increments.
unfoldable pub count_status :
    TopologyPoolStatus → TopologyReconciliationSummary → TopologyReconciliationSummary
count_status TopologyPoolStatus.aligned s = record s { aligned_pools = u32 (s.aligned_pools + 1) }
count_status TopologyPoolStatus.missing_observed_pool s = record s {
  missing_pools = u32 (s.missing_pools + 1);
}
count_status TopologyPoolStatus.under_replicated s = record s {
  under_replicated_pools = u32 (s.under_replicated_pools + 1);
}
count_status TopologyPoolStatus.over_replicated s = record s {
  over_replicated_pools = u32 (s.over_replicated_pools + 1);
}
count_status TopologyPoolStatus.no_ready_instances s = record s {
  no_ready_pools = u32 (s.no_ready_pools + 1);
}
count_status TopologyPoolStatus.undeclared_observed_pool s = record s {
  undeclared_pools = u32 (s.undeclared_pools + 1);
}

unfoldable pub count_statuses :
    TopologyReconciliationSummary → List ReconciledTopologyPool → TopologyReconciliationSummary
count_statuses s [] = s
count_statuses s (pool ∷ pools) = count_statuses (count_status pool.status s) pools

abbrev pub first_reconciliation :
    Option DesiredTopologyDocument → List ObservedTopologyPool → TopologyReconciliationSummary
first_reconciliation desired observed = record {
  desired_present = has_value desired;
  desired_pools = u32 (length (desired_pools desired));
  observed_pools = u32 (length observed);
  aligned_pools = 0;
  missing_pools = 0;
  under_replicated_pools = 0;
  over_replicated_pools = 0;
  undeclared_pools = 0;
  no_ready_pools = 0;
}

abbrev pub reconciled_pools :
    List DesiredTopologyPool → List ObservedTopologyPool → List ReconciledTopologyPool
reconciled_pools desired observed =
    let index = observed_index observed in
    reconcile_declared index desired ++ reconcile_undeclared (values (erase_declared index desired))

unfoldable pub reconcile_topology :
    Option DesiredTopologyDocument → List ObservedTopologyPool → TopologyReconciliation
reconcile_topology desired observed =
    let pools = reconciled_pools (desired_pools desired) observed in
    record { summary = count_statuses (first_reconciliation desired observed) pools; pools = pools }
