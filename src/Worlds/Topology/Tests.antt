-- ===== src/Worlds/Topology/Tests.antt =====
-- The theorems about topologies at concrete inputs.
use dynaxis.Base.{
  ◌↔◌, ◌≡◌, refl, ◌∙◌, ℕ, String, true, false, none, some, List, [], ◌∷◌, arith, first_of, pos,
  ◌-ℤ◌, option_map,
}
use dynaxis.Worlds.Topology.Pools.{
  DesiredTopologyPool, DesiredTopologyDocument, ObservedTopologyInstance, ObservedTopologyPool,
  observed_key, collect_observed_pools,
}
use dynaxis.Worlds.Topology.Pools.Counts.{counts, collect_observed_pools_lem}
use dynaxis.Worlds.Topology.Reconcile.{
  TopologyPoolStatus, reconcile_topology, reconcile_declared, erase_declared, reconcile_undeclared,
  undeclared_pool, reconcile_pool, observed_status,
}
use dynaxis.Worlds.Topology.Reconcile.Expected.{
  expected_all, returned_here, returned_here-reconcile_topology,
}
use dynaxis.Worlds.Topology.Plan.{
  TopologyActuationAction, TopologyActuationActionKind, action_key, plan_topology_actuation,
  plan_pools, action_for,
}
use dynaxis.Worlds.Topology.Plan.Lookups.{planned_from, first_of-plan_topology_actuation}
use dynaxis.Worlds.Topology.Plan.Expected.{called_for, first_of-plan_topology_actuation-called_for}
use dynaxis.Worlds.Topology.Requests.{
  TopologyActuationRequestDocument, evaluate_topology_actuation_request_status, judge_request,
  request_state,
}
use dynaxis.Worlds.Topology.Executions.{
  TopologyActuationExecutionStatusState, TopologyActuationExecutionDocument,
  TopologyActuationExecutionActionState, TopologyActuationExecutionItem, item_key,
  evaluate_topology_actuation_execution_status, judge_execution, execution_status_state, item_state,
  execution_matches_request, revision_matches,
}
use dynaxis.Worlds.Topology.Realizations.{
  TopologyActuationRealizationState, evaluate_topology_actuation_realization_status,
  judge_realization, realization_state, is_realized,
}
use dynaxis.Worlds.Topology.Adapters.{
  TopologyActuationAdapterStatusAction, TopologyActuationAdapterLeaseDocument,
  TopologyActuationAdapterStatusState, evaluate_topology_actuation_adapter_status, judge_adapter,
  adapter_state, lease_revision_matches,
}
use dynaxis.Worlds.Topology.Adapters.Lookups.{adapter_key}
use dynaxis.Worlds.Topology.Adapters.Realized.{evaluate_topology_actuation_adapter_status_lem}
use dynaxis.Worlds.Topology.Adapters.Backed.{
  IsBacked, evaluate_topology_actuation_adapter_status-IsBacked,
}
use dynaxis.Worlds.Topology.Names.{
  parse_topology_actuation_action_kind, topology_actuation_action_kind_name,
  parse_topology_actuation_action_kind_lem,
}

abbrev key : String
key = "starter-a\nalpha"

abbrev instance_of : String → ObservedTopologyInstance
instance_of name = record {
  instance_id = name;
  role = "server";
  world_id = "starter-a";
  shard = "alpha";
  ready = true;
}

-- Two servers of the pool and a gateway.
abbrev instances : List ObservedTopologyInstance
instances =
    instance_of "s1"
    ∷ record (instance_of "g1") { role = "gateway" }
    ∷ record (instance_of "s2") { ready = false }
    ∷ []

collect_observed_pools_lem_example :
    counts (first_of observed_key (collect_observed_pools instances) key) ≡ (2, 1)
collect_observed_pools_lem_example = collect_observed_pools_lem instances key

abbrev wanted : DesiredTopologyPool
wanted = record {
  world_id = "starter-a";
  shard = "alpha";
  replicas = 3;
  capacity_class = "standard";
  placement_tags = [];
}

abbrev topology : DesiredTopologyDocument
topology = record {
  topology_id = "starter";
  revision = 10;
  updated_at_ms = 0;
  pools = wanted ∷ record wanted { world_id = "starter-b" } ∷ [];
}

abbrev pool_of : ℕ → ObservedTopologyPool
pool_of n = record { world_id = "starter-a"; shard = "alpha"; instances = n; ready_instances = 1 }

-- One instance is there before, three after.
abbrev before : List ObservedTopologyPool
before = pool_of 1 ∷ []

abbrev after : List ObservedTopologyPool
after = pool_of 3 ∷ record (pool_of 2) { world_id = "starter-c" } ∷ []

-- The key of the pool that is not wanted: it is returned once.
returned_here-reconcile_topology_example :
    returned_here "starter-c\nalpha" (reconcile_topology (some topology) after).pools
    ≡ expected_all [] (some (record (pool_of 2) { world_id = "starter-c" }))
returned_here-reconcile_topology_example =
    returned_here-reconcile_topology (some topology) after "starter-c\nalpha"

abbrev scale_out : TopologyActuationAction
scale_out = record {
  world_id = "starter-a";
  shard = "alpha";
  status = TopologyPoolStatus.under_replicated;
  action = TopologyActuationActionKind.scale_out_pool;
  desired_replicas = 3;
  observed_instances = 1;
  ready_instances = 1;
  replica_delta = pos 2;
  actionable = true;
}

planned_scale_out : planned_from (some wanted) (some (pool_of 1)) ≡ some scale_out
unfolding reconcile_pool observed_status action_for ◌-ℤ◌
planned_scale_out = refl

planned_before :
    first_of action_key (plan_topology_actuation (some topology) before).actions key
    ≡ planned_from (some wanted) (some (pool_of 1))
planned_before = first_of-plan_topology_actuation (some topology) before key (refl, (refl, tt))

-- Two are missing of the three that are wanted.
first_of-plan_topology_actuation-called_for_example :
    first_of action_key (plan_topology_actuation (some topology) before).actions key
    ≡ called_for (some wanted) (some (pool_of 1))
first_of-plan_topology_actuation-called_for_example =
    first_of-plan_topology_actuation-called_for (some topology) before key (refl, (refl, tt))

called_to_scale_out : called_for (some wanted) (some (pool_of 1)) ≡ some scale_out
unfolding ◌-ℤ◌
called_to_scale_out = refl

abbrev request : TopologyActuationRequestDocument
request = record {
  request_id = "boundary";
  revision = 5;
  requested_at_ms = 0;
  basis_topology_revision = 10;
  actions =
      record {
        world_id = "starter-a";
        shard = "alpha";
        action = TopologyActuationActionKind.scale_out_pool;
        replica_delta = pos 2;
      }
      ∷ [];
}

abbrev item : TopologyActuationExecutionItem
item = record {
  action = record {
    world_id = "starter-a";
    shard = "alpha";
    action = TopologyActuationActionKind.scale_out_pool;
    replica_delta = pos 2;
  };
  observed_instances_before = 1;
  ready_instances_before = 1;
  state = TopologyActuationExecutionActionState.completed;
}

abbrev execution : TopologyActuationExecutionDocument
execution = record {
  executor_id = "executor-a";
  revision = 7;
  updated_at_ms = 0;
  request_revision = 5;
  actions = item ∷ [];
}

abbrev lease : TopologyActuationAdapterLeaseDocument
lease = record {
  adapter_id = "adapter-a";
  revision = 1;
  leased_at_ms = 0;
  execution_revision = 7;
  actions =
      record {
        world_id = "starter-a";
        shard = "alpha";
        action = TopologyActuationActionKind.scale_out_pool;
        replica_delta = pos 2;
      }
      ∷ [];
}

evaluate_topology_actuation_adapter_status_lem_example :
    option_map
      (λ s. s.state)
      (first_of adapter_key
        (evaluate_topology_actuation_adapter_status
          (some lease)
          (some execution)
          (some request)
          (some topology)
          after).actions
        key)
    ≡ some TopologyActuationAdapterStatusState.realized
evaluate_topology_actuation_adapter_status_lem_example =
    evaluate_topology_actuation_adapter_status_lem key topology before after wanted scale_out
      request
      record {
        world_id = "starter-a";
        shard = "alpha";
        action = TopologyActuationActionKind.scale_out_pool;
        replica_delta = pos 2;
      }
      execution item
      record {
        distinct = (refl, (refl, tt));
        found = refl;
        small = omega arith;
        few = omega arith;
        planned = planned_before ∙ planned_scale_out;
      }
      record { found = refl; kind = refl; delta = refl }
      record {
        found = refl;
        kind = refl;
        delta = refl;
        state = refl;
        revision = refl;
        baseline = (refl, refl);
      }
      record { wanted = omega arith; instances = refl; ready = omega arith } lease
      record {
        world_id = "starter-a";
        shard = "alpha";
        action = TopologyActuationActionKind.scale_out_pool;
        replica_delta = pos 2;
      }
      record { found = refl; kind = refl; delta = refl; revision = refl }

abbrev status : TopologyActuationAdapterStatusAction
status = record {
  world_id = "starter-a";
  shard = "alpha";
  requested_action = TopologyActuationActionKind.scale_out_pool;
  requested_replica_delta = pos 2;
  state = TopologyActuationAdapterStatusState.realized;
  execution_state = some TopologyActuationExecutionStatusState.completed;
  realization_state = some TopologyActuationRealizationState.realized;
}

shown_realized :
    first_of adapter_key
      (evaluate_topology_actuation_adapter_status
        (some lease)
        (some execution)
        (some request)
        (some topology)
        after).actions
      key
    ≡ some status
unfolding evaluate_topology_actuation_adapter_status evaluate_topology_actuation_execution_status
    evaluate_topology_actuation_realization_status evaluate_topology_actuation_request_status
    plan_topology_actuation reconcile_topology reconcile_declared reconcile_undeclared
    erase_declared reconcile_pool undeclared_pool observed_status plan_pools action_for
    judge_request request_state judge_execution execution_status_state item_state
    execution_matches_request revision_matches judge_realization realization_state is_realized
    judge_adapter adapter_state lease_revision_matches ◌-ℤ◌
shown_realized = refl

evaluate_topology_actuation_adapter_status-IsBacked_example :
    IsBacked
      (revision_matches (some execution) (some request))
      (first_of action_key (plan_topology_actuation (some topology) after).actions key)
      (first_of item_key execution.actions key)
      TopologyActuationActionKind.scale_out_pool
      (pos 2)
evaluate_topology_actuation_adapter_status-IsBacked_example =
    evaluate_topology_actuation_adapter_status-IsBacked (some lease) (some execution) (some request)
      (some topology) after key status shown_realized refl

-- A pool that no instance should have is planned to be scaled out by none, again and again.
zero_replicas :
    option_map (λ a. a.replica_delta) (planned_from (some (record wanted { replicas = 0 })) none)
    ≡ some (pos 0)
unfolding reconcile_pool action_for ◌-ℤ◌
zero_replicas = refl

parse_topology_actuation_action_kind_lem_example :
    (parse_topology_actuation_action_kind "scale_in_pool"
      ≡ some TopologyActuationActionKind.scale_in_pool)
    ↔ (topology_actuation_action_kind_name TopologyActuationActionKind.scale_in_pool
        ≡ "scale_in_pool")
parse_topology_actuation_action_kind_lem_example =
    parse_topology_actuation_action_kind_lem "scale_in_pool"
      TopologyActuationActionKind.scale_in_pool
