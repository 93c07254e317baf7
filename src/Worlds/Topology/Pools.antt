-- ===== src/Worlds/Topology/Pools.antt =====
-- core/include/server/core/worlds/topology.hpp: the instances observed, grouped into pools by
-- `collect_observed_pools`. A `std::unordered_map` is a list of pairs in the order of insertion; the
-- order of the real one is open, and no theorem depends on it.
pub mod Counts
use Prim.Native.String.{◌++◌}
use dynaxis.Base.{
  ℕ, ◌+◌, String, Bool, true, false, not, ◌||◌, Option, none, some, List, [], ◌∷◌, if◌then◌else◌,
  str_eq, u32, find, put, values, value_or,
}
use dynaxis.Worlds.Transfer.{is_blank}

pub record DesiredTopologyPool : Type 0 where
  pub world_id : String
  pub shard : String
  pub replicas : ℕ
  pub capacity_class : String
  pub placement_tags : List String

pub record DesiredTopologyDocument : Type 0 where
  pub topology_id : String
  pub revision : ℕ
  pub updated_at_ms : ℕ
  pub pools : List DesiredTopologyPool

pub record ObservedTopologyInstance : Type 0 where
  pub instance_id : String
  pub role : String
  pub world_id : String
  pub shard : String
  pub ready : Bool

pub record ObservedTopologyPool : Type 0 where
  pub world_id : String
  pub shard : String
  pub instances : ℕ
  pub ready_instances : ℕ

abbrev pub make_pool_key : String → String → String
make_pool_key world_id shard = world_id ++ "\n" ++ shard

abbrev pub observed_key : ObservedTopologyPool → String
observed_key pool = make_pool_key pool.world_id pool.shard

abbrev pub new_pool : String → String → ObservedTopologyPool
new_pool world shard = record {
  world_id = world;
  shard = shard;
  instances = 0;
  ready_instances = 0;
}

abbrev pub count_instance : Bool → ObservedTopologyPool → ObservedTopologyPool
count_instance ready pool = record pool {
  instances = u32 (pool.instances + 1);
  ready_instances = if ready then u32 (pool.ready_instances + 1) else pool.ready_instances;
}

-- The tests of the two `continue`s, passed.
abbrev pub is_counted : ObservedTopologyInstance → Bool
is_counted i =
    if not (str_eq i.role "server") then false else not (is_blank i.world_id || is_blank i.shard)

-- One turn of the loop: `emplace`, and the counts of the pool that is there now.
unfoldable pub collect_instance :
    List (String × ObservedTopologyPool)
    → ObservedTopologyInstance
    → List (String × ObservedTopologyPool)
collect_instance index i =
    let key = make_pool_key i.world_id i.shard in
    let pool = value_or (find index key) (new_pool i.world_id i.shard) in
    if is_counted i then put index key (count_instance i.ready pool) else index

unfoldable pub collect_instances :
    List (String × ObservedTopologyPool)
    → List ObservedTopologyInstance
    → List (String × ObservedTopologyPool)
collect_instances index [] = index
collect_instances index (i ∷ is) = collect_instances (collect_instance index i) is

unfoldable pub collect_observed_pools : List ObservedTopologyInstance → List ObservedTopologyPool
collect_observed_pools instances = values (collect_instances [] instances)
