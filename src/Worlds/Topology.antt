-- ===== src/Worlds/Topology.antt =====
-- core/include/server/core/worlds/topology.hpp: the pools of instances that are wanted and those
-- observed, the plan that closes the gap, and the four documents that follow an action of the plan:
-- the request, the execution, its realization and the lease of an adapter.
pub mod Pools
pub mod Reconcile
pub mod Plan
pub mod Requests
pub mod Executions
pub mod Realizations
pub mod Adapters
pub mod Tests
pub mod Names
