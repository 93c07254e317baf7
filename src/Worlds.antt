-- ===== src/Worlds.antt =====
-- core/include/server/core/worlds: how a world is drained, handed over and moved.
pub mod Transfer
pub mod Migration
pub mod Drain
pub mod Orchestration
pub mod Topology
pub mod Tests
