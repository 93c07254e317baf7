-- ===== src/Memory.antt =====
-- core/include/server/core/memory and core/src/memory.
pub mod Pool
pub mod Tests
