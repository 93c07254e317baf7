-- ===== src/Storage.antt =====
-- core/include/server/core/storage_execution.
pub mod Backoff
pub mod Tests
