-- ===== src/Concurrent.antt =====
-- core/include/server/core/concurrent and core/src/concurrent.
pub mod Scheduler
pub mod JobQueue
pub mod Tests
