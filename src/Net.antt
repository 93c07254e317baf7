-- ===== src/Net.antt =====
-- core/include/server/core/net: the controls that protect a server from overload.
pub mod RetryBudget
pub mod CircuitBreaker
pub mod Tests
