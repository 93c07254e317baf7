-- ===== src/Gateway.antt =====
-- gateway/: the server that terminates the connections of clients.
pub mod BindGuard
pub mod Tests
