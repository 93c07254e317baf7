-- ===== src/Rudp.antt =====
-- core/src/net/rudp and core/include/server/core/net/rudp: the reliable-UDP engine and its parts.
pub mod AckWindow
pub mod Queue
pub mod Packet
pub mod Peer
pub mod Engine
mod Tests
