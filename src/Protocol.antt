-- ===== src/Protocol.antt =====
-- core/include/server/core/protocol/packet.hpp: the wire protocol shared by all programs.
pub mod Bytes
pub mod Header
pub mod Text
mod Tests
