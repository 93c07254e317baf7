-- ===== src/Realtime.antt =====
-- core/include/server/core/realtime: the direct path, its policies and messages, and the world runtime.
pub mod DirectBind
pub mod DirectDelivery
pub mod TransportPolicy
pub mod TransportQuality
pub mod Runtime
pub mod FixedStep
pub mod BindTests
pub mod Tests
