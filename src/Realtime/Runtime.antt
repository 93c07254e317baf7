-- ===== src/Realtime/Runtime.antt =====
-- core/src/realtime/runtime.cpp: the authoritative state of a world, advanced tick by tick, and the
-- updates that keep its viewers in step.
pub mod State
pub mod Inputs
pub mod Views
pub mod Ticks
pub mod Replica
pub mod Visible
pub mod Rewind
pub mod Tests
