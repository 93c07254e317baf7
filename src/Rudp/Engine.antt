-- ===== src/Rudp/Engine.antt =====
-- core/src/net/rudp/rudp_engine.cpp: the RUDP engine. Its calls of the process-wide
-- core/src/runtime_metrics.cpp are recorded, newest first, in the field `metrics`. A string that was
-- moved from keeps an unspecified value in C++: it is the parameter `moved_from`.
pub mod State
pub mod Process
pub mod Output
pub mod Calls
pub mod Fallback
pub mod Delivery
pub mod Limits
pub mod EndToEnd
