-- ===== src/Lib.antt =====
-- Dynaxis: models of the reliable UDP transport, the packet header, the overload controls, the bind
-- guard of the gateway, the policies that drain and move worlds, the topology of worlds, the choice of
-- a direct path, the world runtime, the task scheduler, the job queue and the memory pool, with the
-- theorems that make them correct.
--
-- The program. Dynaxis is a C++ game-server stack: a core library (core/), a gateway that terminates
-- client connections (gateway/), and a chat and FPS server behind it (server/). Clients speak a
-- framed protocol over TCP and, where both sides agree, the same frames over RUDP, a reliable layer
-- on UDP with a fallback to TCP. Worlds are owned by server instances; operators drain a world, hand
-- it to another owner or move it.
--
-- Base holds what the parts share: comparisons on numbers, unsigned words of 8, 16, 32 and 64 bits
-- with their wrap-around written out, integers, list functions over the native numbers, maps with
-- text keys and with number keys, and single bits of a word.
--
-- Protocol models core/include/server/core/protocol/packet.hpp: the writers and readers of
-- big-endian integers (Protocol.Bytes), the 14-byte packet header (Protocol.Header), and text in
-- UTF-8 behind its length (Protocol.Text).
--
-- Rudp models core/src/net/rudp and core/include/server/core/net/rudp.
--   Rudp.AckWindow   AckWindow of ack_window.cpp: `observe`; a set of numbers given so far is the
--                    abstract view that the window refines.
--   Rudp.Queue       RetransmissionQueue of retransmission_queue.cpp: push, mark_acked,
--                    collect_timeouts.
--   Rudp.Packet      rudp_packet.hpp: header, encode_packet, decode_packet.
--   Rudp.Peer        rudp_peer_state.hpp: lifecycle, statistics, RttEstimator.
--   Rudp.Engine      RudpEngine of rudp_engine.cpp: the state of an engine and make_packet
--                    (State), process_datagram (Process), the calls that send and poll (Output), and
--                    sequences of calls (Calls). The engine owns one window, one queue and one peer
--                    state. Calls of core/runtime_metrics are kept as a log in the order they happen.
--
-- Concurrent models TaskScheduler of core/src/concurrent/task_scheduler.cpp: the calls
-- (Concurrent.Scheduler) and `poll` (Concurrent.Scheduler.Poll). Records stand in a heap that the map
-- and the queues point into. The callables, the clock, the generator and products with the multiplier,
-- a floating-point number, are the parameter Environment; a callable is a list of calls of the
-- scheduler, a validator is such a list and an answer, and none polls. `poll` lists what it ran, and does not count it.
-- Concurrent.JobQueue is JobQueue of core/src/concurrent/job_queue.cpp: what each call does under the
-- mutex, and (Threads) the interleavings of any number of threads that call it, as a step relation.
--
-- Memory models MemoryPool of core/src/memory/memory_pool.cpp (Memory.Pool).
--
-- Net models RetryBudget and CircuitBreaker of core/include/server/core/net/resilience_controls.hpp.
--
-- Storage models core/include/server/core/storage_execution/retry_backoff.hpp.
--
-- Gateway models UdpBindAbuseGuard of gateway/include/gateway/udp_bind_abuse_guard.hpp
-- (Gateway.BindGuard).
--
-- Worlds models the judgements of core/include/server/core/worlds on one observation:
--   Worlds.Transfer       evaluate_world_transfer of world_transfer.hpp
--   Worlds.Migration      evaluate_world_migration of migration.hpp
--   Worlds.Drain          evaluate_world_drain of world_drain.hpp
--   Worlds.Orchestration  evaluate_world_drain_orchestration of world_drain.hpp, which reads the
--                         statuses of the other three.
--   Worlds.Topology       topology.hpp: collect_observed_pools (Pools), reconcile_topology
--                         (Reconcile), plan_topology_actuation (Plan), the statuses of a request, an
--                         execution, its realization and an adapter's lease (Requests, Executions,
--                         Realizations, Adapters), and the names of the states (Names). An unordered
--                         map is a list of pairs in the order of insertion; a loop that looks a key up
--                         and counts is a map over its list and a fold over what it pushes.
--
-- Realtime models core/include/server/core/realtime: the route of a message (Realtime.DirectDelivery,
-- direct_delivery.hpp), the messages that bind a UDP endpoint (Realtime.DirectBind, direct_bind.hpp),
-- the rollout of the direct path (Realtime.TransportPolicy, transport_policy.hpp) and
-- UdpSequencedMetrics (Realtime.TransportQuality, transport_quality.hpp).
--   Realtime.FixedStep  FixedStepDriver of core/src/realtime/runtime.cpp. Its loop is fuelled by the
--                       most steps it may catch up, and a theorem shows that this is enough.
--   Realtime.Runtime    WorldRuntime of the same file: its state, the grid of cells (State),
--                       stage_input and remove_session (Inputs), what a viewer sees and is told
--                       (Views), tick and rewind_at_or_before (Ticks). An unordered map is a list of
--                       pairs, a set an ascending list. Coordinates are integers, cut to 32 bits where
--                       the source clamps them; the sums and differences by which cells are found
--                       are exact, where the source computes them at 32 bits.
--   Realtime.Runtime.Replica is the other end: a client that replaces what it shows by a snapshot, and
--                       that overwrites what a delta lists and drops what it removes. The updates of
--                       every tick reach it in order; a session that leaves clears its client.
--
-- Conventions. A C++ object is a record, and a member function takes it and returns it with what it
-- returns. A byte is a number, a string of bytes a list of them. A clock reading is an argument. A
-- mutex that a member function holds throughout makes the call one step. Loops are structural
-- recursions on the sequence they walk, or take fuel where this is said.
--
-- Parameters. A std::string that has been moved from is left in a valid but unspecified state: the
-- text it then holds is the parameter `moved_from` of the engine, and nothing is assumed of it. The
-- uniform distribution that draws a retry delay is the parameter `uniform`, of which a theorem
-- assumes that it draws nothing above its bound.
--
-- Not modelled: the token bucket, whose tokens are floating-point numbers; the parsers and
-- printers of migration envelopes and of lifecycle policies; sockets, threads, timers and signal
-- handling; logging and metrics export; databases and Redis; the Lua and native plugin hosts;
-- container and cloud clients; the chat and FPS services; generated code and tools.
pub mod Base
pub mod Concurrent
pub mod Memory
pub mod Rudp
pub mod Protocol
pub mod Net
pub mod Storage
pub mod Gateway
pub mod Worlds
pub mod Realtime
