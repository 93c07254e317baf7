-- ===== src/Rudp/Engine/Limits.antt =====
-- The bounds on what is in flight, kept by every call.
use dynaxis.Base.{
  ℕ, ◌+◌, ◌^◌, ◌≤◌, ◌<◌, ◌≡◌, refl, subst, ◌∙◌, String, true, List, [], ◌∷◌, arith, ◌==◌, not, ◌&&◌,
  if◌then◌else◌, length, u64,
}
use dynaxis.Rudp.Queue.{RetransmissionQueue, inflight_packets, push, mark_acked, collect_timeouts}
use dynaxis.Rudp.Queue.Bytes as Bytes
use dynaxis.Rudp.Queue.Bytes.{
  total_bytes, push-IsValid, mark_acked-IsValid, mark_acked-shrinks, collect_timeouts-IsValid,
  collect_timeouts-size, push-size,
}
use dynaxis.Rudp.Packet as Packet
use dynaxis.Rudp.Packet.{DecodeResult, decode_packet, looks_like_rudp}
use dynaxis.Rudp.Packet.RoundTrip.{length-encode_packet}
use dynaxis.Rudp.Peer.{RudpConfig, mark_fallback}
use dynaxis.Rudp.Engine.State.{
  ProcessResult, no_result, Engine, create, reset, make_hello, make_close, make_packet,
}
use dynaxis.Rudp.Engine.Process.{
  set_fallback, fail_handshake, receive_data, dispatch, is_mismatch, acknowledged, admit,
  process_datagram,
}
use dynaxis.Rudp.Engine.Output.{poll, queue_reliable_payload, queue_unreliable_payload}
use dynaxis.Rudp.Engine.Calls.{
  Call, receives, polls, sends_reliable, sends_unreliable, greets, closes, resets, step, run,
}

-- The configured sizes leave room in a 64-bit counter for one more frame with its header.
abbrev pub IsSane : RudpConfig → Type 0
IsSane c = c.max_inflight_bytes + c.mtu_payload_bytes + 68 < 2 ^ 64

-- The queue's counter is right, at most `max_inflight_packets` packets are in flight, and at most
-- 34 bytes, one header, more than `max_inflight_bytes`.
pub record IsBounded (c : RudpConfig) (q : RetransmissionQueue) : Type 0 where
  pub valid : Bytes.IsValid q
  pub packets : inflight_packets q ≤ c.max_inflight_packets
  pub bytes : q.inflight_bytes ≤ c.max_inflight_bytes + 34

mark_acked-IsBounded :
    (c : RudpConfig) (q : RetransmissionQueue) (largest mask : ℕ)
    → IsBounded c q
    → IsBounded c (mark_acked q largest mask)
mark_acked-IsBounded c q largest mask b = record {
  valid = mark_acked-IsValid q largest mask b.valid;
  packets = omega (arith, (mark_acked-shrinks q largest mask).0);
  bytes = omega (
    arith,
    (mark_acked-shrinks q largest mask).1,
    (mark_acked-IsValid q largest mask b.valid).counted,
    b.valid.counted,
  );
}

collect_timeouts-IsBounded :
    (c : RudpConfig) (q : RetransmissionQueue) (now rto batch : ℕ)
    → IsBounded c q
    → IsBounded c (collect_timeouts q now rto batch).1
collect_timeouts-IsBounded c q now rto batch b = record {
  valid = collect_timeouts-IsValid q now rto batch b.valid;
  packets = omega (arith, (collect_timeouts-size q now rto batch).0);
  bytes = omega (arith, (collect_timeouts-size q now rto batch).1);
}

abbrev Keeps : Engine → Engine → Type 0
Keeps e e' = (e'.retransmission_queue ≡ e.retransmission_queue) × (e'.config ≡ e.config)

abbrev Bounded : Engine → Type 0
Bounded e = IsBounded e.config e.retransmission_queue

Keeps-Bounded : (e e' : Engine) → Keeps e e' → Bounded e → Bounded e'
Keeps-Bounded e e' k b = rw (k.0, k.1) b

-- A datagram leaves the queue alone, or takes off it what its header acknowledges.
acked_queue : Engine → List ℕ → RetransmissionQueue
acked_queue e datagram =
    let d = decode_packet datagram in
    if looks_like_rudp datagram && (d.accepted && (d.header.version == 1 && not (is_mismatch e d)))
    then mark_acked e.retransmission_queue d.header.ack_largest d.header.ack_mask
    else e.retransmission_queue

acked_queue-IsBounded :
    (e : Engine) (datagram : List ℕ) → Bounded e → IsBounded e.config (acked_queue e datagram)
unfolding acked_queue
acked_queue-IsBounded e datagram b =
    let h = (decode_packet datagram).header in
    ground
      (arith, mark_acked-IsBounded e.config e.retransmission_queue h.ack_largest h.ack_mask b, b)

length-make_packet :
    (e : Engine) (kind flags channel number now : ℕ) (frame : List ℕ)
    → length (make_packet e kind flags channel number now frame) ≡ 34 + length frame
unfolding make_packet
length-make_packet e kind flags channel number now frame = length-encode_packet _ frame

-- A frame that passes the limits is queued within them.
push-IsBounded :
    (c : RudpConfig) (q : RetransmissionQueue) (number now size : ℕ) (datagram : List ℕ)
    → IsSane c
    → IsBounded c q
    → length datagram ≡ 34 + size
    → size ≤ c.mtu_payload_bytes
    → inflight_packets q < c.max_inflight_packets
    → u64 (q.inflight_bytes + size) ≤ c.max_inflight_bytes
    → IsBounded c (push q number now datagram)
push-IsBounded c q number now size datagram sane b frame fits packets bytes = record {
  valid = push-IsValid q number now datagram b.valid (omega arith);
  packets = omega (arith, (push-size q number now datagram).0);
  bytes = omega (arith, (push-size q number now datagram).1);
}

queue_reliable_payload-Bounded :
    (e : Engine) (frame : List ℕ) (channel now : ℕ)
    → IsSane e.config
    → Bounded e
    → Bounded (queue_reliable_payload e frame channel now).0
unfolding queue_reliable_payload
queue_reliable_payload-Bounded e frame channel now sane b = ground (
  arith,
  b,
  push-IsBounded e.config e.retransmission_queue e.state.next_packet_number now (length frame)
      (make_packet e Packet.data_packet 0 channel e.state.next_packet_number now frame) sane b
      (length-make_packet e Packet.data_packet 0 channel e.state.next_packet_number now frame),
)

config-queue_reliable_payload :
    (e : Engine) (frame : List ℕ) (channel now : ℕ)
    → (queue_reliable_payload e frame channel now).0.config ≡ e.config
unfolding queue_reliable_payload
config-queue_reliable_payload e frame channel now = ground arith

module _ (moved_from : String → String) where
  receive_data-Keeps :
      (e : Engine) (r : ProcessResult) (d : DecodeResult) (now : ℕ)
      → Keeps e (receive_data moved_from e r d now).0
  unfolding receive_data fail_handshake set_fallback mark_fallback
  receive_data-Keeps e r d now = ground arith

  dispatch-Keeps :
      (e : Engine) (r : ProcessResult) (d : DecodeResult) (now : ℕ)
      → Keeps e (dispatch moved_from e r d now).0
  unfolding dispatch set_fallback mark_fallback
  dispatch-Keeps e r d now = ground (arith, receive_data-Keeps e r d now)

  admit-queue :
      (e : Engine) (r : ProcessResult) (d : DecodeResult) (now : ℕ)
      → ((admit moved_from e r d now).0.retransmission_queue ≡ (
          if is_mismatch e d
          then e.retransmission_queue
          else mark_acked e.retransmission_queue d.header.ack_largest d.header.ack_mask))
        × ((admit moved_from e r d now).0.config ≡ e.config)
  unfolding admit fail_handshake set_fallback mark_fallback
  admit-queue e r d now =
      ground (arith, dispatch-Keeps (acknowledged e d now) (record r { parsed = true }) d now)

  process_datagram-queue :
      (e : Engine) (datagram : List ℕ) (now : ℕ)
      → ((process_datagram moved_from e datagram now).0.retransmission_queue
          ≡ acked_queue e datagram)
        × ((process_datagram moved_from e datagram now).0.config ≡ e.config)
  unfolding process_datagram fail_handshake set_fallback mark_fallback acked_queue
  process_datagram-queue e datagram now =
      ground
        (arith, admit-queue e (record no_result { consumed = true }) (decode_packet datagram) now)

  poll-Bounded : (e : Engine) (now : ℕ) → Bounded e → Bounded (poll moved_from e now).0
  unfolding poll set_fallback mark_fallback
  poll-Bounded e now b = ground (
    arith,
    b,
    collect_timeouts-IsBounded e.config e.retransmission_queue now e.state.rtt.rto_ms 16 b,
  )

  config-poll : (e : Engine) (now : ℕ) → (poll moved_from e now).0.config ≡ e.config
  unfolding poll set_fallback mark_fallback
  config-poll e now = ground arith

  step-Bounded :
      (e : Engine) (c : Call) → IsSane e.config → Bounded e → Bounded (step moved_from e c).0
  unfolding step queue_unreliable_payload make_hello make_close reset
  step-Bounded e (receives datagram now) sane b =
      let (q, k) = process_datagram-queue e datagram now in
      rw (q, k) (acked_queue-IsBounded e datagram b)
  step-Bounded e (polls now) sane b = poll-Bounded e now b
  step-Bounded e (sends_reliable frame channel now) sane b =
      queue_reliable_payload-Bounded e frame channel now sane b
  step-Bounded e (sends_unreliable frame channel now) sane b = ground (arith, b)
  step-Bounded e (greets connection_id now) sane b = b
  step-Bounded e (closes now) sane b = b
  step-Bounded e resets sane b = record {
    valid = record { unmarked = tt; counted = refl; fits = omega arith };
    packets = omega arith;
    bytes = omega arith;
  }

  config-step : (e : Engine) (c : Call) → (step moved_from e c).0.config ≡ e.config
  unfolding step queue_unreliable_payload make_hello make_close reset
  config-step e (receives datagram now) = (process_datagram-queue e datagram now).1
  config-step e (polls now) = config-poll e now
  config-step e (sends_reliable frame channel now) =
      config-queue_reliable_payload e frame channel now
  config-step e (sends_unreliable frame channel now) = ground arith
  config-step e (greets connection_id now) = refl
  config-step e (closes now) = refl
  config-step e resets = refl

  run-Bounded :
      (e : Engine) (cs : List Call) → IsSane e.config → Bounded e → Bounded (run moved_from e cs)
  unfolding run
  run-Bounded e [] sane b = b
  run-Bounded e (c ∷ cs) sane b =
      run-Bounded (step moved_from e c).0 cs (rw config-step sane) (step-Bounded e c sane b)

  config-run : (e : Engine) (cs : List Call) → (run moved_from e cs).config ≡ e.config
  unfolding run
  config-run e [] = refl
  config-run e (c ∷ cs) = config-run (step moved_from e c).0 cs ∙ config-step e c

  -- After any sequence of calls on a new engine, resets among them, at most `max_inflight_packets` packets are in
  -- flight, with at most one header more than `max_inflight_bytes` bytes, and the byte counter is
  -- the sum of their sizes, if the configured sizes leave room for a frame in 64 bits.
  pub run-create-IsBounded :
      (c : RudpConfig) (cs : List Call)
      → IsSane c
      → IsBounded c (run moved_from (create c) cs).retransmission_queue
  unfolding create
  run-create-IsBounded c cs sane =
      subst (λ k. IsBounded k (run moved_from (create c) cs).retransmission_queue)
        (config-run (create c) cs) (run-Bounded (create c) cs sane start)
    where
      start : IsBounded c (create c).retransmission_queue
      start = record {
        valid = record { unmarked = tt; counted = refl; fits = omega arith };
        packets = omega arith;
        bytes = omega arith;
      }
