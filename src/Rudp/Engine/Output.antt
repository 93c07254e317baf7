-- ===== src/Rudp/Engine/Output.antt =====
-- `RudpEngine::poll` and the two ways to queue a payload.
use dynaxis.Base.{
  ℕ, ◌+◌, Option, none, some, String, Bool, List, map, ltb, leb, not, ◌&&◌, if◌then◌else◌, bit_or,
  u8, u32, u64, length, is_empty, get_or, set,
}
use dynaxis.Rudp.Queue.{PendingPacket, inflight_packets, push, collect_timeouts}
use dynaxis.Rudp.Packet as Packet
use dynaxis.Rudp.Packet.{
  RudpHeader, DecodeResult, default_header, rudp_header_bytes, flag_ack_only, flag_retransmit,
  encode_packet, decode_packet, looks_like_rudp,
}
use dynaxis.Rudp.Peer.{is_established, is_hello_sent}
use dynaxis.Rudp.Engine.State.{
  RudpFallbackReason, set_inflight_packets, record_fallback, record_retransmit, ProcessResult,
  no_result, Engine, log, make_packet,
}
use dynaxis.Rudp.Engine.Process.{set_fallback}

-- The flag bit of a frame sent again.
unfoldable pub flag_frame : PendingPacket → List ℕ
flag_frame p =
    let frame = p.encoded_frame in
    if leb rudp_header_bytes (length frame)
    then set frame 27 (u8 (bit_or (get_or frame 27 0) flag_retransmit))
    else frame

module _ (moved_from : String → String) where
  unfoldable pub poll : Engine → ℕ → Engine × ProcessResult
  poll e now =
      let s = e.state in
      let (due, queue) = collect_timeouts e.retransmission_queue now s.rtt.rto_ms 16 in
      let sent =
        log (log (record e { retransmission_queue = queue }) (record_retransmit (length due)))
          (set_inflight_packets (inflight_packets queue)) in
      if is_hello_sent s.lifecycle
        && (ltb 0 s.last_send_unix_ms
            && ltb (u64 (s.last_send_unix_ms + e.config.handshake_timeout_ms)) now)
      then set_fallback moved_from e no_result "rudp_handshake_timeout"
      else if is_established s.lifecycle
          && (ltb 0 s.last_recv_unix_ms
              && ltb (u64 (s.last_recv_unix_ms + e.config.idle_timeout_ms)) now)
      then set_fallback moved_from e no_result "rudp_idle_timeout"
      else if is_empty due
      then (record e { retransmission_queue = queue }, no_result)
      else (
        sent,
        record no_result { retransmit_count = length due; egress_datagrams = map flag_frame due },
      )

-- The checks that both kinds of payload pass.
abbrev pub is_sendable : Engine → List ℕ → Bool
is_sendable e frame =
    is_established e.state.lifecycle
    && (not (is_empty frame) && leb (length frame) e.config.mtu_payload_bytes)

-- The packet number is taken, and the datagram made.
abbrev pub number_packet : Engine → List ℕ → ℕ → ℕ → Engine × List ℕ
number_packet e frame channel now = (
  record e {
    state = record (e.state) {
      next_packet_number = u32 (e.state.next_packet_number + 1);
      last_send_unix_ms = now;
    };
  },
  make_packet e Packet.data_packet 0 channel e.state.next_packet_number now frame,
)

-- `none` is the source's `false`, with nothing written to `out_datagram`.
unfoldable pub queue_unreliable_payload : Engine → List ℕ → ℕ → ℕ → Engine × Option (List ℕ)
queue_unreliable_payload e frame channel now =
    let (e', datagram) = number_packet e frame channel now in
    if not (is_sendable e frame) then (e, none) else (e', some datagram)

-- The limits on what is in flight.
abbrev pub has_room : Engine → List ℕ → Bool
has_room e frame =
    not (leb e.config.max_inflight_packets (inflight_packets e.retransmission_queue))
    && not (
        ltb e.config.max_inflight_bytes
          (u64 (e.retransmission_queue.inflight_bytes + length frame)))

unfoldable pub queue_reliable_payload : Engine → List ℕ → ℕ → ℕ → Engine × Option (List ℕ)
queue_reliable_payload e frame channel now =
    let (e', datagram) = number_packet e frame channel now in
    let queue = push e.retransmission_queue e.state.next_packet_number now datagram in
    let queued =
      log (record e' { retransmission_queue = queue })
        (set_inflight_packets (inflight_packets queue)) in
    if not (is_sendable e frame)
    then (e, none)
    else if not (has_room e frame)
    then (log e (record_fallback RudpFallbackReason.inflight_limit), none)
    else (queued, some datagram)
