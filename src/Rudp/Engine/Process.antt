-- ===== src/Rudp/Engine/Process.antt =====
-- `RudpEngine::process_datagram`, in the parts that its early returns divide it into.
use dynaxis.Base.{
  ℕ, ◌+◌, ◌-◌, String, Bool, true, false, List, [], ◌∷◌, ◌++◌, ◌==◌, leb, not, ◌&&◌, ◌||◌,
  if◌then◌else◌, bit_and, u32, u64, is_empty,
}
use dynaxis.Rudp.AckWindow.{observe}
use dynaxis.Rudp.Queue.{inflight_packets, mark_acked}
use dynaxis.Rudp.Packet as Packet
use dynaxis.Rudp.Packet.{
  RudpHeader, DecodeResult, default_header, rudp_header_bytes, flag_ack_only, flag_retransmit,
  encode_packet, decode_packet, looks_like_rudp,
}
use dynaxis.Rudp.Peer.{LifecycleState, is_established, update, mark_fallback}
use dynaxis.Rudp.Engine.State.{
  set_inflight_packets, record_fallback, record_handshake_result, record_rtt_ms, ProcessResult,
  no_result, Engine, classify_fallback_reason, log, make_packet,
}

-- Both sides name a connection, and not the same one.
abbrev pub is_mismatch : Engine → DecodeResult → Bool
is_mismatch e d =
    not (e.state.connection_id == 0)
    && (not (d.header.connection_id == 0) && not (e.state.connection_id == d.header.connection_id))

abbrev pub heard : Engine → ℕ → Engine
heard e now = record e { state = record (e.state) { last_recv_unix_ms = now } }

-- The connection is named if it was not, and what the peer acknowledges leaves the queue.
abbrev pub acknowledged : Engine → DecodeResult → ℕ → Engine
acknowledged e d now =
    let own = e.state.connection_id in
    let queue = mark_acked e.retransmission_queue d.header.ack_largest d.header.ack_mask in
    log
      (record e {
        state = record (e.state) {
          last_recv_unix_ms = now;
          connection_id = if own == 0 then d.header.connection_id else own;
        };
        retransmission_queue = queue;
      })
      (set_inflight_packets (inflight_packets queue))

module _ (moved_from : String → String) where
  unfoldable pub set_fallback : Engine → ProcessResult → String → Engine × ProcessResult
  set_fallback e result reason =
      let marked = mark_fallback e.state reason in
      (
        log
            (record e {
              state = record marked {
                lifecycle = LifecycleState.draining;
                fallback_reason = moved_from marked.fallback_reason;
              };
            })
            (record_fallback (classify_fallback_reason reason)),
        record result { fallback_required = true; fallback_reason = marked.fallback_reason },
      )

  -- A failed handshake is counted and then the session falls back.
  unfoldable pub fail_handshake : Engine → ProcessResult → String → Engine × ProcessResult
  fail_handshake e result reason =
      set_fallback (log e (record_handshake_result false)) result reason

  -- `process_datagram` behind its switch: a packet that carries data.
  unfoldable pub receive_data : Engine → ProcessResult → DecodeResult → ℕ → Engine × ProcessResult
  receive_data e result d now =
      let h = d.header in
      let (ack, window) = observe e.ack_window h.packet_number in
      let e1 = record e {
        ack_window = window;
        state = record (e.state) { ack_largest = ack.ack_largest; ack_mask = ack.ack_mask };
      } in
      let r1 = record result {
        inner_frames =
            if is_empty d.payload
            then result.inner_frames
            else result.inner_frames ++ (d.payload ∷ []);
      } in
      let should_emit_ack =
        bit_and h.flags flag_ack_only == 0
        && leb (u64 (e.state.last_ack_emit_unix_ms + e.config.ack_delay_ms)) now in
      let ack_packet = make_packet e1 Packet.data_packet flag_ack_only h.channel 0 now [] in
      let e2 =
        if should_emit_ack
        then record e1 { state = record (e1.state) { last_ack_emit_unix_ms = now } }
        else e1 in
      let r2 =
        if should_emit_ack
        then record r1 { egress_datagrams = r1.egress_datagrams ++ (ack_packet ∷ []) }
        else r1 in
      let sample = u32 (
        if leb h.timestamp_ms (bit_and now 0xffff_ffff)
        then bit_and now 0xffff_ffff - h.timestamp_ms
        else 0) in
      let rtt = update e2.state.rtt sample e.config.rto_min_ms e.config.rto_max_ms in
      let e3 =
        if h.timestamp_ms == 0
        then e2
        else log (record e2 { state = record (e2.state) { rtt = rtt } }) (record_rtt_ms sample) in
      if not (is_established e.state.lifecycle)
      then fail_handshake e result "rudp_not_established"
      else if not ack.accepted
      then (e1, result)
      else (e3, r2)

  -- The switch of `process_datagram`; a type that no case names falls through, as kData does.
  unfoldable pub dispatch : Engine → ProcessResult → DecodeResult → ℕ → Engine × ProcessResult
  dispatch e result d now =
      let shaken =
        log (record e { state = record (e.state) { lifecycle = LifecycleState.established } })
          (record_handshake_result true) in
      let greeted =
        log
          (record e {
            state = record (e.state) {
              lifecycle = LifecycleState.established;
              last_send_unix_ms = now;
            };
          })
          (record_handshake_result true) in
      if d.header.kind == Packet.hello
      then (
        greeted,
        record result {
          handshake_established = not (is_established e.state.lifecycle);
          egress_datagrams =
              result.egress_datagrams ++ (make_packet greeted Packet.hello_ack 0 0 0 now [] ∷ []);
        },
      )
      else if d.header.kind == Packet.hello_ack
      then (shaken, record result { handshake_established = true })
      else if d.header.kind == Packet.close
      then set_fallback
          (record e { state = record (e.state) { lifecycle = LifecycleState.closed } }) result
          "peer_closed"
      else if d.header.kind == Packet.ping
      then (
        e,
        record result {
          egress_datagrams =
              result.egress_datagrams
              ++ (make_packet e Packet.data_packet flag_ack_only 0 0 now [] ∷ []);
        },
      )
      else receive_data e result d now

  -- What `process_datagram` does with a datagram that decodes.
  unfoldable pub admit : Engine → ProcessResult → DecodeResult → ℕ → Engine × ProcessResult
  admit e result d now =
      let parsed = record result { parsed = true } in
      if is_mismatch e d
      then fail_handshake (heard e now) parsed "connection_id_mismatch"
      else dispatch (acknowledged e d now) parsed d now

  unfoldable pub process_datagram : Engine → List ℕ → ℕ → Engine × ProcessResult
  process_datagram e datagram now =
      let d = decode_packet datagram in
      let consumed = record no_result { consumed = true } in
      if not (looks_like_rudp datagram)
      then (e, no_result)
      else if not d.accepted || not (d.header.version == 1)
      then fail_handshake e consumed "invalid_rudp_packet"
      else admit e consumed d now
