-- ===== src/Rudp/Engine/State.antt =====
-- The engine's state, its results and the packets that it makes.
use dynaxis.Base.{
  ℕ, min, String, Bool, false, List, [], ◌∷◌, str_eq, ◌||◌, if◌then◌else◌, bit_and, u16, u32,
  length,
}
use dynaxis.Rudp.AckWindow as AckWindow
use dynaxis.Rudp.AckWindow.{AckObservation, observe}
use dynaxis.Rudp.Queue as Queue
use dynaxis.Rudp.Queue.{
  PendingPacket, RetransmissionQueue, inflight_packets, mark_acked, push, collect_timeouts,
}
use dynaxis.Rudp.Packet as Packet
use dynaxis.Rudp.Packet.{
  RudpHeader, DecodeResult, default_header, rudp_header_bytes, flag_ack_only, flag_retransmit,
  encode_packet, decode_packet, looks_like_rudp,
}
use dynaxis.Rudp.Peer as Peer
use dynaxis.Rudp.Peer.{
  LifecycleState, is_established, is_hello_sent, RudpConfig, RttEstimator, update, RudpPeerState,
  mark_fallback,
}

pub data RudpFallbackReason : Type 0 where
  handshake_timeout idle_timeout inflight_limit disabled protocol_error other : RudpFallbackReason

-- The calls of `runtime_metrics`.
pub data MetricCall : Type 0 where
  set_inflight_packets : ℕ → MetricCall
  record_fallback : RudpFallbackReason → MetricCall
  record_handshake_result : Bool → MetricCall
  record_rtt_ms : ℕ → MetricCall
  record_retransmit : ℕ → MetricCall

pub record ProcessResult : Type 0 where
  pub parsed : Bool
  pub consumed : Bool
  pub handshake_established : Bool
  pub fallback_required : Bool
  pub fallback_reason : String
  pub egress_datagrams : List (List ℕ)
  pub inner_frames : List (List ℕ)
  pub retransmit_count : ℕ

abbrev pub no_result : ProcessResult
no_result = record {
  parsed = false;
  consumed = false;
  handshake_established = false;
  fallback_required = false;
  fallback_reason = "";
  egress_datagrams = [];
  inner_frames = [];
  retransmit_count = 0;
}

pub record Engine : Type 0 where
  pub config : RudpConfig
  pub state : RudpPeerState
  pub ack_window : AckWindow.AckWindow
  pub retransmission_queue : RetransmissionQueue
  pub metrics : List MetricCall

abbrev pub now32 : ℕ → ℕ
now32 now = u32 (bit_and now 0xffff_ffff)

unfoldable pub classify_fallback_reason : String → RudpFallbackReason
classify_fallback_reason reason =
    if str_eq reason "rudp_handshake_timeout"
    then RudpFallbackReason.handshake_timeout
    else if str_eq reason "rudp_idle_timeout"
    then RudpFallbackReason.idle_timeout
    else if str_eq reason "rudp_inflight_limit"
    then RudpFallbackReason.inflight_limit
    else if str_eq reason "rudp_disabled"
    then RudpFallbackReason.disabled
    else if str_eq reason "invalid_rudp_packet"
        || (str_eq reason "connection_id_mismatch"
            || (str_eq reason "rudp_not_established" || str_eq reason "peer_closed"))
    then RudpFallbackReason.protocol_error
    else RudpFallbackReason.other

abbrev pub log : Engine → MetricCall → Engine
log e m = record e { metrics = m ∷ e.metrics }

unfoldable pub create : RudpConfig → Engine
create config = record {
  config = config;
  state = Peer.initial;
  ack_window = AckWindow.initial;
  retransmission_queue = Queue.initial;
  metrics = [];
}

unfoldable pub reset : Engine → Engine
reset e =
    log
      (record e {
        state = Peer.reset e.state;
        ack_window = AckWindow.reset e.ack_window;
        retransmission_queue = Queue.reset e.retransmission_queue;
      })
      (set_inflight_packets 0)

unfoldable pub make_packet : Engine → ℕ → ℕ → ℕ → ℕ → ℕ → List ℕ → List ℕ
make_packet e kind flags channel packet_number now payload =
    encode_packet
      (record default_header {
        kind = kind;
        flags = flags;
        channel = channel;
        connection_id = e.state.connection_id;
        packet_number = packet_number;
        ack_largest = e.state.ack_largest;
        ack_mask = e.state.ack_mask;
        ack_delay_ms = u16 (min e.config.ack_delay_ms 0xffff);
        timestamp_ms = now32 now;
        payload_length = u16 (length payload);
      })
      payload

unfoldable pub make_hello : Engine → ℕ → ℕ → Engine × List ℕ
make_hello e connection_id now =
    let e' = record e {
      state = record (e.state) {
        connection_id = connection_id;
        lifecycle = LifecycleState.hello_sent;
        last_send_unix_ms = now;
      };
    } in
    (e', make_packet e' Packet.hello 0 0 0 now [])

unfoldable pub make_close : Engine → ℕ → Engine × List ℕ
make_close e now =
    let e' = record e {
      state = record (e.state) { lifecycle = LifecycleState.closed; last_send_unix_ms = now };
    } in
    (e', make_packet e' Packet.close 0 0 0 now [])
