-- ===== src/Rudp/Peer.antt =====
-- core/include/server/core/net/rudp/rudp_peer_state.hpp: configuration, round-trip estimate and
-- state of one peer.
pub mod Rtt
use dynaxis.Base.{
  ℕ, ◌+◌, ◌-◌, ◌*◌, ◌/◌, ◌^◌, max, String, Bool, true, false, ◌==◌, ltb, if◌then◌else◌, u32,
}

pub data LifecycleState : Type 0 where
  idle hello_sent hello_received established draining closed : LifecycleState

abbrev pub is_established : LifecycleState → Bool
is_established LifecycleState.established = true
is_established _ = false

abbrev pub is_hello_sent : LifecycleState → Bool
is_hello_sent LifecycleState.hello_sent = true
is_hello_sent _ = false

pub record RudpConfig : Type 0 where
  pub handshake_timeout_ms : ℕ
  pub idle_timeout_ms : ℕ
  pub ack_delay_ms : ℕ
  pub rto_min_ms : ℕ
  pub rto_max_ms : ℕ
  pub max_inflight_packets : ℕ
  pub max_inflight_bytes : ℕ
  pub mtu_payload_bytes : ℕ

pub record RttEstimator : Type 0 where
  pub initialized : Bool
  pub srtt_ms : ℕ
  pub rttvar_ms : ℕ
  pub rto_ms : ℕ

abbrev pub initial_rtt : RttEstimator
initial_rtt = record { initialized = false; srtt_ms = 0; rttvar_ms = 0; rto_ms = 200 }

-- `std::abs` of the difference of two numbers cast to `int`, as a two's complement machine gives
-- it; the source has no defined value where that difference overflows.
abbrev pub abs_diff_i32 : ℕ → ℕ → ℕ
abs_diff_i32 a b = let d = u32 (a + 2 ^ 32 - b) in if ltb d (2 ^ 31) then d else 2 ^ 32 - d

abbrev pub clamp : ℕ → ℕ → ℕ → ℕ
clamp v lo hi = if ltb v lo then lo else if ltb hi v then hi else v

-- The estimate before the time-out is derived from it.
unfoldable pub smooth : RttEstimator → ℕ → RttEstimator
smooth r sample_ms =
    if r.initialized
    then record r {
      rttvar_ms = u32 ((3 * r.rttvar_ms + abs_diff_i32 r.srtt_ms sample_ms) / 4);
      srtt_ms = u32 ((7 * r.srtt_ms + sample_ms) / 8);
    }
    else record r { initialized = true; srtt_ms = sample_ms; rttvar_ms = max 1 (sample_ms / 2) }

unfoldable pub update : RttEstimator → ℕ → ℕ → ℕ → RttEstimator
update r sample_ms rto_min_ms rto_max_ms =
    let s = smooth r sample_ms in
    let candidate = u32 (s.srtt_ms + max 1 (u32 (4 * s.rttvar_ms))) in
    if sample_ms == 0 then r else record s { rto_ms = clamp candidate rto_min_ms rto_max_ms }

pub record RudpPeerState : Type 0 where
  pub lifecycle : LifecycleState
  pub connection_id : ℕ
  pub next_packet_number : ℕ
  pub last_recv_unix_ms : ℕ
  pub last_send_unix_ms : ℕ
  pub last_ack_emit_unix_ms : ℕ
  pub ack_largest : ℕ
  pub ack_mask : ℕ
  pub fallback_required : Bool
  pub fallback_reason : String
  pub rtt : RttEstimator

abbrev pub initial : RudpPeerState
initial = record {
  lifecycle = LifecycleState.idle;
  connection_id = 0;
  next_packet_number = 1;
  last_recv_unix_ms = 0;
  last_send_unix_ms = 0;
  last_ack_emit_unix_ms = 0;
  ack_largest = 0;
  ack_mask = 0;
  fallback_required = false;
  fallback_reason = "";
  rtt = initial_rtt;
}

unfoldable pub mark_fallback : RudpPeerState → String → RudpPeerState
mark_fallback s reason = record s { fallback_required = true; fallback_reason = reason }

unfoldable pub reset : RudpPeerState → RudpPeerState
reset s = initial
