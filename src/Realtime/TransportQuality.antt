-- ===== src/Realtime/TransportQuality.antt =====
-- core/include/server/core/realtime/transport_quality.hpp: loss and jitter of numbered packets.
pub mod Accounts
use dynaxis.Base.{ℕ, ◌+◌, ◌-◌, Bool, true, false, not, ◌&&◌, ltb, leb, ◌==◌, if◌then◌else◌, u32}

pub record UpdateResult : Type 0 where
  pub accepted : Bool
  pub duplicate : Bool
  pub reordered : Bool
  pub estimated_lost_packets : ℕ
  pub jitter_ms : ℕ

abbrev pub no_update : UpdateResult
no_update = record {
  accepted = false;
  duplicate = false;
  reordered = false;
  estimated_lost_packets = 0;
  jitter_ms = 0;
}

pub record UdpSequencedMetrics : Type 0 where
  pub initialized : Bool
  pub last_seq : ℕ
  pub last_recv_ms : ℕ
  pub last_interarrival_ms : ℕ

abbrev pub initial : UdpSequencedMetrics
initial = record { initialized = false; last_seq = 0; last_recv_ms = 0; last_interarrival_ms = 0 }

abbrev pub reset : UdpSequencedMetrics → UdpSequencedMetrics
reset m = record m { initialized = false; last_seq = 0; last_recv_ms = 0; last_interarrival_ms = 0 }

-- The packets between the last one and this one; the comparison is at 32 bits, where it wraps.
unfoldable pub lost_between : ℕ → ℕ → ℕ
lost_between last_seq seq = if ltb (u32 (last_seq + 1)) seq then seq - last_seq - 1 else 0

-- The jitter of a packet received at a time, with the interval to remember.
unfoldable pub jitter_at : UdpSequencedMetrics → ℕ → ℕ × ℕ
jitter_at m recv =
    let interarrival = recv - m.last_recv_ms in
    let change =
      if leb m.last_interarrival_ms interarrival
      then interarrival - m.last_interarrival_ms
      else m.last_interarrival_ms - interarrival in
    if m.last_recv_ms == 0
    then (0, m.last_interarrival_ms)
    else if leb m.last_recv_ms recv
    then (if m.last_interarrival_ms == 0 then 0 else change, interarrival)
    else (0, 0)

unfoldable pub on_packet : UdpSequencedMetrics → ℕ → ℕ → UpdateResult × UdpSequencedMetrics
on_packet m seq recv_unix_ms =
    let (jitter, interarrival) = jitter_at m recv_unix_ms in
    if not m.initialized
    then (
      record no_update { accepted = true },
      record {
        initialized = true;
        last_seq = seq;
        last_recv_ms = recv_unix_ms;
        last_interarrival_ms = 0;
      },
    )
    else if seq == m.last_seq
    then (record no_update { duplicate = true }, m)
    else if ltb seq m.last_seq
    then (record no_update { reordered = true }, m)
    else (
      record no_update {
        accepted = true;
        estimated_lost_packets = lost_between m.last_seq seq;
        jitter_ms = jitter;
      },
      record m { last_seq = seq; last_recv_ms = recv_unix_ms; last_interarrival_ms = interarrival },
    )
