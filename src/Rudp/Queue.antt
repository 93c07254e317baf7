-- ===== src/Rudp/Queue.antt =====
-- core/src/net/rudp/retransmission_queue.cpp: packets sent and not yet acknowledged. A frame is a
-- list of bytes; the loops of the source are recursions on the deque.
pub mod Bytes
pub mod Acked
pub mod Timeouts
use dynaxis.Base.{
  ℕ, ◌+◌, ◌-◌, ◌^◌, Bool, true, false, List, [], ◌∷◌, ◌++◌, map, bit_and, ltb, leb, ◌==◌, not, ◌&&◌,
  ◌||◌, if◌then◌else◌, u32, u64, sub64, length, is_empty, keep_if,
}

pub record PendingPacket : Type 0 where
  pub packet_number : ℕ
  pub first_sent_unix_ms : ℕ
  pub last_sent_unix_ms : ℕ
  pub retransmit_count : ℕ
  pub encoded_frame : List ℕ

pub record Entry : Type 0 where
  pub packet : PendingPacket
  pub acked : Bool

pub record RetransmissionQueue : Type 0 where
  pub pending : List Entry
  pub inflight_bytes : ℕ

abbrev pub initial : RetransmissionQueue
initial = record { pending = []; inflight_bytes = 0 }

abbrev pub reset : RetransmissionQueue → RetransmissionQueue
reset q = record q { pending = []; inflight_bytes = 0 }

abbrev pub frame_size : Entry → ℕ
frame_size e = length e.packet.encoded_frame

abbrev pub inflight_packets : RetransmissionQueue → ℕ
inflight_packets q = length q.pending

abbrev pub new_entry : ℕ → ℕ → List ℕ → Entry
new_entry packet_number sent_unix_ms frame = record {
  packet = record {
    packet_number = packet_number;
    first_sent_unix_ms = sent_unix_ms;
    last_sent_unix_ms = sent_unix_ms;
    retransmit_count = 0;
    encoded_frame = frame;
  };
  acked = false;
}

unfoldable pub push : RetransmissionQueue → ℕ → ℕ → List ℕ → RetransmissionQueue
push q packet_number sent_unix_ms frame = if is_empty frame then q else record q {
  pending = q.pending ++ (new_entry packet_number sent_unix_ms frame ∷ []);
  inflight_bytes = u64 (q.inflight_bytes + length frame);
}

unfoldable pub is_acked_by_mask : ℕ → ℕ → ℕ → Bool
is_acked_by_mask packet_number ack_largest ack_mask =
    let distance = ack_largest - packet_number in
    if ltb ack_largest packet_number
    then false
    else if packet_number == ack_largest
    then true
    else if leb 64 distance
    then true
    else not (bit_and ack_mask (2 ^ distance) == 0)

-- The first loop of `erase_acked`: acknowledged entries at the front are popped one by one.
unfoldable pub pop_acked : List Entry → ℕ → RetransmissionQueue
pop_acked [] bytes = record { pending = []; inflight_bytes = bytes }
pop_acked (e ∷ es) bytes =
    let rest = pop_acked es (if leb (frame_size e) bytes then bytes - frame_size e else 0) in
    if e.acked then rest else record { pending = e ∷ es; inflight_bytes = bytes }

-- The last loop of `erase_acked`: the bytes counted anew.
unfoldable pub count_bytes : List Entry → ℕ → ℕ
count_bytes [] bytes = bytes
count_bytes (e ∷ es) bytes = count_bytes es (u64 (bytes + frame_size e))

abbrev pub unacked : List Entry → List Entry
unacked = keep_if (λ e. not e.acked)

-- The rest of `erase_acked`: marked entries behind an unmarked one go, and the bytes of what stays
-- are counted anew if any went.
unfoldable pub sweep : RetransmissionQueue → RetransmissionQueue
unfolding count_bytes
sweep q =
    let kept = unacked q.pending in
    if is_empty q.pending
    then q
    else if length kept == length q.pending
    then record q { pending = kept }
    else record { pending = kept; inflight_bytes = count_bytes kept 0 }

unfoldable pub erase_acked : RetransmissionQueue → RetransmissionQueue
unfolding pop_acked sweep
erase_acked q = sweep (pop_acked q.pending q.inflight_bytes)

unfoldable pub mark_entry : ℕ → ℕ → Entry → Entry
mark_entry ack_largest ack_mask e =
    if not e.acked && is_acked_by_mask e.packet.packet_number ack_largest ack_mask
    then record e { acked = true }
    else e

unfoldable pub mark_acked : RetransmissionQueue → ℕ → ℕ → RetransmissionQueue
unfolding erase_acked mark_entry
mark_acked q ack_largest ack_mask =
    erase_acked (record q { pending = map (mark_entry ack_largest ack_mask) q.pending })

abbrev pub resend : ℕ → PendingPacket → PendingPacket
resend now p = record p { last_sent_unix_ms = now; retransmit_count = u32 (p.retransmit_count + 1) }

-- Whether the loop of `collect_timeouts` passes over an entry.
abbrev pub is_waiting : ℕ → ℕ → Entry → Bool
is_waiting now rto_ms e = e.acked || ltb (sub64 now e.packet.last_sent_unix_ms) rto_ms

-- The loop of `collect_timeouts`, with the number of packets that may still be taken; `due` grows
-- by one packet at a time and the loop breaks once it holds `max_batch`.
unfoldable pub collect : ℕ → ℕ → ℕ → List Entry → List PendingPacket × List Entry
collect now rto_ms room [] = ([], [])
collect now rto_ms room (e ∷ es) =
    let (due, kept) = collect now rto_ms (if is_waiting now rto_ms e then room else room - 1) es in
    let sent = resend now e.packet in
    if room == 0
    then ([], e ∷ es)
    else if is_waiting now rto_ms e
    then (due, e ∷ kept)
    else (sent ∷ due, record e { packet = sent } ∷ kept)

unfoldable pub collect_timeouts :
    RetransmissionQueue → ℕ → ℕ → ℕ → List PendingPacket × RetransmissionQueue
unfolding collect
collect_timeouts q now rto_ms max_batch =
    if max_batch == 0 || rto_ms == 0
    then ([], q)
    else let (due, kept) = collect now rto_ms max_batch q.pending in
      (due, record q { pending = kept })
