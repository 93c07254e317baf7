-- ===== src/Rudp/Tests.antt =====
-- The theorems about core/src/net/rudp at concrete inputs, and runs of its code.
use dynaxis.Base.{
  ℕ, ◌+◌, ◌^◌, ◌≤◌, ◌≡◌, refl, ap, ◌∙◌, String, true, none, some, List, [], ◌∷◌, arith, length, map,
  take,
}
use dynaxis.Protocol.Bytes.{read_be16}
use dynaxis.Rudp.AckWindow.{observe, after}
use dynaxis.Rudp.AckWindow.Tracks.{Tracks, after-Tracks}
use dynaxis.Rudp.AckWindow.Accepts.{Classifies, after-Classifies}
use dynaxis.Rudp.Queue.{
  Entry, RetransmissionQueue, new_entry, is_acked_by_mask, mark_acked, collect_timeouts,
}
use dynaxis.Rudp.Queue.Bytes as Bytes
use dynaxis.Rudp.Queue.Acked.{covered, is_acked_by_mask-after, mark_acked-after}
use dynaxis.Rudp.Queue.Timeouts.{overdue, sent_up_to, identity, collect_timeouts_lem}
use dynaxis.Rudp.Packet as Packet
use dynaxis.Rudp.Packet.{
  RudpHeader, default_header, encode_header, read_header, encode_packet, decode_packet, copy_to,
  looks_like_rudp, rudp_header_bytes, rudp_magic,
}
use dynaxis.Rudp.Packet.RoundTrip.{IsHeader, decoded, with_length, decode_packet-encode_packet}
use dynaxis.Rudp.Peer as Peer
use dynaxis.Rudp.Peer.{RudpConfig, RttEstimator, update, LifecycleState, mark_fallback}
use dynaxis.Rudp.Peer.Rtt.{update_bounds}
use dynaxis.Rudp.Engine.State.{Engine, create, reset, make_packet}
use dynaxis.Rudp.Engine.Process.{
  set_fallback, fail_handshake, receive_data, dispatch, admit, process_datagram,
}
use dynaxis.Rudp.Engine.Output.{poll, queue_reliable_payload}
use dynaxis.Rudp.Engine.Calls.{Call, receives, polls, resets, sends_reliable, step, run}
use dynaxis.Rudp.Engine.Fallback.{
  is_some, text_of, fallback_of, FellBack, process_datagram-fallback, process_datagram-FellBack,
}
use dynaxis.Rudp.Engine.Delivery.{Fresh, deliveries, deliveries-Fresh}
use dynaxis.Rudp.Engine.Limits.{IsBounded, run-create-IsBounded}
use dynaxis.Rudp.Engine.EndToEnd.{IsWire, receive_of_send}

abbrev history : List ℕ
history = 7 ∷ 3 ∷ 5 ∷ []

window_runs : after history ≡ record { initialized = true; largest = 7; mask = 0b10101 }
unfolding after observe
window_runs = refl

after-Tracks_example : Tracks (after history) history
after-Tracks_example = after-Tracks history

after-Classifies_example : Classifies history 6 (after history)
after-Classifies_example = after-Classifies history 6

is_acked_by_mask-after_example :
    is_acked_by_mask 4 (after history).largest (after history).mask ≡ covered history 4
is_acked_by_mask-after_example = is_acked_by_mask-after history 4 (omega arith)

abbrev frames : List Entry
frames = new_entry 3 100 (1 ∷ 2 ∷ []) ∷ new_entry 4 150 (3 ∷ []) ∷ []

abbrev flight : RetransmissionQueue
flight = record { pending = frames; inflight_bytes = 3 }

flight-IsValid : Bytes.IsValid flight
flight-IsValid = record { unmarked = (refl, (refl, tt)); counted = refl; fits = omega arith }

mark_acked-after_example :
    (mark_acked flight (after history).largest (after history).mask).pending
    ≡ new_entry 4 150 (3 ∷ []) ∷ []
mark_acked-after_example = mark_acked-after flight history flight-IsValid (omega arith)

collect_timeouts_lem_example :
    ((collect_timeouts flight 310 200 1).0 ≡ take 1 (overdue 310 200 frames))
    × ((collect_timeouts flight 310 200 1).1.pending ≡ sent_up_to 310 200 1 frames)
    × (map identity (collect_timeouts flight 310 200 1).1.pending ≡ map identity frames)
collect_timeouts_lem_example =
    collect_timeouts_lem flight 310 200 1 (omega arith) (omega arith, (omega arith, tt))

abbrev header : RudpHeader
header = record default_header { connection_id = 9; packet_number = 7; ack_mask = 2 ^ 63 + 1 }

header-IsHeader : IsHeader header
header-IsHeader = omega arith

decode_packet-encode_packet_example :
    (decode_packet (encode_packet header (10 ∷ 11 ∷ []))
      ≡ decoded (with_length header (10 ∷ 11 ∷ [])) (10 ∷ 11 ∷ []))
    × (length (encode_packet header (10 ∷ 11 ∷ [])) ≡ 36)
    × (looks_like_rudp (encode_packet header (10 ∷ 11 ∷ [])) ≡ true)
decode_packet-encode_packet_example =
    decode_packet-encode_packet header (10 ∷ 11 ∷ []) header-IsHeader (omega arith)

packet_runs :
    decode_packet (encode_packet header (10 ∷ 11 ∷ []))
    ≡ decoded (record header { payload_length = 2 }) (10 ∷ 11 ∷ [])
unfolding encode_packet decode_packet encode_header read_header copy_to
packet_runs = refl

abbrev estimate : RttEstimator
estimate = record { initialized = true; srtt_ms = 100; rttvar_ms = 20; rto_ms = 180 }

update_bounds_example :
    (50 ≤ (update estimate 60 50 2000).rto_ms)
    × ((update estimate 60 50 2000).rto_ms ≤ 2000)
    × ((60 ≤ (update estimate 60 50 2000).srtt_ms)
        × ((update estimate 60 50 2000).srtt_ms ≤ 100)
        × ((update estimate 60 50 2000).rttvar_ms ≡ 25))
update_bounds_example =
    update_bounds estimate 60 50 2000 (omega arith) (omega arith) (omega arith) (omega arith)
      (omega arith)

abbrev config : RudpConfig
config = record {
  handshake_timeout_ms = 1500;
  idle_timeout_ms = 10000;
  ack_delay_ms = 10;
  rto_min_ms = 50;
  rto_max_ms = 2000;
  max_inflight_packets = 256;
  max_inflight_bytes = 262144;
  mtu_payload_bytes = 1200;
}

abbrev lost : String → String
lost s = ""

abbrev joined : Engine
joined = record (create config) {
  state = record Peer.initial { lifecycle = LifecycleState.established; connection_id = 9 };
}

abbrev closing : List ℕ
closing = encode_packet (record default_header { kind = Packet.close; connection_id = 9 }) []

process_datagram-fallback_example :
    ((process_datagram lost joined closing 5000).1.fallback_required
      ≡ is_some (fallback_of joined closing))
    × ((process_datagram lost joined closing 5000).1.fallback_reason
        ≡ text_of (fallback_of joined closing))
process_datagram-fallback_example = process_datagram-fallback lost joined closing 5000

fallback_of-closing : fallback_of joined closing ≡ some "peer_closed"
unfolding create encode_packet decode_packet encode_header read_header copy_to looks_like_rudp
    read_be16
fallback_of-closing = refl

closing_required : (process_datagram lost joined closing 5000).1.fallback_required ≡ true
closing_required = process_datagram-fallback_example.0 ∙ ap is_some fallback_of-closing

process_datagram-FellBack_example : FellBack joined (process_datagram lost joined closing 5000)
process_datagram-FellBack_example =
    process_datagram-FellBack lost joined closing 5000 closing_required

abbrev payload_packet : ℕ → List ℕ
payload_packet n =
    encode_packet (record default_header { connection_id = 9; packet_number = n }) (42 ∷ [])

abbrev arrivals : List Call
arrivals =
    receives (payload_packet 2) 100
    ∷ receives (payload_packet 1) 110
    ∷ receives (payload_packet 2) 120
    ∷ resets
    ∷ polls 130
    ∷ []

joined_window : joined.ack_window ≡ after []
unfolding create after
joined_window = refl

deliveries-Fresh_example : Fresh [] (deliveries lost joined arrivals)
deliveries-Fresh_example = deliveries-Fresh lost joined [] arrivals joined_window

deliveries_runs : deliveries lost joined arrivals ≡ some 2 ∷ some 1 ∷ none ∷ []
unfolding deliveries step reset Peer.reset create process_datagram admit dispatch receive_data
    fail_handshake set_fallback mark_fallback mark_acked observe update make_packet poll
    encode_packet decode_packet encode_header read_header copy_to looks_like_rudp read_be16
    collect_timeouts
deliveries_runs = refl

run-create-IsBounded_example :
    IsBounded config
      (run lost (create config) (sends_reliable (1 ∷ []) 0 5 ∷ arrivals)).retransmission_queue
run-create-IsBounded_example =
    run-create-IsBounded lost config (sends_reliable (1 ∷ []) 0 5 ∷ arrivals) (omega arith)

joined-IsWire : IsWire joined
unfolding create
joined-IsWire = omega arith

abbrev sent : List ℕ
sent = make_packet joined Packet.data_packet 0 1 1 50 (42 ∷ [])

sent_from : (queue_reliable_payload joined (42 ∷ []) 1 50).1 ≡ some sent
unfolding create queue_reliable_payload
sent_from = refl

receive_of_send_example : (process_datagram lost joined sent 60).1.inner_frames ≡ (42 ∷ []) ∷ []
unfolding create
receive_of_send_example =
    receive_of_send lost joined joined (42 ∷ []) 1 50 60 sent [] joined-IsWire (omega arith)
      sent_from joined_window refl refl
