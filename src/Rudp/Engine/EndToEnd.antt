-- ===== src/Rudp/Engine/EndToEnd.antt =====
-- From the engine that sends a payload to the engine that receives it.
use dynaxis.Base.{
  ℕ, ◌^◌, ◌≤◌, ◌<◌, ◌≡◌, min, String, true, false, some, List, [], ◌∷◌, arith, if◌then◌else◌,
  is_empty, length, u16,
}
use dynaxis.Rudp.AckWindow.{after}
use dynaxis.Rudp.AckWindow.Accepts.{is_fresh, after-Classifies}
use dynaxis.Rudp.Packet as Packet
use dynaxis.Rudp.Packet.{
  RudpHeader, DecodeResult, default_header, rudp_magic, encode_packet, decode_packet,
  looks_like_rudp,
}
use dynaxis.Rudp.Packet.RoundTrip.{IsHeader, with_length, decoded, decode_packet-encode_packet}
use dynaxis.Rudp.Peer.{is_established}
use dynaxis.Rudp.Engine.State.{Engine, now32, make_packet}
use dynaxis.Rudp.Engine.Process.{process_datagram}
use dynaxis.Rudp.Engine.Output.{queue_reliable_payload}
use dynaxis.Rudp.Engine.Delivery.{process_datagram-Hands}

-- The numbers of a peer fit their widths on the wire.
pub record IsWire (e : Engine) : Type 0 where
  pub connection_id : e.state.connection_id < 2 ^ 32
  pub next_packet_number : e.state.next_packet_number < 2 ^ 32
  pub ack_largest : e.state.ack_largest < 2 ^ 32
  pub ack_mask : e.state.ack_mask < 2 ^ 64
  pub mtu : e.config.mtu_payload_bytes < 2 ^ 16

abbrev pub data_header : Engine → ℕ → ℕ → List ℕ → RudpHeader
data_header e channel now frame = record default_header {
  kind = Packet.data_packet;
  flags = 0;
  channel = channel;
  connection_id = e.state.connection_id;
  packet_number = e.state.next_packet_number;
  ack_largest = e.state.ack_largest;
  ack_mask = e.state.ack_mask;
  ack_delay_ms = u16 (min e.config.ack_delay_ms 0xffff);
  timestamp_ms = now32 now;
  payload_length = u16 (length frame);
}

data_header-IsHeader :
    (e : Engine) (channel now : ℕ) (frame : List ℕ)
    → IsWire e
    → channel < 256
    → IsHeader (data_header e channel now frame)
data_header-IsHeader e channel now frame w c = omega arith

-- What a payload that is taken for sending was, and the datagram made of it.
queued_datagram :
    (e : Engine) (frame : List ℕ) (channel now : ℕ) (datagram : List ℕ)
    → (queue_reliable_payload e frame channel now).1 ≡ some datagram
    → (datagram ≡ encode_packet (data_header e channel now frame) frame)
      × (length frame ≤ e.config.mtu_payload_bytes)
      × (is_empty frame ≡ false)
unfolding queue_reliable_payload make_packet
queued_datagram e frame channel now datagram h = ground arith

sent_decodes :
    (e : Engine) (frame : List ℕ) (channel now : ℕ) (datagram : List ℕ)
    → IsWire e
    → channel < 256
    → (queue_reliable_payload e frame channel now).1 ≡ some datagram
    → (decode_packet datagram ≡ decoded (with_length (data_header e channel now frame) frame) frame)
      × (looks_like_rudp datagram ≡ true)
sent_decodes e frame channel now datagram w c h =
    let (made, fits, _) = queued_datagram e frame channel now datagram h in
    let (back, _, known) =
      decode_packet-encode_packet (data_header e channel now frame) frame
        (data_header-IsHeader e channel now frame w c) (omega arith) in
    rw made (back, known)

module _ (moved_from : String → String) where
  -- A payload that `queue_reliable_payload` takes, and whose datagram an established engine of the
  -- same connection processes, is handed up there unchanged exactly if its number is fresh for the
  -- numbers that this engine's window was given; for a configured payload size and a channel that
  -- fit 16 and 8 bits, and a sender whose numbers fit their widths on the wire.
  pub receive_of_send :
      (sender receiver : Engine) (frame : List ℕ) (channel now later : ℕ) (datagram : List ℕ)
      (seen : List ℕ)
      → IsWire sender
      → channel < 256
      → (queue_reliable_payload sender frame channel now).1 ≡ some datagram
      → receiver.ack_window ≡ after seen
      → is_established receiver.state.lifecycle ≡ true
      → receiver.state.connection_id ≡ sender.state.connection_id
      → (process_datagram moved_from receiver datagram later).1.inner_frames
        ≡ (if is_fresh seen sender.state.next_packet_number then frame ∷ [] else [])
  receive_of_send sender receiver frame channel now later datagram seen w c sent window up same =
      ground (
        arith,
        process_datagram-Hands moved_from receiver datagram later,
        sent_decodes sender frame channel now datagram w c sent,
        queued_datagram sender frame channel now datagram sent,
        after-Classifies seen sender.state.next_packet_number,
      )
