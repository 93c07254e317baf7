-- ===== src/Rudp/Packet.antt =====
-- core/include/server/core/net/rudp/rudp_packet.hpp: the 34-byte RUDP header and its datagrams. The
-- type of a packet is the byte on the wire: a cast to the enumeration checks nothing.
pub mod RoundTrip
use dynaxis.Base.{
  ℕ, zero, suc, ◌+◌, ◌*◌, ◌/◌, ◌^◌, Bool, true, false, List, [], ◌∷◌, ◌==◌, leb, ltb, not, ◌&&◌,
  if◌then◌else◌, bit_and, bit_or, u16, u32, u64, shr, length, replicate, set, take, drop, is_empty,
}
use dynaxis.Protocol.Bytes.{byte_at, read_be16, read_be32, write_be16, write_be32}

abbrev pub rudp_magic : ℕ
rudp_magic = 0x5255

abbrev pub rudp_header_bytes : ℕ
rudp_header_bytes = 34

abbrev pub hello : ℕ
hello = 1

abbrev pub hello_ack : ℕ
hello_ack = 2

abbrev pub data_packet : ℕ
data_packet = 3

abbrev pub ping : ℕ
ping = 4

abbrev pub close : ℕ
close = 5

abbrev pub flag_ack_only : ℕ
flag_ack_only = 1

abbrev pub flag_retransmit : ℕ
flag_retransmit = 2

pub record RudpHeader : Type 0 where
  pub magic : ℕ
  pub version : ℕ
  pub kind : ℕ
  pub connection_id : ℕ
  pub packet_number : ℕ
  pub ack_largest : ℕ
  pub ack_mask : ℕ
  pub ack_delay_ms : ℕ
  pub channel : ℕ
  pub flags : ℕ
  pub timestamp_ms : ℕ
  pub payload_length : ℕ

abbrev pub default_header : RudpHeader
default_header = record {
  magic = rudp_magic;
  version = 1;
  kind = data_packet;
  connection_id = 0;
  packet_number = 0;
  ack_largest = 0;
  ack_mask = 0;
  ack_delay_ms = 0;
  channel = 0;
  flags = 0;
  timestamp_ms = 0;
  payload_length = 0;
}

pub record DecodeResult : Type 0 where
  pub accepted : Bool
  pub header : RudpHeader
  pub payload : List ℕ

abbrev pub undecoded : DecodeResult
undecoded = record { accepted = false; header = default_header; payload = [] }

unfoldable pub encode_header : RudpHeader → List ℕ → List ℕ
unfolding write_be16 write_be32
encode_header h out0 =
    let out1 = write_be16 h.magic out0 0 in
    let out2 = set out1 2 h.version in
    let out3 = set out2 3 h.kind in
    let out4 = write_be32 h.connection_id out3 4 in
    let out5 = write_be32 h.packet_number out4 8 in
    let out6 = write_be32 h.ack_largest out5 12 in
    let out7 = write_be32 (u32 (bit_and (shr h.ack_mask 32) 0xffff_ffff)) out6 16 in
    let out8 = write_be32 (u32 (bit_and h.ack_mask 0xffff_ffff)) out7 20 in
    let out9 = write_be16 h.ack_delay_ms out8 24 in
    let out10 = set out9 26 h.channel in
    let out11 = set out10 27 h.flags in
    let out12 = write_be32 h.timestamp_ms out11 28 in write_be16 h.payload_length out12 32

-- The header fields read from a datagram of at least 34 bytes.
unfoldable pub read_header : List ℕ → RudpHeader
unfolding read_be16 read_be32
read_header p = record {
  magic = read_be16 p 0;
  version = byte_at p 2;
  kind = byte_at p 3;
  connection_id = read_be32 p 4;
  packet_number = read_be32 p 8;
  ack_largest = read_be32 p 12;
  ack_mask = bit_or (u64 (read_be32 p 16 * 2 ^ 32)) (read_be32 p 20);
  ack_delay_ms = read_be16 p 24;
  channel = byte_at p 26;
  flags = byte_at p 27;
  timestamp_ms = read_be32 p 28;
  payload_length = read_be16 p 32;
}

unfoldable pub decode_packet : List ℕ → DecodeResult
decode_packet datagram =
    let header = read_header datagram in
    if ltb (length datagram) rudp_header_bytes
    then undecoded
    else if not (length datagram == rudp_header_bytes + header.payload_length)
    then undecoded
    else record {
      accepted = true;
      header = header;
      payload = take header.payload_length (drop rudp_header_bytes datagram);
    }

-- `std::memcpy` to an offset of the buffer.
unfoldable pub copy_to : List ℕ → ℕ → List ℕ → List ℕ
copy_to out off [] = out
copy_to out off (b ∷ bs) = copy_to (set out off b) (off + 1) bs

unfoldable pub encode_packet : RudpHeader → List ℕ → List ℕ
encode_packet header payload =
    let out = replicate (rudp_header_bytes + length payload) 0 in
    let out' = encode_header (record header { payload_length = u16 (length payload) }) out in
    if is_empty payload then out' else copy_to out' rudp_header_bytes payload

unfoldable pub looks_like_rudp : List ℕ → Bool
looks_like_rudp datagram = leb 2 (length datagram) && read_be16 datagram 0 == rudp_magic
