-- ===== src/Rudp/Packet/RoundTrip.antt =====
-- `decode_packet` reads back what `encode_packet` wrote.
use dynaxis.Base.{
  ℕ, ◌+◌, ◌*◌, ◌^◌, ◌≤◌, ◌<◌, ◌≡◌, refl, sym, ap, ap₂, ◌∙◌, true, List, [], ◌∷◌, ◌++◌, arith, ◌==◌,
  bit_and, bit_or, u16, u32, u64, shr, length, length-append, replicate, replicate-add, set,
  set-append, append_assoc, take, drop, take-length, bit_and-low, bit_or-disjoint,
}
use dynaxis.Protocol.Bytes.{bytes16, bytes32, join16-bytes, join32-bytes, read_be16}
use dynaxis.Rudp.Packet.{
  RudpHeader, DecodeResult, rudp_magic, rudp_header_bytes, encode_header, read_header,
  decode_packet, copy_to, encode_packet, looks_like_rudp,
}

-- The fields fit their widths.
pub record IsHeader (h : RudpHeader) : Type 0 where
  pub magic : h.magic < 2 ^ 16
  pub version : h.version < 2 ^ 8
  pub kind : h.kind < 2 ^ 8
  pub connection_id : h.connection_id < 2 ^ 32
  pub packet_number : h.packet_number < 2 ^ 32
  pub ack_largest : h.ack_largest < 2 ^ 32
  pub ack_mask : h.ack_mask < 2 ^ 64
  pub ack_delay_ms : h.ack_delay_ms < 2 ^ 16
  pub channel : h.channel < 2 ^ 8
  pub flags : h.flags < 2 ^ 8
  pub timestamp_ms : h.timestamp_ms < 2 ^ 32
  pub payload_length : h.payload_length < 2 ^ 16

mask_hi : ℕ → ℕ
mask_hi m = u32 (bit_and (shr m 32) 0xffff_ffff)

mask_lo : ℕ → ℕ
mask_lo m = u32 (bit_and m 0xffff_ffff)

wire : RudpHeader → List ℕ
unfolding mask_hi mask_lo
wire h =
    bytes16 h.magic
    ++ (h.version ∷ h.kind ∷ bytes32 h.connection_id
        ++ (bytes32 h.packet_number
            ++ (bytes32 h.ack_largest
                ++ (bytes32 (mask_hi h.ack_mask)
                    ++ (bytes32 (mask_lo h.ack_mask)
                        ++ (bytes16 h.ack_delay_ms
                            ++ (h.channel ∷ h.flags ∷ bytes32 h.timestamp_ms
                                ++ bytes16 h.payload_length)))))))

encode_header-wire :
    (h : RudpHeader) (rest : List ℕ) → encode_header h (replicate 34 0 ++ rest) ≡ wire h ++ rest
unfolding encode_header wire
encode_header-wire h rest = refl

mask_joined : (m : ℕ) → m < 2 ^ 64 → bit_or (u64 (mask_hi m * 2 ^ 32)) (mask_lo m) ≡ m
unfolding mask_hi mask_lo
mask_joined m h =
    ap (λ t. bit_or t (mask_lo m)) shifted
    ∙ omega (
      arith,
      bit_or-disjoint 32 (mask_hi m) (mask_lo m),
      bit_and-low 32 (shr m 32),
      bit_and-low 32 m,
    )
  where
    shifted : u64 (mask_hi m * 2 ^ 32) ≡ mask_hi m * 2 ^ 32
    shifted = omega (arith, bit_and-low 32 (shr m 32))

mask_hi-lt : (m : ℕ) → mask_hi m < 2 ^ 32
unfolding mask_hi
mask_hi-lt m = omega arith

mask_lo-lt : (m : ℕ) → mask_lo m < 2 ^ 32
unfolding mask_lo
mask_lo-lt m = omega arith

read_header-wire : (h : RudpHeader) (rest : List ℕ) → IsHeader h → read_header (wire h ++ rest) ≡ h
unfolding read_header wire
read_header-wire h rest v = λ i. record {
  magic = join16-bytes h.magic v.magic i;
  version = h.version;
  kind = h.kind;
  connection_id = join32-bytes h.connection_id v.connection_id i;
  packet_number = join32-bytes h.packet_number v.packet_number i;
  ack_largest = join32-bytes h.ack_largest v.ack_largest i;
  ack_mask = mask i;
  ack_delay_ms = join16-bytes h.ack_delay_ms v.ack_delay_ms i;
  channel = h.channel;
  flags = h.flags;
  timestamp_ms = join32-bytes h.timestamp_ms v.timestamp_ms i;
  payload_length = join16-bytes h.payload_length v.payload_length i;
}
  where
    mask : (read_header (wire h ++ rest)).ack_mask ≡ h.ack_mask
    mask =
        ap₂ (λ hi lo. bit_or (u64 (hi * 2 ^ 32)) lo)
          (join32-bytes (mask_hi h.ack_mask) (mask_hi-lt h.ack_mask))
          (join32-bytes (mask_lo h.ack_mask) (mask_lo-lt h.ack_mask))
        ∙ mask_joined h.ack_mask v.ack_mask

copy_to-append :
    (xs bs : List ℕ) → copy_to (xs ++ replicate (length bs) 0) (length xs) bs ≡ xs ++ bs
unfolding copy_to
copy_to-append xs [] = refl
copy_to-append xs (b ∷ bs) =
    ap₂ (λ out off. copy_to out off bs) step next
    ∙ copy_to-append (xs ++ b ∷ []) bs
    ∙ append_assoc xs (b ∷ []) bs
  where
    step :
        set (xs ++ 0 ∷ replicate (length bs) 0) (length xs) b
        ≡ (xs ++ b ∷ []) ++ replicate (length bs) 0
    step =
        set-append xs (replicate (length bs) 0) 0 b
        ∙ sym (append_assoc xs (b ∷ []) (replicate (length bs) 0))

    next : length xs + 1 ≡ length (xs ++ b ∷ [])
    next = omega (arith, length-append xs (b ∷ []))

length-wire : (h : RudpHeader) (rest : List ℕ) → length (wire h ++ rest) ≡ 34 + length rest
unfolding wire
length-wire h rest = omega arith

abbrev pub with_length : RudpHeader → List ℕ → RudpHeader
with_length h payload = record h { payload_length = u16 (length payload) }

encode_header-zeros :
    (h : RudpHeader) (n : ℕ) → encode_header h (replicate (34 + n) 0) ≡ wire h ++ replicate n 0
encode_header-zeros h n =
    ap (encode_header h) (replicate-add 34 n 0) ∙ encode_header-wire h (replicate n 0)

encode_packet-wire :
    (h : RudpHeader) (payload : List ℕ)
    → encode_packet h payload ≡ wire (with_length h payload) ++ payload
unfolding encode_packet wire
encode_packet-wire h [] = encode_header-zeros (with_length h []) 0
encode_packet-wire h (b ∷ bs) =
    ap (λ out. copy_to out 34 (b ∷ bs))
      (encode_header-zeros (with_length h (b ∷ bs)) (length (b ∷ bs)))
    ∙ copy_to-append (wire (with_length h (b ∷ bs))) (b ∷ bs)

drop-wire : (h : RudpHeader) (rest : List ℕ) → drop 34 (wire h ++ rest) ≡ rest
unfolding wire
drop-wire h rest = refl

abbrev pub decoded : RudpHeader → List ℕ → DecodeResult
decoded h payload = record { accepted = true; header = h; payload = payload }

decode_packet_of :
    (d : List ℕ) (h : RudpHeader) (payload : List ℕ)
    → read_header d ≡ h
    → length d ≡ 34 + h.payload_length
    → take h.payload_length (drop 34 d) ≡ payload
    → decode_packet d ≡ decoded h payload
unfolding decode_packet
decode_packet_of d h payload read size cut = ground arith

decode_packet-wire :
    (h : RudpHeader) (payload : List ℕ)
    → IsHeader h
    → h.payload_length ≡ length payload
    → decode_packet (wire h ++ payload) ≡ decoded h payload
decode_packet-wire h payload v same =
    decode_packet_of (wire h ++ payload) h payload (read_header-wire h payload v)
      (omega (arith, length-wire h payload))
      (ap₂ take same (drop-wire h payload) ∙ take-length payload)

looks_like_rudp_of :
    (d : List ℕ) (m : ℕ) → 2 ≤ length d → read_be16 d 0 ≡ m → looks_like_rudp d ≡ (m == rudp_magic)
unfolding looks_like_rudp
looks_like_rudp_of d m size read = ground arith

read_be16-wire :
    (h : RudpHeader) (rest : List ℕ) → h.magic < 2 ^ 16 → read_be16 (wire h ++ rest) 0 ≡ h.magic
unfolding read_be16 wire
read_be16-wire h rest fits = join16-bytes h.magic fits

-- A datagram made from a header whose fields fit their widths and a payload of less than 2 ^ 16
-- bytes decodes to that header, with the payload's length, and that payload; it is 34 bytes longer
-- than the payload, and with the RUDP magic it is recognised as RUDP.
pub decode_packet-encode_packet :
    (h : RudpHeader) (payload : List ℕ)
    → IsHeader h
    → length payload < 2 ^ 16
    → (decode_packet (encode_packet h payload) ≡ decoded (with_length h payload) payload)
      × (length (encode_packet h payload) ≡ rudp_header_bytes + length payload)
      × (looks_like_rudp (encode_packet h payload) ≡ (h.magic == rudp_magic))
decode_packet-encode_packet h payload v fits = rw encode_packet-wire (
  decode_packet-wire (with_length h payload) payload valid (omega arith),
  length-wire (with_length h payload) payload,
  recognised,
)
  where
    valid : IsHeader (with_length h payload)
    valid = record {
      magic = v.magic;
      version = v.version;
      kind = v.kind;
      connection_id = v.connection_id;
      packet_number = v.packet_number;
      ack_largest = v.ack_largest;
      ack_mask = v.ack_mask;
      ack_delay_ms = v.ack_delay_ms;
      channel = v.channel;
      flags = v.flags;
      timestamp_ms = v.timestamp_ms;
      payload_length = omega arith;
    }

    recognised : looks_like_rudp (wire (with_length h payload) ++ payload) ≡ (h.magic == rudp_magic)
    recognised =
        looks_like_rudp_of _ h.magic (omega (arith, length-wire (with_length h payload) payload))
          (read_be16-wire (with_length h payload) payload v.magic)

pub length-encode_packet :
    (h : RudpHeader) (payload : List ℕ)
    → length (encode_packet h payload) ≡ rudp_header_bytes + length payload
length-encode_packet h payload =
    ap length (encode_packet-wire h payload) ∙ length-wire (with_length h payload) payload
