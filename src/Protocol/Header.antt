-- ===== src/Protocol/Header.antt =====
-- The 14-byte message header of core/include/server/core/protocol/packet.hpp.
use dynaxis.Base.{
  ℕ, ◌^◌, ◌≤◌, ◌<◌, ◌≡◌, refl, Bool, List, ◌∷◌, ◌++◌, arith, leb, ◌&&◌, if◌then◌else◌, length, drop,
  length-set,
}
use dynaxis.Protocol.Bytes.{
  read_be16, read_be32, write_be16, write_be32, bytes16, bytes32, join16-bytes, join32-bytes,
}

abbrev pub header_bytes : ℕ
header_bytes = 14

pub data SegmentType : Type 0 where
  unknown system_control application_payload : SegmentType

unfoldable pub is_system_msg_id : ℕ → Bool
is_system_msg_id msg_id = leb 0x0001 msg_id && leb msg_id 0x000f

unfoldable pub classify_segment_type : ℕ → SegmentType
unfolding is_system_msg_id
classify_segment_type msg_id =
    if is_system_msg_id msg_id then SegmentType.system_control else SegmentType.application_payload

pub record PacketHeader : Type 0 where
  pub body_length : ℕ
  pub msg_id : ℕ
  pub flags : ℕ
  pub seq : ℕ
  pub utc_ts_ms32 : ℕ

unfoldable pub encode_header : PacketHeader → List ℕ → List ℕ
unfolding write_be16 write_be32
encode_header h out =
    let a = write_be16 h.body_length out 0 in
    let b = write_be16 h.msg_id a 2 in
    let c = write_be16 h.flags b 4 in let d = write_be32 h.seq c 6 in write_be32 h.utc_ts_ms32 d 10

unfoldable pub decode_header : List ℕ → PacketHeader
unfolding read_be16 read_be32
decode_header p = record {
  body_length = read_be16 p 0;
  msg_id = read_be16 p 2;
  flags = read_be16 p 4;
  seq = read_be32 p 6;
  utc_ts_ms32 = read_be32 p 10;
}

-- The fields fit their widths.
pub record IsHeader (h : PacketHeader) : Type 0 where
  pub body_length : h.body_length < 2 ^ 16
  pub msg_id : h.msg_id < 2 ^ 16
  pub flags : h.flags < 2 ^ 16
  pub seq : h.seq < 2 ^ 32
  pub utc_ts_ms32 : h.utc_ts_ms32 < 2 ^ 32

wire : PacketHeader → List ℕ
wire h =
    bytes16 h.body_length
    ++ (bytes16 h.msg_id ++ (bytes16 h.flags ++ (bytes32 h.seq ++ bytes32 h.utc_ts_ms32)))

encode_header-wire :
    (h : PacketHeader) (out : List ℕ)
    → 14 ≤ length out
    → encode_header h out ≡ wire h ++ drop 14 out
unfolding encode_header wire
encode_header-wire h (_ ∷ _ ∷ _ ∷ _ ∷ _ ∷ _ ∷ _ ∷ _ ∷ _ ∷ _ ∷ _ ∷ _ ∷ _ ∷ _ ∷ rest) _ = refl
encode_header-wire h _ fits = absurd (omega arith)

decode_header-wire :
    (h : PacketHeader) (rest : List ℕ) → IsHeader h → decode_header (wire h ++ rest) ≡ h
unfolding decode_header wire
decode_header-wire h rest v = λ i. record {
  body_length = join16-bytes h.body_length v.body_length i;
  msg_id = join16-bytes h.msg_id v.msg_id i;
  flags = join16-bytes h.flags v.flags i;
  seq = join32-bytes h.seq v.seq i;
  utc_ts_ms32 = join32-bytes h.utc_ts_ms32 v.utc_ts_ms32 i;
}

-- In a buffer of 14 bytes or more, `encode_header` writes a header that `decode_header` reads back
-- where every field fits its width, and leaves the bytes behind it and the length of the buffer as
-- they were.
pub decode_header-encode_header :
    (h : PacketHeader) (out : List ℕ)
    → IsHeader h
    → 14 ≤ length out
    → (decode_header (encode_header h out) ≡ h)
      × (drop 14 (encode_header h out) ≡ drop 14 out)
      × (length (encode_header h out) ≡ length out)
unfolding encode_header
decode_header-encode_header h out v fits = (
  rw (encode_header-wire h out fits) (decode_header-wire h (drop 14 out) v),
  behind out fits,
  size out,
)
  where
    behind : (out : List ℕ) → 14 ≤ length out → drop 14 (encode_header h out) ≡ drop 14 out
    behind (_ ∷ _ ∷ _ ∷ _ ∷ _ ∷ _ ∷ _ ∷ _ ∷ _ ∷ _ ∷ _ ∷ _ ∷ _ ∷ _ ∷ rest) _ = refl
    behind _ fits = absurd (omega arith)

    size : (out : List ℕ) → length (encode_header h out) ≡ length out
    size out = simp length-set
