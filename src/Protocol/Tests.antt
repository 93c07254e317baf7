-- ===== src/Protocol/Tests.antt =====
-- The theorems about the wire protocol at concrete inputs.
use dynaxis.Base.{ℕ, List, true, refl, ◌++◌, some, ◌≡◌, [], ◌∷◌, arith, length, drop, replicate}
use dynaxis.Protocol.Text.{
  valid_from, lead_of, is_valid_utf8, write_lp_utf8, read_lp_utf8, read_lp_utf8-write_lp_utf8,
}
use dynaxis.Protocol.Header.{
  PacketHeader, encode_header, decode_header, decode_header-encode_header,
}

abbrev chat_header : PacketHeader
chat_header = record { body_length = 300; msg_id = 0x0102; flags = 1; seq = 70000; utc_ts_ms32 = 5 }

decode_header-encode_header_example :
    (decode_header (encode_header chat_header (replicate 16 9)) ≡ chat_header)
    × (drop 14 (encode_header chat_header (replicate 16 9)) ≡ 9 ∷ 9 ∷ [])
    × (length (encode_header chat_header (replicate 16 9)) ≡ 16)
decode_header-encode_header_example =
    decode_header-encode_header chat_header (replicate 16 9) (omega arith) (omega arith)

-- The letter e with an acute accent, in two bytes.
abbrev accented : List ℕ
accented = 0xc3 ∷ 0xa9 ∷ []

accented_valid : is_valid_utf8 accented ≡ true
unfolding is_valid_utf8 valid_from lead_of
accented_valid = refl

read_lp_utf8-write_lp_utf8_example :
    read_lp_utf8 (write_lp_utf8 [] accented ++ 7 ∷ []) ≡ some (accented, 7 ∷ [])
read_lp_utf8-write_lp_utf8_example =
    read_lp_utf8-write_lp_utf8 accented (7 ∷ []) (omega arith) accented_valid
