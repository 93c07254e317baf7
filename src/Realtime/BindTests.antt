-- ===== src/Realtime/BindTests.antt =====
-- The theorems about bind messages and the rollout of the direct path at concrete inputs.
use dynaxis.Base.{ℕ, ◌≡◌, refl, true, List, [], ◌∷◌, some, arith, contains}
use dynaxis.Protocol.Text.{is_valid_utf8, valid_from, lead_of}
use dynaxis.Realtime.DirectBind.{
  DirectBindTicket, encode_direct_bind_response_payload, decode_direct_bind_response_payload,
}
use dynaxis.Realtime.DirectBind.RoundTrip.{IsTicket, decode_response-encode_response}
use dynaxis.Realtime.TransportPolicy.{
  DirectTransportRolloutPolicy, evaluate_direct_attach, session_selected, fnv1a64, hash_bytes,
  parse_direct_opcode_allowlist,
}
use dynaxis.Realtime.TransportPolicy.Rollout.{is_canary}
use dynaxis.Realtime.TransportPolicy.Tokens.{join, any_says, contains-parse_direct_opcode_allowlist}

abbrev name : List ℕ
name = 0x73 ∷ 0x31 ∷ []

name_valid : is_valid_utf8 name ≡ true
unfolding is_valid_utf8 valid_from lead_of
name_valid = refl

abbrev ticket : DirectBindTicket
ticket = record {
  session_id = name;
  nonce = 81985529216486895;
  expires_unix_ms = 1700000000000;
  token = name;
}

ticket-IsTicket : IsTicket ticket
ticket-IsTicket = record {
  session_id = (omega arith, name_valid);
  nonce = omega arith;
  expires_unix_ms = omega arith;
  token = (omega arith, name_valid);
}

decode_direct_bind_response_payload_example :
    decode_direct_bind_response_payload (encode_direct_bind_response_payload 409 ticket name)
    ≡ some (record { code = 409; ticket = ticket; message = name })
decode_direct_bind_response_payload_example =
    decode_response-encode_response 409 ticket name (omega arith) ticket-IsTicket
      (omega arith, name_valid)

abbrev policy : DirectTransportRolloutPolicy
policy = record { enabled = true; canary_percent = 90; opcode_allowlist = 0x0201 ∷ [] }

attached : is_canary (evaluate_direct_attach policy name 5).mode ≡ true
unfolding evaluate_direct_attach session_selected fnv1a64 hash_bytes
attached = refl

-- The pieces 513, x and 0x202.
abbrev others : List (List ℕ)
others = (0x78 ∷ []) ∷ (0x20 ∷ 0x30 ∷ 0x78 ∷ 0x32 ∷ 0x30 ∷ 0x32 ∷ []) ∷ []

contains-parse_direct_opcode_allowlist_example :
    contains (parse_direct_opcode_allowlist (join (0x35 ∷ 0x31 ∷ 0x33 ∷ []) others)) 514
    ≡ any_says ((0x35 ∷ 0x31 ∷ 0x33 ∷ []) ∷ others) 514
contains-parse_direct_opcode_allowlist_example =
    contains-parse_direct_opcode_allowlist (0x35 ∷ 0x31 ∷ 0x33 ∷ []) others 514 refl
      (refl, (refl, tt))
