-- ===== src/Realtime/DirectBind.antt =====
-- core/include/server/core/realtime/direct_bind.hpp: the messages that bind a UDP endpoint to a
-- session, over the text codec of the packet header. A decoder gives the message or nothing; what a
-- failed decoder of the source leaves in its output is not kept.
pub mod RoundTrip
use dynaxis.Base.{
  ℕ, ◌+◌, ◌*◌, ◌^◌, List, [], ◌∷◌, ◌++◌, Option, none, some, ltb, if◌then◌else◌, u16, u64, bit_or,
  length, drop, is_empty, ◌>>=◌,
}
use dynaxis.Protocol.Bytes.{byte_at, byte_of, read_be16, bytes16}
use dynaxis.Protocol.Text.{read_lp_utf8, write_lp_utf8}

pub record DirectBindRequest : Type 0 where
  pub session_id : List ℕ
  pub nonce : ℕ
  pub expires_unix_ms : ℕ
  pub token : List ℕ

pub record DirectBindTicket : Type 0 where
  pub session_id : List ℕ
  pub nonce : ℕ
  pub expires_unix_ms : ℕ
  pub token : List ℕ

pub record DirectBindResponse : Type 0 where
  pub code : ℕ
  pub ticket : DirectBindTicket
  pub message : List ℕ

abbrev pub bytes64 : ℕ → List ℕ
bytes64 v =
    byte_of v 56
    ∷ byte_of v 48
    ∷ byte_of v 40
    ∷ byte_of v 32
    ∷ byte_of v 24
    ∷ byte_of v 16
    ∷ byte_of v 8
    ∷ byte_of v 0
    ∷ []

unfoldable pub write_be64 : ℕ → List ℕ → List ℕ
write_be64 value out = out ++ bytes64 value

-- Eight bytes, each shifted into a word of 64 bits.
unfoldable pub join64 : ℕ → ℕ → ℕ → ℕ → ℕ → ℕ → ℕ → ℕ → ℕ
join64 a b c d e f g h =
    bit_or
      (bit_or
        (bit_or
          (bit_or
            (bit_or (bit_or (bit_or (u64 (a * 2 ^ 56)) (u64 (b * 2 ^ 48))) (u64 (c * 2 ^ 40)))
              (u64 (d * 2 ^ 32)))
            (u64 (e * 2 ^ 24)))
          (u64 (f * 2 ^ 16)))
        (u64 (g * 2 ^ 8)))
      h

-- The number and what follows it, or nothing.
unfoldable pub read_be64 : List ℕ → Option (ℕ × List ℕ)
read_be64 input =
    if ltb (length input) 8
    then none
    else some (
      join64 (byte_at input 0) (byte_at input 1) (byte_at input 2) (byte_at input 3)
          (byte_at input 4) (byte_at input 5) (byte_at input 6) (byte_at input 7),
      drop 8 input,
    )

unfoldable pub encode_direct_bind_request_payload : DirectBindRequest → List ℕ
encode_direct_bind_request_payload request =
    let named = write_lp_utf8 [] request.session_id in
    let dated = write_be64 request.expires_unix_ms (write_be64 request.nonce named) in
    write_lp_utf8 dated request.token

-- `return in.empty()`
abbrev pub ended {ℓ} : {A : Type ℓ} → A → List ℕ → Option A
ended a rest = if is_empty rest then some a else none

unfoldable pub decode_direct_bind_request_payload : List ℕ → Option DirectBindRequest
decode_direct_bind_request_payload payload = do
  (session_id, after_name) ← read_lp_utf8 payload
  (nonce, after_nonce) ← read_be64 after_name
  (expires_unix_ms, after_date) ← read_be64 after_nonce
  (token, rest) ← read_lp_utf8 after_date
  ended
      (record {
        session_id = session_id;
        nonce = nonce;
        expires_unix_ms = expires_unix_ms;
        token = token;
      })
      rest

unfoldable pub encode_direct_bind_response_payload : ℕ → DirectBindTicket → List ℕ → List ℕ
encode_direct_bind_response_payload code ticket message =
    let named = write_lp_utf8 (bytes16 code) ticket.session_id in
    let dated = write_be64 ticket.expires_unix_ms (write_be64 ticket.nonce named) in
    write_lp_utf8 (write_lp_utf8 dated ticket.token) message

unfoldable pub decode_direct_bind_response_payload : List ℕ → Option DirectBindResponse
decode_direct_bind_response_payload payload = if ltb (length payload) 2 then none else do
  (session_id, after_name) ← read_lp_utf8 (drop 2 payload)
  (nonce, after_nonce) ← read_be64 after_name
  (expires_unix_ms, after_date) ← read_be64 after_nonce
  (token, after_token) ← read_lp_utf8 after_date
  (message, rest) ← read_lp_utf8 after_token
  ended
      (record {
        code = read_be16 payload 0;
        ticket = record {
          session_id = session_id;
          nonce = nonce;
          expires_unix_ms = expires_unix_ms;
          token = token;
        };
        message = message;
      })
      rest
