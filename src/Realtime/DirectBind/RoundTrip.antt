-- ===== src/Realtime/DirectBind/RoundTrip.antt =====
-- What the bind messages are encoded to is decoded to them.
use dynaxis.Base.{
  ℕ, ◌+◌, ◌*◌, ◌^◌, ◌<◌, ◌≡◌, refl, ap, ◌∙◌, sym, true, List, [], ◌++◌, append-nil, append_assoc,
  some, arith, u64, bit_or, bit_or-disjoint, length,
}
use dynaxis.Protocol.Bytes.{byte_of, byte_of_lem, byte_of-lt, bytes16, read_be16, join16-bytes}
use dynaxis.Protocol.Text.{is_valid_utf8, read_lp_utf8, write_lp_utf8, read_lp_utf8-write_lp_utf8}
use dynaxis.Realtime.DirectBind.{
  DirectBindRequest, DirectBindTicket, bytes64, write_be64, join64, read_be64,
  encode_direct_bind_request_payload, decode_direct_bind_request_payload,
  encode_direct_bind_response_payload, decode_direct_bind_response_payload,
}

-- One more byte below the ones that are there.
merge : (n x p q : ℕ) → p ≡ x * 2 ^ n → q < 2 ^ n → bit_or p q ≡ x * 2 ^ n + q
merge n x p q e h = ap (λ t. bit_or t q) e ∙ bit_or-disjoint n x q h

join64_lem :
    (a b c d e f g h : ℕ)
    → a < 256
    → b < 256
    → c < 256
    → d < 256
    → e < 256
    → f < 256
    → g < 256
    → h < 256
    → join64 a b c d e f g h
      ≡ ((((((a * 256 + b) * 256 + c) * 256 + d) * 256 + e) * 256 + f) * 256 + g) * 256 + h
unfolding join64
join64_lem a b c d e f g h ha hb hc hd he hf hg hh =
    let e1 = merge 56 a (u64 (a * 2 ^ 56)) (u64 (b * 2 ^ 48)) (omega arith) (omega arith) in
    let x2 = a * 256 + b in
    let e2 = merge 48 x2 _ (u64 (c * 2 ^ 40)) (e1 ∙ omega arith) (omega arith) in
    let x3 = x2 * 256 + c in
    let e3 = merge 40 x3 _ (u64 (d * 2 ^ 32)) (e2 ∙ omega arith) (omega arith) in
    let x4 = x3 * 256 + d in
    let e4 = merge 32 x4 _ (u64 (e * 2 ^ 24)) (e3 ∙ omega arith) (omega arith) in
    let x5 = x4 * 256 + e in
    let e5 = merge 24 x5 _ (u64 (f * 2 ^ 16)) (e4 ∙ omega arith) (omega arith) in
    let x6 = x5 * 256 + f in
    let e6 = merge 16 x6 _ (u64 (g * 2 ^ 8)) (e5 ∙ omega arith) (omega arith) in
    merge 8 (x6 * 256 + g) _ h (e6 ∙ omega arith) (omega arith) ∙ omega arith

join64-bytes :
    (v : ℕ)
    → v < 2 ^ 64
    → join64
        (byte_of v 56)
        (byte_of v 48)
        (byte_of v 40)
        (byte_of v 32)
        (byte_of v 24)
        (byte_of v 16)
        (byte_of v 8)
        (byte_of v 0)
      ≡ v
join64-bytes v h =
    join64_lem _ _ _ _ _ _ _ _ (byte_of-lt v 56) (byte_of-lt v 48) (byte_of-lt v 40)
      (byte_of-lt v 32) (byte_of-lt v 24) (byte_of-lt v 16) (byte_of-lt v 8) (byte_of-lt v 0)
    ∙ omega (
      arith,
      byte_of_lem v 56,
      byte_of_lem v 48,
      byte_of_lem v 40,
      byte_of_lem v 32,
      byte_of_lem v 24,
      byte_of_lem v 16,
      byte_of_lem v 8,
      byte_of_lem v 0,
    )

read_be64-bytes64 :
    (v : ℕ) (rest : List ℕ) → v < 2 ^ 64 → read_be64 (bytes64 v ++ rest) ≡ some (v, rest)
unfolding read_be64
read_be64-bytes64 v rest h = rw (join64-bytes v h) (ground arith)

write_lp_utf8-out : (out s : List ℕ) → write_lp_utf8 out s ≡ out ++ write_lp_utf8 [] s
unfolding write_lp_utf8
write_lp_utf8-out out s = refl

-- A text or a number that the bind messages may hold.
abbrev pub IsText : List ℕ → Type 0
IsText s = (length s < 2 ^ 16) × (is_valid_utf8 s ≡ true)

read_text :
    (s rest : List ℕ) → IsText s → read_lp_utf8 (write_lp_utf8 [] s ++ rest) ≡ some (s, rest)
read_text s rest h = read_lp_utf8-write_lp_utf8 s rest h.0 h.1

read_last : (s : List ℕ) → IsText s → read_lp_utf8 (write_lp_utf8 [] s) ≡ some (s, [])
read_last s h = ap read_lp_utf8 (sym (append-nil (write_lp_utf8 [] s))) ∙ read_text s [] h

-- The fields that both messages share, before `rest`.
abbrev fields : DirectBindTicket → List ℕ → List ℕ
fields t rest =
    write_lp_utf8 [] t.session_id
    ++ (bytes64 t.nonce ++ (bytes64 t.expires_unix_ms ++ (write_lp_utf8 [] t.token ++ rest)))

pub record IsTicket (t : DirectBindTicket) : Type 0 where
  pub session_id : IsText t.session_id
  pub nonce : t.nonce < 2 ^ 64
  pub expires_unix_ms : t.expires_unix_ms < 2 ^ 64
  pub token : IsText t.token

abbrev ticket_of : DirectBindRequest → DirectBindTicket
ticket_of r = record {
  session_id = r.session_id;
  nonce = r.nonce;
  expires_unix_ms = r.expires_unix_ms;
  token = r.token;
}

assoc5 :
    (a b c d e r : List ℕ) → ((((a ++ b) ++ c) ++ d) ++ e) ++ r ≡ a ++ (b ++ (c ++ (d ++ (e ++ r))))
assoc5 a b c d e r = simp append_assoc

encode_fields :
    (start : List ℕ) (t : DirectBindTicket) (rest : List ℕ)
    → write_lp_utf8
          (write_be64 t.expires_unix_ms (write_be64 t.nonce (write_lp_utf8 start t.session_id)))
          t.token
        ++ rest
      ≡ start ++ fields t rest
unfolding write_be64
encode_fields start t rest =
    let dated = λ (l : List ℕ). (l ++ bytes64 t.nonce) ++ bytes64 t.expires_unix_ms in
    ap (λ l. l ++ rest)
      (write_lp_utf8-out (dated (write_lp_utf8 start t.session_id)) t.token
        ∙ ap (λ l. dated l ++ write_lp_utf8 [] t.token) (write_lp_utf8-out start t.session_id))
    ∙ assoc5 start (write_lp_utf8 [] t.session_id) (bytes64 t.nonce) (bytes64 t.expires_unix_ms)
        (write_lp_utf8 [] t.token) rest

-- A request whose texts are valid and shorter than 2 ^ 16 bytes, and whose numbers fit 64 bits, is
-- decoded from what it is encoded to.
pub decode_request-encode_request :
    (r : DirectBindRequest)
    → IsTicket (ticket_of r)
    → decode_direct_bind_request_payload (encode_direct_bind_request_payload r) ≡ some r
unfolding decode_direct_bind_request_payload encode_direct_bind_request_payload
decode_request-encode_request r h =
    let whole = sym (append-nil _) ∙ encode_fields [] (ticket_of r) [] in
    rw (
      whole,
      read_text r.session_id _ h.session_id,
      read_be64-bytes64 r.nonce _ h.nonce,
      read_be64-bytes64 r.expires_unix_ms _ h.expires_unix_ms,
      read_text r.token [] h.token,
    )

-- A response whose code fits 16 bits, whose texts are valid and shorter than 2 ^ 16 bytes, and whose
-- numbers fit 64 bits, is decoded from what it is encoded to.
pub decode_response-encode_response :
    (code : ℕ) (t : DirectBindTicket) (message : List ℕ)
    → code < 2 ^ 16
    → IsTicket t
    → IsText message
    → decode_direct_bind_response_payload (encode_direct_bind_response_payload code t message)
      ≡ some (record { code = code; ticket = t; message = message })
unfolding decode_direct_bind_response_payload encode_direct_bind_response_payload read_be16
decode_response-encode_response code t message hc h hm =
    let whole =
      write_lp_utf8-out
        (write_lp_utf8
          (write_be64 t.expires_unix_ms
            (write_be64 t.nonce (write_lp_utf8 (bytes16 code) t.session_id)))
          t.token)
        message
      ∙ encode_fields (bytes16 code) t (write_lp_utf8 [] message) in
    rw
      (
        whole,
        join16-bytes code hc,
        read_text t.session_id _ h.session_id,
        read_be64-bytes64 t.nonce _ h.nonce,
        read_be64-bytes64 t.expires_unix_ms _ h.expires_unix_ms,
        read_text t.token _ h.token,
        read_last message hm,
      )
      (ground arith)
