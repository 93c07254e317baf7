-- ===== src/Realtime/TransportPolicy.antt =====
-- core/include/server/core/realtime/transport_policy.hpp: which sessions are let onto the direct path,
-- and which messages may take it. A text is a list of bytes, a set of opcodes a list without
-- repetition.
pub mod Tokens
pub mod Rollout
use dynaxis.Base.{
  ℕ, zero, suc, ◌+◌, ◌-◌, ◌*◌, ◌%◌, ◌^◌, Bool, true, false, not, ◌&&◌, ◌||◌, List, [], ◌∷◌, ◌++◌,
  Option, none, some, ltb, leb, ◌==◌, if◌then◌else◌, u8, u32, u64, shr, bit_and, length, drop,
  is_empty, contains, get_or, ◌>>=◌,
}
use Prim.Native.Nat.{bit_xor}

abbrev pub comma : ℕ
comma = 0x2c

abbrev pub is_ascii_space : ℕ → Bool
is_ascii_space c = c == 0x20 || (c == 0x09 || (c == 0x0d || c == 0x0a))

unfoldable pub trim_front : List ℕ → List ℕ
trim_front [] = []
trim_front (c ∷ cs) = let rest = trim_front cs in if is_ascii_space c then rest else c ∷ cs

unfoldable pub trim_back : List ℕ → List ℕ
trim_back [] = []
trim_back (c ∷ cs) =
    let rest = trim_back cs in if is_empty rest && is_ascii_space c then [] else c ∷ rest

abbrev pub trim_ascii : List ℕ → List ℕ
trim_ascii value = trim_back (trim_front value)

-- The value of a digit, a letter of either case standing for 10 and more.
abbrev pub digit : ℕ → ℕ → Option ℕ
digit base c =
    let value =
      if leb 0x30 c && leb c 0x39
      then c - 0x30
      else if leb 0x41 c && leb c 0x5a
      then c - 0x41 + 10
      else if leb 0x61 c && leb c 0x7a
      then c - 0x61 + 10
      else base in
    if ltb value base then some value else none

-- `std::from_chars` that reads the whole text, given what was read so far; a value of 2 ^ 32 or more
-- is out of range.
unfoldable pub from_chars : ℕ → ℕ → List ℕ → Option ℕ
from_chars base value [] = if ltb value (2 ^ 32) then some value else none
from_chars base value (c ∷ cs) = digit base c >>= λ d. from_chars base (value * base + d) cs

abbrev pub is_hex : List ℕ → Bool
is_hex token =
    ltb 2 (length token)
    && (get_or token 0 0 == 0x30 && (get_or token 1 0 == 0x78 || get_or token 1 0 == 0x58))

unfoldable pub parse_u16_token : List ℕ → Option ℕ
parse_u16_token text =
    let token = trim_ascii text in
    let hex = is_hex token in
    let digits = if hex then drop 2 token else token in
    if is_empty digits
    then none
    else (from_chars (if hex then 16 else 10) 0 digits >>= λ parsed.
        if ltb 0xffff parsed then none else some parsed)

-- The pieces between commas; a text without a comma is one piece.
abbrev pub onto_head : ℕ → List (List ℕ) → List (List ℕ)
onto_head c [] = (c ∷ []) ∷ []
onto_head c (t ∷ ts) = (c ∷ t) ∷ ts

unfoldable pub pieces : List ℕ → List (List ℕ)
pieces [] = [] ∷ []
pieces (c ∷ cs) = let rest = pieces cs in if c == comma then [] ∷ rest else onto_head c rest

abbrev pub insert : List ℕ → Option ℕ → List ℕ
insert out none = out
insert out (some opcode) = if contains out opcode then out else out ++ opcode ∷ []

unfoldable pub parse_pieces : List ℕ → List (List ℕ) → List ℕ
parse_pieces out [] = out
parse_pieces out (t ∷ ts) = parse_pieces (insert out (parse_u16_token t)) ts

unfoldable pub parse_direct_opcode_allowlist : List ℕ → List ℕ
parse_direct_opcode_allowlist csv = parse_pieces [] (pieces csv)

abbrev pub prime : ℕ
prime = 1099511628211

abbrev pub mix : ℕ → ℕ → ℕ
mix hash byte = u64 (bit_xor hash byte * prime)

unfoldable pub hash_bytes : ℕ → List ℕ → ℕ
hash_bytes hash [] = hash
hash_bytes hash (c ∷ cs) = hash_bytes (mix hash (u8 c)) cs

abbrev pub nonce_byte : ℕ → ℕ → ℕ
nonce_byte nonce shift = u8 (bit_and (shr nonce shift) 0xff)

unfoldable pub fnv1a64 : List ℕ → ℕ → ℕ
fnv1a64 session_id nonce = hash_bytes (hash_bytes 1469598103934665603 session_id) (
    nonce_byte nonce 0
    ∷ nonce_byte nonce 8
    ∷ nonce_byte nonce 16
    ∷ nonce_byte nonce 24
    ∷ nonce_byte nonce 32
    ∷ nonce_byte nonce 40
    ∷ nonce_byte nonce 48
    ∷ nonce_byte nonce 56
    ∷ [])

pub record DirectTransportRolloutPolicy : Type 0 where
  pub enabled : Bool
  pub canary_percent : ℕ
  pub opcode_allowlist : List ℕ

unfoldable pub session_selected : DirectTransportRolloutPolicy → List ℕ → ℕ → Bool
session_selected policy session_id nonce =
    if not policy.enabled || policy.canary_percent == 0
    then false
    else if leb 100 policy.canary_percent
    then true
    else ltb (u32 (fnv1a64 session_id nonce % 100)) policy.canary_percent

abbrev pub opcode_allowed : DirectTransportRolloutPolicy → ℕ → Bool
opcode_allowed policy opcode =
    not (is_empty policy.opcode_allowlist) && contains policy.opcode_allowlist opcode

pub data DirectAttachMode : Type 0 where
  udp_only rudp_canary : DirectAttachMode

pub data DirectAttachReason : Type 0 where
  rollout_disabled allowlist_empty canary_miss canary_selected : DirectAttachReason

pub record DirectAttachDecision : Type 0 where
  pub mode : DirectAttachMode
  pub reason : DirectAttachReason

unfoldable pub evaluate_direct_attach :
    DirectTransportRolloutPolicy → List ℕ → ℕ → DirectAttachDecision
evaluate_direct_attach policy session_id nonce =
    if not policy.enabled
    then record { mode = DirectAttachMode.udp_only; reason = DirectAttachReason.rollout_disabled }
    else if is_empty policy.opcode_allowlist
    then record { mode = DirectAttachMode.udp_only; reason = DirectAttachReason.allowlist_empty }
    else if not (session_selected policy session_id nonce)
    then record { mode = DirectAttachMode.udp_only; reason = DirectAttachReason.canary_miss }
    else record { mode = DirectAttachMode.rudp_canary; reason = DirectAttachReason.canary_selected }
