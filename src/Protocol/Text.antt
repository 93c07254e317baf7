-- ===== src/Protocol/Text.antt =====
-- The text codec of core/include/server/core/protocol/packet.hpp: UTF-8 behind a length of two
-- bytes. A text is a list of bytes.
use dynaxis.Base.{
  ltb-eq-false, ℕ, zero, suc, ◌+◌, ◌*◌, ◌^◌, ◌<◌, ◌≡◌, refl, ap, ◌∙◌, Bool, true, false, not, ◌&&◌,
  List, [], ◌∷◌, ◌++◌, Option, none, some, arith, bit_and, bit_or, ltb, leb, ◌==◌, if◌then◌else◌,
  u16, u32, length, take, drop, length-append, take-length-append, drop-length-append,
}
use dynaxis.Protocol.Bytes.{read_be16, bytes16, join16-bytes}

-- What the first byte of a character says.
pub record Lead : Type 0 where
  pub allowed : Bool
  pub follow : ℕ
  pub codepoint : ℕ
  pub min_codepoint : ℕ

unfoldable pub lead_of : ℕ → Lead
lead_of byte0 =
    if ltb byte0 0x80
    then record { allowed = true; follow = 0; codepoint = 0; min_codepoint = 0 }
    else if bit_and byte0 0xe0 == 0xc0
    then record { allowed = true; follow = 1; codepoint = bit_and byte0 0x1f; min_codepoint = 0x80 }
    else if bit_and byte0 0xf0 == 0xe0
    then record {
      allowed = true;
      follow = 2;
      codepoint = bit_and byte0 0x0f;
      min_codepoint = 0x800;
    }
    else if bit_and byte0 0xf8 == 0xf0
    then record {
      allowed = true;
      follow = 3;
      codepoint = bit_and byte0 0x07;
      min_codepoint = 0x10000;
    }
    else record { allowed = false; follow = 0; codepoint = 0; min_codepoint = 0 }

-- The tests of a character that is complete.
abbrev pub is_scalar : ℕ → ℕ → Bool
is_scalar min_codepoint codepoint =
    leb min_codepoint codepoint
    && (leb codepoint 0x10ffff && not (leb 0xd800 codepoint && leb codepoint 0xdfff))

-- Both loops of `is_valid_utf8`, which share one index: `follow` bytes of the current character are
-- still to come.
unfoldable pub valid_from : ℕ → ℕ → ℕ → List ℕ → Bool
valid_from zero codepoint min_codepoint [] = true
valid_from (suc follow) codepoint min_codepoint [] = false
valid_from zero codepoint min_codepoint (byte0 ∷ s) =
    let lead = lead_of byte0 in
    let rest = valid_from lead.follow lead.codepoint lead.min_codepoint s in lead.allowed && rest
valid_from (suc follow) codepoint min_codepoint (cont ∷ s) =
    let next = bit_or (u32 (codepoint * 2 ^ 6)) (bit_and cont 0x3f) in
    let rest = valid_from follow next min_codepoint s in
    if not (bit_and cont 0xc0 == 0x80)
    then false
    else if follow == 0 && not (is_scalar min_codepoint next)
    then false
    else rest

unfoldable pub is_valid_utf8 : List ℕ → Bool
is_valid_utf8 s = valid_from 0 0 0 s

-- The text is cut at the largest length; the buffer grows by the length's two bytes and the text.
unfoldable pub write_lp_utf8 : List ℕ → List ℕ → List ℕ
write_lp_utf8 out str =
    let cut = if ltb 0xffff (length str) then take 0xffff str else str in
    out ++ (bytes16 (u16 (length cut)) ++ cut)

-- The text and what follows it, or nothing.
unfoldable pub read_lp_utf8 : List ℕ → Option (List ℕ × List ℕ)
read_lp_utf8 input =
    let len = read_be16 input 0 in
    let payload = take len (drop 2 input) in
    if ltb (length input) 2
    then none
    else if ltb (length input) (2 + len)
    then none
    else if not (is_valid_utf8 payload)
    then none
    else some (payload, drop (2 + len) input)

both : (a b : Bool) → (a && b) ≡ true → (a ≡ true) × (b ≡ true)
both true b h = (refl, h)
both false b h = (h, ground (arith, h))

conjoin : (a b : Bool) → a ≡ true → b ≡ true → (a && b) ≡ true
conjoin a b ha hb = ground (arith, ha, hb)

-- Two refusals before an answer.
unrefused :
    (a b x y : Bool)
    → (if a then false else if b then false else x) ≡ true
    → (x ≡ true → y ≡ true)
    → (if a then false else if b then false else y) ≡ true
unrefused true b x y h f = h
unrefused false true x y h f = h
unrefused false false x y h f = f h

valid_from-append :
    (follow codepoint min_codepoint : ℕ) (s t : List ℕ)
    → valid_from follow codepoint min_codepoint s ≡ true
    → valid_from 0 0 0 t ≡ true
    → valid_from follow codepoint min_codepoint (s ++ t) ≡ true
unfolding valid_from
valid_from-append zero c m [] [] hs ht = refl
valid_from-append zero c m [] (b ∷ t) hs ht = ht
valid_from-append (suc follow) c m [] t hs ht = ground (arith, hs)
valid_from-append zero c m (b ∷ s) t hs ht =
    let lead = lead_of b in
    let (allowed, more) =
      both lead.allowed (valid_from lead.follow lead.codepoint lead.min_codepoint s) hs in
    conjoin lead.allowed _ allowed
      (valid_from-append lead.follow lead.codepoint lead.min_codepoint s t more ht)
valid_from-append (suc follow) c m (b ∷ s) t hs ht =
    let next = bit_or (u32 (c * 2 ^ 6)) (bit_and b 0x3f) in
    unrefused (not (bit_and b 0xc0 == 0x80)) (follow == 0 && not (is_scalar m next)) _ _ hs
      (λ more. valid_from-append follow next m s t more ht)

-- Two valid texts one after the other are a valid text.
pub is_valid_utf8-append :
    (s t : List ℕ) → is_valid_utf8 s ≡ true → is_valid_utf8 t ≡ true → is_valid_utf8 (s ++ t) ≡ true
unfolding is_valid_utf8
is_valid_utf8-append s t hs ht = valid_from-append 0 0 0 s t hs ht

uncut : (s : List ℕ) → length s < 2 ^ 16 → write_lp_utf8 [] s ≡ bytes16 (length s) ++ s
unfolding write_lp_utf8
uncut s short =
    let whole : (if ltb 0xffff (length s) then take 0xffff s else s) ≡ s =
      ap (λ b. if b then take 0xffff s else s) (ltb-eq-false 0xffff (length s) (omega arith)) in
    let same : u16 (length s) ≡ length s = omega arith in
    ap (λ c. bytes16 (u16 (length c)) ++ c) whole ∙ ap (λ n. bytes16 n ++ s) same

framed_length : (n : ℕ) (s : List ℕ) → n < 2 ^ 16 → read_be16 (bytes16 n ++ s) 0 ≡ n
unfolding read_be16
framed_length n s short = join16-bytes n short

drop_suc : (n : ℕ) (s : List ℕ) → drop (2 + n) (bytes16 n ++ s) ≡ drop n s
drop_suc n s = ap (λ k. drop k (bytes16 n ++ s)) two
  where
    two : 2 + n ≡ suc (suc n)
    two = omega arith

read_framed :
    (s rest : List ℕ)
    → length s < 2 ^ 16
    → is_valid_utf8 s ≡ true
    → read_lp_utf8 (bytes16 (length s) ++ (s ++ rest)) ≡ some (s, rest)
unfolding read_lp_utf8
read_framed s rest short valid = rw (framed_length (length s) (s ++ rest) short) (
    ground (
      arith,
      length-append s rest,
      valid,
      take-length-append s rest,
      ap is_valid_utf8 (take-length-append s rest),
      drop_suc (length s) (s ++ rest),
      drop-length-append s rest,
    ))

-- A valid text of less than 2 ^ 16 bytes, written to an empty buffer and followed by any bytes, is
-- read back, and what follows it is left.
pub read_lp_utf8-write_lp_utf8 :
    (s rest : List ℕ)
    → length s < 2 ^ 16
    → is_valid_utf8 s ≡ true
    → read_lp_utf8 (write_lp_utf8 [] s ++ rest) ≡ some (s, rest)
read_lp_utf8-write_lp_utf8 s rest short valid =
    ap (λ l. read_lp_utf8 (l ++ rest)) (uncut s short) ∙ read_framed s rest short valid
