-- ===== src/Protocol/Bytes.antt =====
-- The big-endian helpers of core/include/server/core/protocol/packet.hpp and of direct_bind.hpp. A
-- pointer into a buffer is the buffer, a list of bytes, with an offset.
use dynaxis.Base.{
  ℕ, ◌+◌, ◌*◌, ◌%◌, ◌^◌, ◌<◌, ◌≡◌, refl, ◌∙◌, List, [], ◌∷◌, arith, bit_and, bit_or, u8, u16, u32,
  shr, get_or, set, bit_and-low, bit_or-disjoint, ap, ap₂,
}

-- `p[i]`; every use is within the buffer.
abbrev pub byte_at : List ℕ → ℕ → ℕ
byte_at p i = get_or p i 0

-- `static_cast<std::uint8_t>((v >> k) & 0xFF)`
unfoldable pub byte_of : ℕ → ℕ → ℕ
byte_of v k = u8 (bit_and (shr v k) 0xff)

unfoldable pub read_be16 : List ℕ → ℕ → ℕ
read_be16 p off = u16 (bit_or (byte_at p off * 2 ^ 8) (byte_at p (off + 1)))

-- The four bytes of a 32-bit number; a shift of a `std::uint32_t` wraps.
unfoldable pub join32 : ℕ → ℕ → ℕ → ℕ → ℕ
join32 a b c d = bit_or (bit_or (bit_or (u32 (a * 2 ^ 24)) (u32 (b * 2 ^ 16))) (u32 (c * 2 ^ 8))) d

unfoldable pub read_be32 : List ℕ → ℕ → ℕ
unfolding join32
read_be32 p off =
    join32 (byte_at p off) (byte_at p (off + 1)) (byte_at p (off + 2)) (byte_at p (off + 3))

unfoldable pub write_be16 : ℕ → List ℕ → ℕ → List ℕ
unfolding byte_of
write_be16 v out off = set (set out off (byte_of v 8)) (off + 1) (byte_of v 0)

unfoldable pub write_be32 : ℕ → List ℕ → ℕ → List ℕ
unfolding byte_of
write_be32 v out off =
    set (set (set (set out off (byte_of v 24)) (off + 1) (byte_of v 16)) (off + 2) (byte_of v 8))
      (off + 3) (byte_of v 0)

pub byte_of_lem : (v k : ℕ) → byte_of v k ≡ shr v k % 256
unfolding byte_of
byte_of_lem v k = omega (arith, bit_and-low 8 (shr v k))

pub byte_of-lt : (v k : ℕ) → byte_of v k < 256
byte_of-lt v k = omega (arith, byte_of_lem v k)

pub join16_lem : (a b : ℕ) → a < 256 → b < 256 → u16 (bit_or (a * 2 ^ 8) b) ≡ a * 256 + b
join16_lem a b ha hb = omega (arith, bit_or-disjoint 8 a b)

pub join32_lem :
    (a b c d : ℕ)
    → a < 256
    → b < 256
    → c < 256
    → d < 256
    → join32 a b c d ≡ ((a * 256 + b) * 256 + c) * 256 + d
unfolding join32
join32_lem a b c d ha hb hc hd =
    ap₂ bit_or (ap₂ bit_or (ap₂ bit_or top second) third ∙ upper) refl ∙ lower
  where
    top : u32 (a * 2 ^ 24) ≡ a * 2 ^ 24
    top = omega arith

    second : u32 (b * 2 ^ 16) ≡ b * 2 ^ 16
    second = omega arith

    third : u32 (c * 2 ^ 8) ≡ c * 2 ^ 8
    third = omega arith

    upper :
        bit_or (bit_or (a * 2 ^ 24) (b * 2 ^ 16)) (c * 2 ^ 8) ≡ ((a * 256 + b) * 256 + c) * 2 ^ 8
    upper =
        ap (λ t. bit_or t (c * 2 ^ 8))
          (let e : bit_or (a * 2 ^ 24) (b * 2 ^ 16) ≡ (a * 256 + b) * 2 ^ 16 =
              omega (arith, bit_or-disjoint 24 a (b * 2 ^ 16)) in
            e)
        ∙ omega (arith, bit_or-disjoint 16 (a * 256 + b) (c * 2 ^ 8))

    lower : bit_or (((a * 256 + b) * 256 + c) * 2 ^ 8) d ≡ ((a * 256 + b) * 256 + c) * 256 + d
    lower = omega (arith, bit_or-disjoint 8 ((a * 256 + b) * 256 + c) d)

-- The bytes of a number, most significant first.
abbrev pub bytes16 : ℕ → List ℕ
bytes16 v = byte_of v 8 ∷ byte_of v 0 ∷ []

abbrev pub bytes32 : ℕ → List ℕ
bytes32 v = byte_of v 24 ∷ byte_of v 16 ∷ byte_of v 8 ∷ byte_of v 0 ∷ []

pub join16-bytes : (v : ℕ) → v < 2 ^ 16 → u16 (bit_or (byte_of v 8 * 2 ^ 8) (byte_of v 0)) ≡ v
join16-bytes v h =
    join16_lem _ _ (byte_of-lt v 8) (byte_of-lt v 0)
    ∙ omega (arith, byte_of_lem v 8, byte_of_lem v 0)

pub join32-bytes :
    (v : ℕ) → v < 2 ^ 32 → join32 (byte_of v 24) (byte_of v 16) (byte_of v 8) (byte_of v 0) ≡ v
join32-bytes v h =
    join32_lem _ _ _ _ (byte_of-lt v 24) (byte_of-lt v 16) (byte_of-lt v 8) (byte_of-lt v 0)
    ∙ omega (arith, byte_of_lem v 24, byte_of_lem v 16, byte_of_lem v 8, byte_of_lem v 0)
