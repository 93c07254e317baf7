-- ===== src/Base/Bits.antt =====
-- The bits of a number, and what `|`, `&`, `<<` and a cast do to each of them.
mod Step
use Step.{bit_or_step, bit_and_step}
use Prim.Native.Nat.{ℕ, zero, suc, ◌+◌, ◌-◌, ◌*◌, ◌/◌, ◌%◌, ◌^◌, ◌≤◌, ◌<◌, max, bit_and, bit_or}
use mathlib.Core.Path.{◌≡◌, refl, ap, ◌∙◌}
use mathlib.Core.Logic.{◌≢◌}
use native.Mathlib.Nat.{pow-suc, one-le-pow, div-add-mod}
use native.Mathlib.Omega.{arith}
use dynaxis.Base.Tests.{ltb, ◌==◌, if◌then◌else◌}

-- Bit `d` of `m`, 0 or 1.
abbrev pub test_bit : ℕ → ℕ → ℕ
test_bit m zero = m % 2
test_bit m (suc d) = test_bit (m / 2) d

pub test_bit-zero : (d : ℕ) → test_bit 0 d ≡ 0
test_bit-zero zero = refl
test_bit-zero (suc d) = test_bit-zero d

pub test_bit-le : (m d : ℕ) → test_bit m d ≤ 1
test_bit-le m zero = omega arith
test_bit-le m (suc d) = test_bit-le (m / 2) d

pub test_bit-bit_or : (a b d : ℕ) → test_bit (bit_or a b) d ≡ max (test_bit a d) (test_bit b d)
test_bit-bit_or a b zero = omega (arith, bit_or_step a b)
test_bit-bit_or a b (suc d) =
    let half : bit_or a b / 2 ≡ bit_or (a / 2) (b / 2) = omega (arith, bit_or_step a b) in
    ap (λ t. test_bit t d) half ∙ test_bit-bit_or (a / 2) (b / 2) d

shl-suc : (m k : ℕ) → m * 2 ^ suc k ≡ 2 * (m * 2 ^ k)
shl-suc m k =
    let e : m * 2 ^ suc k ≡ m * (2 ^ k * 2) = ap (λ (t : ℕ). m * t) (pow-suc 2 k) in
    omega (arith, e)

pub test_bit-shl :
    (m k d : ℕ) → test_bit (m * 2 ^ k) d ≡ (if ltb d k then 0 else test_bit m (d - k))
test_bit-shl m zero d =
    let whole : m * 2 ^ 0 ≡ m = omega arith in
    let same : d - 0 ≡ d = omega arith in
    ground (arith, ap (λ t. test_bit t d) whole, ap (λ t. test_bit m t) same)
test_bit-shl m (suc k) zero = ground (arith, shl-suc m k)
test_bit-shl m (suc k) (suc d) =
    let half : m * 2 ^ suc k / 2 ≡ m * 2 ^ k = omega (arith, shl-suc m k) in
    let same : suc d - suc k ≡ d - k = omega arith in
    ground (arith, ap (λ t. test_bit t d) half, ap (λ t. test_bit m t) same, test_bit-shl m k d)

test_bit-one : (d : ℕ) → test_bit 1 d ≡ (if d == 0 then 1 else 0)
test_bit-one zero = refl
test_bit-one (suc d) = ground (arith, test_bit-zero d)

-- `1 << k` has the one bit `k`.
pub test_bit-pow : (k d : ℕ) → test_bit (2 ^ k) d ≡ (if d == k then 1 else 0)
test_bit-pow k d =
    let one : 2 ^ k ≡ 1 * 2 ^ k = omega arith in
    ground (arith, ap (λ t. test_bit t d) one, test_bit-shl 1 k d, test_bit-one (d - k))

half-mod : (m p : ℕ) → 0 < p → m % (2 * p) / 2 ≡ m / 2 % p
half-mod m p h = grind arith

mod-mod_two : (m p : ℕ) → m % (2 * p) % 2 ≡ m % 2
mod-mod_two m p = omega (arith, div-add-mod m (2 * p))

two-pow-suc : (k : ℕ) → 2 ^ suc k ≡ 2 * 2 ^ k
two-pow-suc k = omega (arith, pow-suc 2 k)

-- A cast to `w` bits keeps the bits below `w`.
pub test_bit-mod : (m w d : ℕ) → d < w → test_bit (m % 2 ^ w) d ≡ test_bit m d
test_bit-mod m zero d h = absurd (omega arith)
test_bit-mod m (suc w) zero h = rw two-pow-suc (mod-mod_two m (2 ^ w))
test_bit-mod m (suc w) (suc d) h =
    rw (two-pow-suc, half-mod m (2 ^ w) (one-le-pow w 2 (omega arith)))
      (test_bit-mod (m / 2) w d (omega arith))

bit_and-zero_below : (k a : ℕ) → a < k → bit_and a 0 ≡ 0
bit_and-zero_below zero a h = absurd (omega arith)
bit_and-zero_below (suc k) zero h = refl
bit_and-zero_below (suc k) (suc a) h =
    omega (arith, bit_and_step (suc a) 0, bit_and-zero_below k (suc a / 2) (omega arith))

bit_and-zero : (a : ℕ) → bit_and a 0 ≡ 0
bit_and-zero a = bit_and-zero_below (suc a) a (omega arith)

-- `m & (1 << k)` is zero exactly where bit `k` is.
pub bit_and-pow : (m k : ℕ) → bit_and m (2 ^ k) ≡ test_bit m k * 2 ^ k
bit_and-pow m zero = omega (arith, bit_and_step m 1, bit_and-zero (m / 2))
bit_and-pow m (suc k) = omega (
  arith,
  bit_and_step m (2 ^ suc k),
  two-pow-suc k,
  ap (λ t. bit_and (m / 2) t) (halve k),
  bit_and-pow (m / 2) k,
  shl-suc (test_bit (m / 2) k) k,
)
  where
    halve : (k : ℕ) → 2 ^ suc k / 2 ≡ 2 ^ k
    halve k = omega (arith, two-pow-suc k)

-- `m & (2 ^ k - 1)` is the remainder by `2 ^ k`.
pub bit_and-low : (k m : ℕ) → bit_and m (2 ^ k - 1) ≡ m % 2 ^ k
bit_and-low zero m = omega (arith, bit_and-zero m)
bit_and-low (suc k) m = omega (
  arith,
  bit_and_step m (2 ^ suc k - 1),
  ap (λ t. bit_and (m / 2) t) halve,
  bit_and-low k (m / 2),
  half-mod m (2 ^ k) pos,
  mod-mod_two m (2 ^ k),
  ap (λ t. m % t) (two-pow-suc k),
  two-pow-suc k,
  pos,
)
  where
    pos : 0 < 2 ^ k
    pos = one-le-pow k 2 (omega arith)

    halve : (2 ^ suc k - 1) / 2 ≡ 2 ^ k - 1
    halve = omega (arith, two-pow-suc k, pos)

bit_or-zero_below : (k a : ℕ) → a < k → bit_or a 0 ≡ a
bit_or-zero_below zero a h = absurd (omega arith)
bit_or-zero_below (suc k) zero h = refl
bit_or-zero_below (suc k) (suc a) h =
    omega (arith, bit_or_step (suc a) 0, bit_or-zero_below k (suc a / 2) (omega arith))

bit_or-zero : (a : ℕ) → bit_or a 0 ≡ a
bit_or-zero a = bit_or-zero_below (suc a) a (omega arith)

-- The bits of a number below `2 ^ k` stay beside those that were shifted past them.
pub bit_or-disjoint : (k m low : ℕ) → low < 2 ^ k → bit_or (m * 2 ^ k) low ≡ m * 2 ^ k + low
bit_or-disjoint zero m low h = ground (arith, bit_or-zero m)
bit_or-disjoint (suc k) m low h =
    let fits : low / 2 < 2 ^ k = omega (arith, two-pow-suc k) in
    let upper : bit_or (m * 2 ^ k) (low / 2) ≡ m * 2 ^ k + low / 2 =
      bit_or-disjoint k m (low / 2) fits in
    let half : m * 2 ^ suc k / 2 ≡ m * 2 ^ k = omega (arith, shl-suc m k) in
    omega (
      arith,
      bit_or_step (m * 2 ^ suc k) low,
      shl-suc m k,
      upper,
      ap (λ t. bit_or t (low / 2)) half,
    )
