-- ===== src/Base/Ints.antt =====
-- Signed integers, with the sums and tests that the programs make of them.
use Prim.Native.Nat.{ℕ, suc, ◌+◌, ◌-◌, ◌≤◌}
use mathlib.Core.Bool.{Bool}
use dynaxis.Base.Tests.{leb, ltb, if◌then◌else◌}

-- `negsuc n` is -(n + 1).
pub data ℤ : Type 0 where
  pos : ℕ → ℤ
  negsuc : ℕ → ℤ

-- An integer is the difference of two numbers, one of them 0.
abbrev pub above : ℤ → ℕ
above (pos n) = n
above (negsuc n) = 0

abbrev pub below : ℤ → ℕ
below (pos n) = 0
below (negsuc n) = suc n

abbrev pub difference : ℕ → ℕ → ℤ
difference m n = if leb n m then pos (m - n) else negsuc (n - m - 1)

infixl 65 ◌+ℤ◌ ◌-ℤ◌
infix 50 ◌≤ℤ◌
unfoldable pub ◌+ℤ◌ : ℤ → ℤ → ℤ
x +ℤ y = difference (above x + above y) (below x + below y)

unfoldable pub ◌-ℤ◌ : ℤ → ℤ → ℤ
x -ℤ y = difference (above x + below y) (below x + above y)

abbrev pub ◌≤ℤ◌ : ℤ → ℤ → Type 0
x ≤ℤ y = above x + below y ≤ above y + below x

abbrev pub leb_ℤ : ℤ → ℤ → Bool
leb_ℤ x y = leb (above x + below y) (above y + below x)

abbrev pub ltb_ℤ : ℤ → ℤ → Bool
ltb_ℤ x y = ltb (above x + below y) (above y + below x)

abbrev pub abs : ℤ → ℕ
abs x = above x + below x
