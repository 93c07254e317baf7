-- ===== src/Base/Bits/Step.antt =====
-- The native `bit_or` and `bit_and` are defined by `digits`, with fuel; here is what one step of
-- them does to the lowest digit, whatever the fuel.
use Prim.Native.Nat.{
  ℕ, zero, suc, ◌+◌, ◌-◌, ◌*◌, ◌/◌, ◌%◌, ◌≤◌, min, max, bit_and, bit_or, digits, bitwise,
  bit_and-bitwise, bit_or-bitwise,
}
use mathlib.Core.Path.{◌≡◌, refl, ap, ◌∙◌}
use native.Mathlib.Omega.{arith}

module _ (rest : ℕ → ℕ) (digit : ℕ → ℕ → ℕ) where
  one_more :
      (fuel a b : ℕ) → a ≤ fuel → digits rest digit (suc fuel) a b ≡ digits rest digit fuel a b
  one_more zero zero b h = refl
  one_more zero (suc a) b h = absurd (omega arith)
  one_more (suc fuel) zero b h = refl
  one_more (suc fuel) (suc a) b h =
      ap (λ t. t * 2 + digit (suc a % 2) (b % 2)) (one_more fuel (suc a / 2) (b / 2) (omega arith))

  many_more :
      (k fuel a b : ℕ) → a ≤ fuel → digits rest digit (k + fuel) a b ≡ digits rest digit fuel a b
  many_more zero fuel a b h = ap (λ t. digits rest digit t a b) (omega arith)
  many_more (suc k) fuel a b h =
      let e : suc k + fuel ≡ suc (k + fuel) = omega arith in
      ap (λ t. digits rest digit t a b) e
      ∙ one_more (k + fuel) a b (omega arith)
      ∙ many_more k fuel a b h

  halved : (a b : ℕ) → digits rest digit a (suc a / 2) b ≡ bitwise rest digit (suc a / 2) b
  halved a b =
      let e : a ≡ (a - suc a / 2) + suc a / 2 = omega arith in
      ap (λ t. digits rest digit t (suc a / 2) b) e
      ∙ many_more (a - suc a / 2) (suc a / 2) (suc a / 2) b (omega arith)

-- The lowest digit of `a | b` is the larger of the lowest digits.
pub bit_or_step : (x y : ℕ) → bit_or x y ≡ max (x % 2) (y % 2) + 2 * bit_or (x / 2) (y / 2)
bit_or_step zero y = simp bit_or-bitwise (omega arith)
bit_or_step (suc x) y = simp bit_or-bitwise (omega (arith, halved (λ y. y) max x (y / 2)))

-- The lowest digit of `a & b` is the smaller of the lowest digits.
pub bit_and_step : (x y : ℕ) → bit_and x y ≡ min (x % 2) (y % 2) + 2 * bit_and (x / 2) (y / 2)
bit_and_step zero y = simp bit_and-bitwise (omega arith)
bit_and_step (suc x) y = simp bit_and-bitwise (omega (arith, halved (λ _. 0) min x (y / 2)))
