-- ===== src/Realtime/Runtime/State/Cells.antt =====
-- The grid of cells divides the plane.
use native.Mathlib.Nat.{div-mul-le_self, lt-div-mul-add}
use dynaxis.Base.{
  ℕ, ap, subst, sym, ◌≡◌, suc, ◌+◌, ◌-◌, ◌*◌, ◌/◌, ◌≤◌, ◌<◌, arith, ℤ, pos, negsuc, above, below,
}
use dynaxis.Realtime.Runtime.State.{cell_coord, negative}

-- A cell reaches from its number times the size up to the next: the bounds of an integer `cell`
-- scaled by `size`, in terms of its two parts.
pub record InCell (cell value : ℤ) (size : ℕ) : Type 0 where
  pub from : above cell * size + below value ≤ above value + below cell * size
  pub until : above value + below cell * size < above cell * size + size + below value

negative-InCell :
    (q value size : ℕ)
    → value ≤ q * size
    → q * size < size + value
    → 0 < value
    → InCell (negative q) (negsuc (value - 1)) size
negative-InCell q value size low high positive = record {
  from = ground arith;
  until = ground arith;
}

-- For a positive size, `cell_coord` gives the one cell whose bounds hold the value, also where the
-- value is negative.
pub cell_coord-InCell :
    (value : ℤ) (size : ℕ) → 0 < size → InCell (cell_coord value (pos size)) value size
unfolding cell_coord
cell_coord-InCell (pos n) size h = record {
  from = ground (arith, div-mul-le_self n size);
  until = ground (arith, lt-div-mul-add {a = n} {b = size} h);
}
cell_coord-InCell (negsuc n) size h =
    let q = (suc n + size - 1) / size in
    let low : suc n ≤ q * size =
      omega (arith, lt-div-mul-add {a = suc n + size - 1} {b = size} h) in
    let high : q * size < size + suc n = omega (arith, div-mul-le_self (suc n + size - 1) size) in
    let cell = negative-InCell q (suc n) size low high (omega arith) in
    let here : cell_coord (negsuc n) (pos size) ≡ negative q = ground (arith, h) in
    let value : negsuc (suc n - 1) ≡ negsuc n = ap negsuc (omega arith) in
    subst (λ c. InCell c (negsuc n) size) (sym here)
      (subst (λ v. InCell (negative q) v size) value cell)
