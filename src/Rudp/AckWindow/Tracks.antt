-- ===== src/Rudp/AckWindow/Tracks.antt =====
-- The window of `AckWindow` against the list of every packet number that it was given.
use native.Mathlib.Nat.{one-le-pow}
use dynaxis.Base.{
  ℕ, ◌-◌, ◌*◌, ◌^◌, ◌≤◌, ◌<◌, ◌≡◌, refl, ◌⊎◌, inl, inr, Bool, true, false, not, ◌&&◌, List, [], ◌∷◌,
  bit_and, bit_or, arith, leb, ◌==◌, if◌then◌else◌, Bool-cases, is_empty, contains, maximum,
  contains-le-maximum, u64, test_bit, test_bit-zero, test_bit-bit_or, test_bit-shl, test_bit-pow,
  test_bit-mod, bit_and-pow,
}
use dynaxis.Rudp.AckWindow.{AckWindow, initial, shifted, observe, after}

-- Whether bit `d` of the mask should be set: the number `d` below the largest was given.
abbrev pub marked : List ℕ → ℕ → ℕ → Bool
marked seen largest d = leb d largest && contains seen (largest - d)

pub record Tracks (w : AckWindow) (seen : List ℕ) : Type 0 where
  pub started : w.initialized ≡ not (is_empty seen)
  pub top : w.largest ≡ maximum seen
  pub bits : (d : ℕ) → d < 64 → test_bit w.mask d ≡ (if marked seen w.largest d then 1 else 0)

pub contains-maximum : (x : ℕ) (xs : List ℕ) → contains (x ∷ xs) (maximum (x ∷ xs)) ≡ true
contains-maximum x [] = ground arith
contains-maximum x (y ∷ ys) = ground (arith, contains-maximum y ys)

pub contains_above : (xs : List ℕ) (a : ℕ) → maximum xs < a → contains xs a ≡ false
contains_above xs a h = elim (Bool-cases (contains xs a)) [
  | inl e ↦ absurd (omega (arith, contains-le-maximum xs a e))
  | inr e ↦ e
]

initial-Tracks : Tracks initial []
initial-Tracks = record {
  started = refl;
  top = refl;
  bits = λ d h. ground (arith, test_bit-zero d);
}

first_bits : (n d : ℕ) → test_bit 1 d ≡ (if marked (n ∷ []) n d then 1 else 0)
first_bits n d = ground (arith, test_bit-pow 0 d)

abbrev pub Marks : ℕ → List ℕ → ℕ → Type 0
Marks mask seen largest =
    (d : ℕ) → d < 64 → test_bit mask d ≡ (if marked seen largest d then 1 else 0)

module _ (mask largest : ℕ) (seen : List ℕ) (bits : Marks mask seen largest) (n : ℕ) where
  -- `mask & bit` tells whether the number was given.
  pub seen_bit :
      n ≤ largest → largest - n < 64 → not (bit_and mask (2 ^ (largest - n)) == 0) ≡ contains seen n
  seen_bit h near =
      ground (arith, bit_and-pow mask (largest - n), one-le-pow (largest - n) 2, bits (largest - n))

  module _ (d : ℕ) (hd : d < 64) where
    shifted_bits :
        largest ≡ maximum seen
        → largest < n
        → test_bit (shifted mask (n - largest)) d ≡ (if marked (n ∷ seen) n d then 1 else 0)
    shifted_bits top h =
        let delta = n - largest in
        ground (
          arith,
          test_bit-bit_or (u64 (mask * 2 ^ delta)) 1 d,
          test_bit-mod (mask * 2 ^ delta) 64 d hd,
          test_bit-shl mask delta d,
          test_bit-pow 0 d,
          bits (d - delta),
          contains_above seen (n - d),
        )

    older_bits :
        n ≤ largest
        → test_bit (bit_or mask (2 ^ (largest - n))) d
          ≡ (if marked (n ∷ seen) largest d then 1 else 0)
    older_bits h =
        ground
          (arith, test_bit-bit_or mask (2 ^ (largest - n)) d, test_bit-pow (largest - n) d, bits d)

    -- A number that the window refuses changes no bit that it holds.
    refused_bits :
        n ≤ largest
        → (64 ≤ largest - n) ⊎ (contains seen n ≡ true)
        → test_bit mask d ≡ (if marked (n ∷ seen) largest d then 1 else 0)
    refused_bits h refused = ground (arith, bits d)

module _ (w : AckWindow) (x : ℕ) (xs : List ℕ) (n : ℕ) (t : Tracks w (x ∷ xs)) where
  observe_bits : Marks (observe w n).1.mask (n ∷ x ∷ xs) (observe w n).1.largest
  unfolding observe
  observe_bits d hd = ground (
    arith,
    t.started,
    seen_bit w.mask w.largest (x ∷ xs) t.bits n,
    shifted_bits w.mask w.largest (x ∷ xs) t.bits n d hd t.top,
    older_bits w.mask w.largest (x ∷ xs) t.bits n d hd,
    refused_bits w.mask w.largest (x ∷ xs) t.bits n d hd,
  )

observe-Tracks :
    (w : AckWindow) (seen : List ℕ) (n : ℕ) → Tracks w seen → Tracks (observe w n).1 (n ∷ seen)
unfolding observe
observe-Tracks w [] n t = record {
  started = ground arith;
  top = ground arith;
  bits = λ d hd. ground (arith, first_bits n d);
}
observe-Tracks w (x ∷ xs) n t = record {
  started = ground arith;
  top = ground (arith, t.top);
  bits = observe_bits w x xs n t;
}

-- After any history the window is initialized exactly if the history is not empty, its largest
-- number is the maximum of the history, and bit d of its mask, below 64, is set exactly if the
-- number d below the largest is in the history.
pub after-Tracks : (seen : List ℕ) → Tracks (after seen) seen
unfolding after
after-Tracks [] = initial-Tracks
after-Tracks (n ∷ ns) = observe-Tracks (after ns) ns n (after-Tracks ns)
