-- ===== src/Base/Tables.antt =====
-- A map with number keys, as a list of pairs: the first pair of a key counts. Its laws are in
-- `if` form, for every key.
use Prim.Native.Nat.{ℕ}
use mathlib.Core.Path.{◌≡◌, refl}
use mathlib.Core.Bool.{false}
use mathlib.Core.Option.{Option, none, some}
use mathlib.Core.List.{List, [], ◌∷◌}
use native.Mathlib.Omega.{arith}
use mathlib.Core.Path.{subst}
use mathlib.Core.Logic.{◌⊎◌, inl, inr}
use dynaxis.Base.Tests.{◌==◌, if◌then◌else◌, ==_iff, Bool-cases, two_ways}

abbrev pub Table {ℓ} : Type ℓ → Type ℓ
Table A = List (ℕ × A)

abbrev pub option_map {ℓ κ} : {A : Type ℓ} {B : Type κ} → (A → B) → Option A → Option B
option_map f none = none
option_map f (some a) = some (f a)

module _ {ℓ} {A : Type ℓ} where
  unfoldable pub find_id : Table A → ℕ → Option A
  find_id [] key = none
  find_id (e ∷ es) key = let rest = find_id es key in if e.0 == key then some e.1 else rest

  -- `insert_or_assign`
  unfoldable pub put_id : Table A → ℕ → A → Table A
  put_id [] key v = (key, v) ∷ []
  put_id (e ∷ es) key v =
      let rest = put_id es key v in if e.0 == key then (key, v) ∷ es else e ∷ rest

  unfoldable pub erase_id : Table A → ℕ → Table A
  erase_id [] key = []
  erase_id (e ∷ es) key = let rest = erase_id es key in if e.0 == key then rest else e ∷ rest

  -- Every value, with the key as it is.
  unfoldable pub map_values : (A → A) → Table A → Table A
  map_values f [] = []
  map_values f (e ∷ es) = (e.0, f e.1) ∷ map_values f es

  pub find_id-put_id :
      (m : Table A) (key other : ℕ) (v : A)
      → find_id (put_id m key v) other ≡ (if key == other then some v else find_id m other)
  unfolding find_id put_id
  find_id-put_id [] key other v = ground arith
  find_id-put_id (e ∷ es) key other v = ground (arith, find_id-put_id es key other v)

  pub find_id-erase_id :
      (m : Table A) (key other : ℕ)
      → find_id (erase_id m key) other ≡ (if key == other then none else find_id m other)
  unfolding find_id erase_id
  find_id-erase_id [] key other = ground arith
  find_id-erase_id (e ∷ es) key other = ground (arith, find_id-erase_id es key other)

  pub find_id-map_values :
      (f : A → A) (m : Table A) (key : ℕ)
      → find_id (map_values f m) key ≡ option_map f (find_id m key)
  unfolding find_id map_values
  find_id-map_values f [] key = refl
  find_id-map_values f (e ∷ es) key = ground (arith, find_id-map_values f es key)

  -- No key stands twice.
  unfoldable pub IsUnique : Table A → Type ℓ
  IsUnique [] = Unit
  IsUnique (e ∷ es) = (find_id es e.0 ≡ none) × IsUnique es

module _ {ℓ} {A : Type ℓ} (m : Table A) (key : ℕ) where
  pub find_id-put_at : (v : A) → find_id (put_id m key v) key ≡ some v
  find_id-put_at v = ground (arith, find_id-put_id m key key v)

  pub find_id-put_past :
      (k : ℕ) (v : A) → (key == k) ≡ false → find_id (put_id m key v) k ≡ find_id m k
  find_id-put_past k v h = ground (arith, find_id-put_id m key k v, h)

  -- What is found after a write was written there, or stood at another key.
  pub find_id-put_some :
      (k : ℕ) (v x : A)
      → find_id (put_id m key v) k ≡ some x
      → ((key ≡ k) × (v ≡ x)) ⊎ (((key == k) ≡ false) × (find_id m k ≡ some x))
  find_id-put_some k v x h = elim (Bool-cases (key == k)) [
    | inl same ↦ inl ((==_iff key k).0 same, ground (arith, find_id-put_id m key k v, same, h))
    | inr differs ↦ inr (differs, ground (arith, find_id-put_id m key k v, differs, h))
  ]

  pub find_id-put_none : (k : ℕ) (v : A) → find_id (put_id m key v) k ≡ none → find_id m k ≡ none
  find_id-put_none k v h = ground (arith, find_id-put_id m key k v, h)

  pub find_id-erase_at : find_id (erase_id m key) key ≡ none
  find_id-erase_at = ground (arith, find_id-erase_id m key key)

  pub find_id-erase_past : (k : ℕ) → (key == k) ≡ false → find_id (erase_id m key) k ≡ find_id m k
  find_id-erase_past k h = ground (arith, find_id-erase_id m key k, h)

  pub find_id-erase_some :
      (k : ℕ) (x : A)
      → find_id (erase_id m key) k ≡ some x
      → ((key == k) ≡ false) × (find_id m k ≡ some x)
  find_id-erase_some k x h =
      (ground (arith, find_id-erase_id m key k, h), ground (arith, find_id-erase_id m key k, h))

module _ {ℓ} {A : Type ℓ} where
  pub put_id-IsUnique : (m : Table A) (key : ℕ) (v : A) → IsUnique m → IsUnique (put_id m key v)
  unfolding put_id IsUnique find_id
  put_id-IsUnique [] key v h = (refl, tt)
  put_id-IsUnique (e ∷ es) key v h =
      two_ways IsUnique (e.0 == key) ((key, v) ∷ es) (e ∷ put_id es key v)
        (λ same. (subst (λ k. find_id es k ≡ none) ((==_iff e.0 key).0 same) h.0, h.1))
        (λ differs.
          (ground (arith, find_id-put_id es key e.0 v, differs, h.0), put_id-IsUnique es key v h.1))

  pub erase_id-IsUnique : (m : Table A) (key : ℕ) → IsUnique m → IsUnique (erase_id m key)
  unfolding erase_id IsUnique
  erase_id-IsUnique [] key h = h
  erase_id-IsUnique (e ∷ es) key h =
      two_ways IsUnique (e.0 == key) (erase_id es key) (e ∷ erase_id es key)
        (λ same. erase_id-IsUnique es key h.1)
        (λ differs.
          (ground (arith, find_id-erase_id es key e.0, h.0), erase_id-IsUnique es key h.1))
