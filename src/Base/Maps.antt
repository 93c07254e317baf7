-- ===== src/Base/Maps.antt =====
-- A map with text keys, as a list of pairs: the first pair of a key counts.
use Prim.Native.String.{String}
use mathlib.Core.Path.{◌≡◌, refl, ap, ◌∙◌}
use mathlib.Core.Logic.{◌≢◌}
use mathlib.Core.Bool.{Bool, true, false}
use mathlib.Core.Option.{Option, none, some}
use mathlib.Core.List.{List, [], ◌∷◌, ◌++◌, map}
use native.Mathlib.Omega.{arith}
use text.Mathlib.Text.{◌==◌ as str_eq}
use text.Mathlib.TextEquality.{eq_iff}
use dynaxis.Base.Tables.{option_map}
use dynaxis.Base.Tests.{if◌then◌else◌, two_ways}

module _ {ℓ} {A : Type ℓ} where
  abbrev pub find : List (String × A) → String → Option A
  find [] key = none
  find (e ∷ es) key = let rest = find es key in if str_eq e.0 key then some e.1 else rest

  -- `insert_or_assign`
  abbrev pub put : List (String × A) → String → A → List (String × A)
  put [] key v = (key, v) ∷ []
  put (e ∷ es) key v = let rest = put es key v in if str_eq e.0 key then (key, v) ∷ es else e ∷ rest

  -- The values of a map, in the map's order.
  abbrev pub values : List (String × A) → List A
  values [] = []
  values (e ∷ es) = e.1 ∷ values es

  pub find-put_same :
      (m : List (String × A)) (key : String) (v : A) → find (put m key v) key ≡ some v
  find-put_same [] key v = ground (arith, eq_iff key key)
  find-put_same (e ∷ es) key v = ground (arith, eq_iff key key, find-put_same es key v)

  pub find-put_other :
      (m : List (String × A)) (key other : String) (v : A)
      → key ≢ other
      → find (put m key v) other ≡ find m other
  find-put_other [] key other v h = ground (arith, eq_iff key other)
  find-put_other (e ∷ es) key other v h =
      ground
        (arith, eq_iff key other, eq_iff e.0 key, eq_iff e.0 other, find-put_other es key other v h)

  pub find-put :
      (m : List (String × A)) (key other : String) (v : A)
      → find (put m key v) other ≡ (if str_eq key other then some v else find m other)
  find-put [] key other v = refl
  find-put (e ∷ es) key other v =
      ground (arith, eq_iff e.0 key, eq_iff e.0 other, eq_iff key other, find-put es key other v)

  -- `emplace`: a key that is there keeps its value.
  abbrev pub emplace : List (String × A) → String → A → List (String × A)
  emplace [] key v = (key, v) ∷ []
  emplace (e ∷ es) key v =
      let rest = emplace es key v in if str_eq e.0 key then e ∷ es else e ∷ rest

  abbrev pub erase : List (String × A) → String → List (String × A)
  erase [] key = []
  erase (e ∷ es) key = let rest = erase es key in if str_eq e.0 key then rest else e ∷ rest

  -- The first of two answers that is one.
  abbrev pub or_else : Option A → Option A → Option A
  or_else none y = y
  or_else (some a) y = some a

  or_else_assoc :
      (b : Bool) (o rest : Option A) (v : A)
      → or_else (or_else o (if b then some v else none)) rest
        ≡ or_else o (if b then some v else rest)
  or_else_assoc true none rest v = refl
  or_else_assoc false none rest v = refl
  or_else_assoc b (some a) rest v = refl

  abbrev pub value_or : Option A → A → A
  value_or none d = d
  value_or (some a) d = a

  pub find-emplace :
      (m : List (String × A)) (key other : String) (v : A)
      → find (emplace m key v) other
        ≡ or_else (find m other) (if str_eq key other then some v else none)
  find-emplace [] key other v = refl
  find-emplace (e ∷ es) key other v =
      ground
        (arith, eq_iff e.0 key, eq_iff e.0 other, eq_iff key other, find-emplace es key other v)

  pub find-erase :
      (m : List (String × A)) (key other : String)
      → find (erase m key) other ≡ (if str_eq key other then none else find m other)
  find-erase [] key other = ground arith
  find-erase (e ∷ es) key other =
      ground (arith, eq_iff e.0 key, eq_iff e.0 other, eq_iff key other, find-erase es key other)

-- A list indexed by a key of its elements, as a loop of `emplace` does.
module _ {ℓ} {A : Type ℓ} (key_of : A → String) where
  abbrev pub index_from : List (String × A) → List A → List (String × A)
  index_from m [] = m
  index_from m (x ∷ xs) = index_from (emplace m (key_of x) x) xs

  -- The first element of a key.
  abbrev pub first_of : List A → String → Option A
  first_of [] key = none
  first_of (x ∷ xs) key =
      let rest = first_of xs key in if str_eq (key_of x) key then some x else rest

  pub find-index_from :
      (m : List (String × A)) (xs : List A) (key : String)
      → find (index_from m xs) key ≡ or_else (find m key) (first_of xs key)
  find-index_from m [] key = ground arith
  find-index_from m (x ∷ xs) key =
      find-index_from (emplace m (key_of x) x) xs key
      ∙ ap (λ o. or_else o (first_of xs key)) (find-emplace m (key_of x) key x)
      ∙ or_else_assoc (str_eq (key_of x) key) (find m key) (first_of xs key) x

  pub first_of-append :
      (xs ys : List A) (key : String)
      → first_of (xs ++ ys) key ≡ or_else (first_of xs key) (first_of ys key)
  first_of-append [] ys key = refl
  first_of-append (x ∷ xs) ys key = ground (arith, first_of-append xs ys key)

  -- Each value of a map stands under its own key.
  abbrev pub IsKeyed : List (String × A) → Type 0
  IsKeyed [] = Unit
  IsKeyed (e ∷ es) = (key_of e.1 ≡ e.0) × IsKeyed es

  pub emplace-IsKeyed :
      (m : List (String × A)) (v : A) → IsKeyed m → IsKeyed (emplace m (key_of v) v)
  emplace-IsKeyed [] v h = (refl, tt)
  emplace-IsKeyed (e ∷ es) v h =
      two_ways IsKeyed (str_eq e.0 (key_of v)) (e ∷ es) (e ∷ emplace es (key_of v) v) (λ _. h)
        (λ _. (h.0, emplace-IsKeyed es v h.1))

  pub put-IsKeyed :
      (m : List (String × A)) (key : String) (v : A)
      → key_of v ≡ key
      → IsKeyed m
      → IsKeyed (put m key v)
  put-IsKeyed [] key v same h = (same, tt)
  put-IsKeyed (e ∷ es) key v same h =
      two_ways IsKeyed (str_eq e.0 key) ((key, v) ∷ es) (e ∷ put es key v) (λ _. (same, h.1))
        (λ _. (h.0, put-IsKeyed es key v same h.1))

  pub erase-IsKeyed : (m : List (String × A)) (key : String) → IsKeyed m → IsKeyed (erase m key)
  erase-IsKeyed [] key h = tt
  erase-IsKeyed (e ∷ es) key h =
      two_ways IsKeyed (str_eq e.0 key) (erase es key) (e ∷ erase es key)
        (λ _. erase-IsKeyed es key h.1) (λ _. (h.0, erase-IsKeyed es key h.1))

  pub value_or-IsKeyed :
      (m : List (String × A)) (key : String) (d : A)
      → key_of d ≡ key
      → IsKeyed m
      → key_of (value_or (find m key) d) ≡ key
  value_or-IsKeyed [] key d same h = same
  value_or-IsKeyed (e ∷ es) key d same h =
      ground (arith, h.0, eq_iff e.0 key, value_or-IsKeyed es key d same h.1)

  pub index_from-IsKeyed :
      (m : List (String × A)) (xs : List A) → IsKeyed m → IsKeyed (index_from m xs)
  index_from-IsKeyed m [] h = h
  index_from-IsKeyed m (x ∷ xs) h =
      index_from-IsKeyed (emplace m (key_of x) x) xs (emplace-IsKeyed m x h)

  pub first_of-values :
      (m : List (String × A)) (key : String) → IsKeyed m → first_of (values m) key ≡ find m key
  first_of-values [] key h = refl
  first_of-values (e ∷ es) key h =
      ap (λ k. if str_eq k key then some e.1 else first_of (values es) key) h.0
      ∙ ap (λ o. if str_eq e.0 key then some e.1 else o) (first_of-values es key h.1)

-- A loop over a list that looks each element's key up gives for a key what the key's value gives.
pub first_of-map {ℓ κ μ} :
    {A : Type ℓ} {B : Type κ} {V : Type μ} (key_of : A → String) (other_key : B → String)
    (f : V → A → B) (value_at : String → V)
    → ((v : V) (a : A) → other_key (f v a) ≡ key_of a)
    → (xs : List A) (key : String)
    → first_of other_key (map (λ a. f (value_at (key_of a)) a) xs) key
      ≡ option_map (f (value_at key)) (first_of key_of xs key)
first_of-map key_of other_key f value_at same [] key = refl
first_of-map key_of other_key f value_at same (x ∷ xs) key = ground (
  arith,
  same (value_at (key_of x)) x,
  eq_iff (key_of x) key,
  first_of-map key_of other_key f value_at same xs key,
)
