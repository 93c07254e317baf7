-- ===== src/Realtime/Runtime/Rewind/Histories.antt =====
-- What the history of an actor keeps as samples are added and old ones dropped.
use dynaxis.Base.{
  ℕ, suc, ◌+◌, ◌≤◌, ◌<◌, ◌≡◌, refl, ap, ◌∙◌, true, none, some, List, [], ◌∷◌, ◌++◌, arith, ltb,
  length, length-append, All, All-append, two_ways,
}
use dynaxis.Realtime.Runtime.State.{ActorTransformSample}
use dynaxis.Realtime.Runtime.Ticks.{trim, rewind_history}

abbrev pub Later : ℕ → ActorTransformSample → Type 0
Later t x = t < x.server_tick

-- A history holds a sample, with at most `n` samples after it, all of later ticks.
pub record Keeps (n : ℕ) (s : ActorTransformSample) (history : List ActorTransformSample)
    : Type 0 where
  pub older : List ActorTransformSample
  pub newer : List ActorTransformSample
  pub parts : history ≡ older ++ s ∷ newer
  pub short : length newer ≤ n
  pub later : All (Later s.server_tick) newer

trim_short : (n : ℕ) (xs : List ActorTransformSample) → length xs ≤ n → trim n xs ≡ xs
unfolding trim
trim_short n [] h = refl
trim_short n (x ∷ xs) h = ground (arith, h)

-- The loop that drops old samples keeps the newest.
trim-append :
    (n : ℕ) (older rest : List ActorTransformSample)
    → length rest ≤ n
    → (kept : List ActorTransformSample) × (trim n (older ++ rest) ≡ kept ++ rest)
unfolding trim
trim-append n [] rest h = ([], trim_short n rest h)
trim-append n (x ∷ xs) rest h =
    two_ways
      (λ (l : List ActorTransformSample). (kept : List ActorTransformSample) × (l ≡ kept ++ rest))
      (ltb n (length (x ∷ xs ++ rest))) (trim n (xs ++ rest)) (x ∷ xs ++ rest)
      (λ over. trim-append n xs rest h) (λ fits. (x ∷ xs, refl))

append_assoc : (xs ys zs : List ActorTransformSample) → (xs ++ ys) ++ zs ≡ xs ++ (ys ++ zs)
append_assoc [] ys zs = refl
append_assoc (x ∷ xs) ys zs = ap (λ l. x ∷ l) (append_assoc xs ys zs)

-- One more sample.
pub Keeps-trim :
    (limit n : ℕ) (s x : ActorTransformSample) (history : List ActorTransformSample)
    → suc (suc n) ≤ limit
    → s.server_tick < x.server_tick
    → Keeps n s history
    → Keeps (suc n) s (trim limit (history ++ (x ∷ [])))
Keeps-trim limit n s x history room next k =
    let longer = k.newer ++ (x ∷ []) in
    let size : length longer ≡ length k.newer + 1 = length-append k.newer (x ∷ []) in
    let (kept, e) = trim-append limit k.older (s ∷ longer) (omega (arith, room, size, k.short)) in
    record {
      older = kept;
      newer = longer;
      parts =
          ap (λ h. trim limit (h ++ (x ∷ []))) k.parts
          ∙ ap (trim limit) (append_assoc k.older (s ∷ k.newer) (x ∷ []))
          ∙ e;
      short = omega (arith, size, k.short);
      later = All-append (Later s.server_tick) k.newer (x ∷ []) k.later (next, tt);
    }

-- The newest sample.
pub Keeps-single :
    (limit : ℕ) (x : ActorTransformSample) (history : List ActorTransformSample)
    → 1 ≤ limit
    → Keeps 0 x (trim limit (history ++ (x ∷ [])))
Keeps-single limit x history room =
    let (kept, e) = trim-append limit history (x ∷ []) (omega (arith, room)) in
    record { older = kept; newer = []; parts = e; short = omega arith; later = tt }

rewind_later :
    (t : ℕ) (xs : List ActorTransformSample) → All (Later t) xs → rewind_history t xs ≡ none
unfolding rewind_history
rewind_later t [] h = refl
rewind_later t (x ∷ xs) h = ground (arith, h.0, rewind_later t xs h.1)

rewind-append :
    (s : ActorTransformSample) (older newer : List ActorTransformSample)
    → All (Later s.server_tick) newer
    → rewind_history s.server_tick (older ++ s ∷ newer)
      ≡ some (record { sample = s; exact_tick = true })
unfolding rewind_history
rewind-append s [] newer h = ground (arith, rewind_later s.server_tick newer h)
rewind-append s (x ∷ xs) newer h = ground (arith, rewind-append s xs newer h)

pub rewind-Keeps :
    (n : ℕ) (s : ActorTransformSample) (history : List ActorTransformSample)
    → Keeps n s history
    → rewind_history s.server_tick history ≡ some (record { sample = s; exact_tick = true })
rewind-Keeps n s history k =
    ap (rewind_history s.server_tick) k.parts ∙ rewind-append s k.older k.newer k.later
