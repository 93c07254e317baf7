-- ===== src/Net/RetryBudget/Rate.antt =====
-- How many retries a budget grants over several windows.
use native.Mathlib.Nat.{mul-suc}
use dynaxis.Base.{
  ℕ, zero, suc, ◌+◌, ◌*◌, ◌^◌, ◌≤◌, ◌<◌, ◌≡◌, refl, max, Bool, List, [], ◌∷◌, arith, Bool-cases,
  leb, leb→le, inl, inr, ◌⊎◌, if◌then◌else◌, ap,
}
use dynaxis.Net.RetryBudget.{RetryBudget, configure, consume}

-- The calls of `consume` at the given times that are granted.
unfoldable pub granted : RetryBudget → List ℕ → ℕ
granted b [] = 0
granted b (t ∷ ts) =
    let (ok, next) = consume b t in let rest = granted next ts in if ok then suc rest else rest

-- Times that do not go back, from one time to another.
abbrev pub Timed : ℕ → ℕ → List ℕ → Type 0
Timed from until [] = from ≤ until
Timed from until (t ∷ ts) = (from ≤ t) × Timed t until ts

pub Timed-le : (from until : ℕ) (ts : List ℕ) → Timed from until ts → from ≤ until
Timed-le from until [] h = h
Timed-le from until (t ∷ ts) h = omega (arith, h.0, Timed-le t until ts h.1)

-- A window that is under way.
pub record IsOpen (b : RetryBudget) (now : ℕ) : Type 0 where
  pub budget : b.budget_per_window < 2 ^ 32
  pub window : 0 < b.window_ms
  pub started : 0 < b.window_start_ms
  pub past : b.window_start_ms ≤ now
  pub used : b.used_in_window ≤ b.budget_per_window

-- What a call leaves: the same window with the grant counted, or a new one that begins with it.
record Consumes (b : RetryBudget) (t : ℕ) : Type 0 where
  budget : (consume b t).1.budget_per_window ≡ b.budget_per_window
  window : (consume b t).1.window_ms ≡ b.window_ms
  counts :
      (((consume b t).1.window_start_ms ≡ b.window_start_ms)
        × ((consume b t).1.used_in_window ≡ b.used_in_window + (if (consume b t).0 then 1 else 0)))
      ⊎ ((b.window_start_ms + b.window_ms ≤ t)
          × ((consume b t).1.window_start_ms ≡ t)
          × ((consume b t).1.used_in_window ≡ (if (consume b t).0 then 1 else 0)))

consume-Consumes : (b : RetryBudget) (from t : ℕ) → IsOpen b from → from ≤ t → Consumes b t
unfolding consume
consume-Consumes b from t h le = record {
  budget = ground arith;
  window = ground arith;
  counts = elim (Bool-cases (leb (b.window_start_ms + b.window_ms) t)) [
    | inl e ↦ inr (
      leb→le _ _ e,
      ground (arith, h.started, h.past, leb→le _ _ e),
      ground (arith, h.started, h.past, h.budget),
    )
    | inr e ↦
        inl (ground (arith, h.started, h.past), ground (arith, h.started, h.past, h.budget, h.used))
  ];
}

consume-IsOpen :
    (b : RetryBudget) (from t : ℕ) → IsOpen b from → from ≤ t → IsOpen (consume b t).1 t
unfolding consume
consume-IsOpen b from t h le = record {
  budget = ground (arith, h.budget);
  window = ground (arith, h.window);
  started = ground (arith, h.started, h.past);
  past = ground (arith, h.past);
  used = ground (arith, h.used, h.budget);
}

several :
    (n start window t until : ℕ)
    → until < start + window * suc n
    → start + window ≤ t
    → t ≤ until
    → (m : ℕ) × (n ≡ suc m)
several zero start window t until fits late past = absurd (omega (arith, mul-suc window 0))
several (suc m) start window t until fits late past = (m, refl)

granted_from :
    (n : ℕ) (b : RetryBudget) (from until : ℕ) (ts : List ℕ)
    → IsOpen b from
    → Timed from until ts
    → until < b.window_start_ms + b.window_ms * suc n
    → b.used_in_window + granted b ts ≤ b.budget_per_window * suc n
unfolding granted
granted_from n b from until [] h timed fits = omega (arith, h.used, mul-suc b.budget_per_window n)
granted_from n b from until (t ∷ ts) h timed fits =
    let c = consume-Consumes b from t h timed.0 in
    let next = consume-IsOpen b from t h timed.0 in
    let after = (consume b t).1 in
    elim c.counts [
      | inl (start, used) ↦ ground (
        arith,
        start,
        used,
        ap (λ (x : ℕ). x * suc n) c.budget,
        ap (λ (x : ℕ). x * suc n) c.window,
        granted_from n after t until ts next timed.1,
      )
      | inr (late, start, used) ↦
          let (m, e) =
            several n b.window_start_ms b.window_ms t until fits late (Timed-le _ _ _ timed.1) in
          ground (
            arith,
            start,
            used,
            ap (λ (x : ℕ). x * suc m) c.budget,
            ap (λ (x : ℕ). x * suc m) c.window,
            mul-suc b.budget_per_window n,
            mul-suc b.window_ms n,
            ap (λ (x : ℕ). b.budget_per_window * x) e,
            ap (λ (x : ℕ). b.window_ms * x) e,
            h.used,
            granted_from m after t until ts next timed.1,
          )
    ]

first-IsOpen :
    (b : RetryBudget) (budget window t : ℕ)
    → budget < 2 ^ 32
    → 0 < t
    → IsOpen (record (configure b budget window) { window_start_ms = t }) t
unfolding configure
first-IsOpen b budget window t narrow positive = record {
  budget = narrow;
  window = omega arith;
  started = positive;
  past = omega arith;
  used = omega arith;
}

first_call :
    (b : RetryBudget) (budget window t : ℕ)
    → 0 < t
    → consume (configure b budget window) t
      ≡ consume (record (configure b budget window) { window_start_ms = t }) t
unfolding configure consume
first_call b budget window t positive = ground arith

-- From the moment that a budget below 2 ^ 32 is configured, calls of `consume` at times that do not
-- go back, the first after the time 0 and the last less than `n + 1` windows after the first, are
-- granted at most `n + 1` times the budget of a window.
pub granted-le :
    (n : ℕ) (b : RetryBudget) (budget window t until : ℕ) (ts : List ℕ)
    → budget < 2 ^ 32
    → 0 < t
    → Timed t until ts
    → until < t + max 1 window * suc n
    → granted (configure b budget window) (t ∷ ts) ≤ budget * suc n
unfolding granted configure
granted-le n b budget window t until ts narrow positive timed fits =
    let opened = record (configure b budget window) { window_start_ms = t } in
    let first =
      granted_from n opened t until (t ∷ ts) (first-IsOpen b budget window t narrow positive)
        (omega arith, timed) fits in
    let same =
      ap (λ (r : Bool × RetryBudget). if r.0 then suc (granted r.1 ts) else granted r.1 ts)
        (first_call b budget window t positive) in
    omega (arith, first, same)
