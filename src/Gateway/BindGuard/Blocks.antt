-- ===== src/Gateway/BindGuard/Blocks.antt =====
-- Who is blocked, and for how long.
use dynaxis.Base.{
  ℕ, subst, inl, inr, ◌+◌, ◌-◌, ◌^◌, ◌<◌, ◌≡◌, refl, ap, ◌∙◌, sym, String, ◌≢◌, true, List, [], ◌∷◌,
  Option, none, some, arith, All, ltb, if◌then◌else◌, u64, str_eq, eq_iff, find, find-put_same,
  find-put_other, Bool-cases,
}
use dynaxis.Gateway.BindGuard.{
  Entry, BlockState, not_blocked, UdpBindAbuseGuard, entry_block_state, block_state, entry_of,
  found_or_new, block_state_found, record_success_found, entry_failure, record_failure,
  record_success,
}

pub data Call : Type 0 where
  block_state_at failure_at : String → ℕ → Call
  success : String → Call

abbrev pub key_of : Call → String
key_of (Call.block_state_at key now) = key
key_of (Call.failure_at key now) = key
key_of (Call.success key) = key

unfoldable pub step : UdpBindAbuseGuard → Call → UdpBindAbuseGuard
step g (Call.block_state_at key now) = (block_state g key now).1
step g (Call.failure_at key now) = (record_failure g key now).1
step g (Call.success key) = record_success g key

unfoldable pub run : UdpBindAbuseGuard → List Call → UdpBindAbuseGuard
run g [] = g
run g (call ∷ calls) = run (step g call) calls

-- What one entry goes through in a call of its endpoint.
unfoldable pub entry_step : UdpBindAbuseGuard → Call → Entry → Entry
entry_step g (Call.block_state_at key now) entry = (entry_block_state entry now).1
entry_step g (Call.failure_at key now) entry = (entry_failure g entry now).1
entry_step g (Call.success key) entry = record entry {
  window_started_ms = 0;
  failures_in_window = 0;
}

-- A call of another endpoint leaves an endpoint's entry.
module _ (g : UdpBindAbuseGuard) (k key : String) (differ : k ≢ key) where
  block_state_found-other :
      (now : ℕ) (o : Option Entry)
      → find (block_state_found g k now o).1.entries key ≡ find g.entries key
  block_state_found-other now none = refl
  block_state_found-other now (some entry) = find-put_other g.entries k key _ differ

  record_success_found-other :
      (o : Option Entry) → find (record_success_found g k o).entries key ≡ find g.entries key
  record_success_found-other none = refl
  record_success_found-other (some entry) = find-put_other g.entries k key _ differ

pub step_other :
    (g : UdpBindAbuseGuard) (call : Call) (key : String)
    → key_of call ≢ key
    → find (step g call).entries key ≡ find g.entries key
unfolding step block_state record_failure record_success
step_other g (Call.block_state_at k now) key h =
    block_state_found-other g k key h now (find g.entries k)
step_other g (Call.failure_at k now) key h = find-put_other g.entries k key _ h
step_other g (Call.success k) key h = record_success_found-other g k key h (find g.entries k)

-- A call of an endpoint that has an entry steps the entry.
pub step_own :
    (g : UdpBindAbuseGuard) (call : Call) (entry : Entry)
    → find g.entries (key_of call) ≡ some entry
    → find (step g call).entries (key_of call) ≡ some (entry_step g call entry)
unfolding step block_state record_failure record_success entry_step
step_own g (Call.block_state_at k now) entry h =
    ap (λ o. find (block_state_found g k now o).1.entries k) h ∙ find-put_same g.entries k _
step_own g (Call.failure_at k now) entry h =
    find-put_same g.entries k _ ∙ ap (λ o. some (entry_failure g (found_or_new o) now).1) h
step_own g (Call.success k) entry h =
    ap (λ o. find (record_success_found g k o).entries k) h ∙ find-put_same g.entries k _

-- A call before the given time.
abbrev pub IsBefore : ℕ → Call → Type 0
IsBefore until (Call.block_state_at key now) = now < until
IsBefore until (Call.failure_at key now) = now < until
IsBefore until (Call.success key) = Unit

entry_step-until :
    (g : UdpBindAbuseGuard) (call : Call) (entry : Entry)
    → IsBefore entry.blocked_until_ms call
    → (entry_step g call entry).blocked_until_ms ≡ entry.blocked_until_ms
unfolding entry_step entry_block_state entry_failure
entry_step-until g (Call.block_state_at k now) entry h = ground arith
entry_step-until g (Call.failure_at k now) entry h = ground arith
entry_step-until g (Call.success k) entry h = refl

-- An endpoint is blocked until the given time.
BlockedUntil : UdpBindAbuseGuard → String → ℕ → Type 0
BlockedUntil g key until =
    (entry : Entry) × (find g.entries key ≡ some entry) × (entry.blocked_until_ms ≡ until)

step-BlockedUntil :
    (g : UdpBindAbuseGuard) (call : Call) (key : String) (until : ℕ)
    → IsBefore until call
    → BlockedUntil g key until
    → BlockedUntil (step g call) key until
unfolding BlockedUntil
step-BlockedUntil g call key until before (entry, found, e) =
    elim (Bool-cases (str_eq (key_of call) key)) [
      | inl same ↦
          let k = (eq_iff (key_of call) key).0 same in
          let now = subst (λ u. IsBefore u call) (sym e) before in
          (
            entry_step g call entry,
            subst (λ x. find (step g call).entries x ≡ some (entry_step g call entry)) k
                (step_own g call entry (rw k found)),
            entry_step-until g call entry now ∙ e,
          )
      | inr differs ↦
          let other : key_of call ≢ key =
            λ k. ground (arith, differs, (eq_iff (key_of call) key).1 k) in
          (entry, step_other g call key other ∙ found, e)
    ]

run-BlockedUntil :
    (g : UdpBindAbuseGuard) (calls : List Call) (key : String) (until : ℕ)
    → All (IsBefore until) calls
    → BlockedUntil g key until
    → BlockedUntil (run g calls) key until
unfolding run
run-BlockedUntil g [] key until before b = b
run-BlockedUntil g (call ∷ calls) key until before b =
    run-BlockedUntil (step g call) calls key until before.1
      (step-BlockedUntil g call key until before.0 b)

entry_failure-until :
    (g : UdpBindAbuseGuard) (entry : Entry) (t : ℕ)
    → (entry_failure g entry t).0 ≡ true
    → (entry_failure g entry t).1.blocked_until_ms ≡ u64 (t + g.block_ms)
unfolding entry_failure
entry_failure-until g entry t h = ground (arith, h)

record_failure-BlockedUntil :
    (g : UdpBindAbuseGuard) (key : String) (t : ℕ)
    → (record_failure g key t).0 ≡ true
    → BlockedUntil (record_failure g key t).1 key (u64 (t + g.block_ms))
unfolding record_failure BlockedUntil
record_failure-BlockedUntil g key t h = (
  (entry_failure g (entry_of g key) t).1,
  find-put_same g.entries key _,
  entry_failure-until g (entry_of g key) t h,
)

-- The answer for an endpoint that is blocked until a time.
abbrev pub answer : ℕ → ℕ → BlockState
answer until now =
    if ltb now until then record { blocked = true; retry_after_ms = until - now } else not_blocked

block_state-BlockedUntil :
    (g : UdpBindAbuseGuard) (key : String) (until now : ℕ)
    → BlockedUntil g key until
    → (block_state g key now).0 ≡ answer until now
unfolding BlockedUntil block_state entry_block_state
block_state-BlockedUntil g key until now (entry, found, e) =
    let here : (block_state_found g key now (some entry)).0 ≡ answer entry.blocked_until_ms now =
      ground arith in
    ap (λ o. (block_state_found g key now o).0) found ∙ here ∙ ap (λ u. answer u now) e

-- Once a failure of an endpoint at the time `t` is reported to trip the guard, the endpoint is
-- blocked exactly before `t + block_ms`, with the time that is left, whatever calls of any endpoint
-- at earlier times come in between, where that time fits 64 bits.
pub block_state-tripped :
    (g : UdpBindAbuseGuard) (key : String) (t now : ℕ) (calls : List Call)
    → (record_failure g key t).0 ≡ true
    → t + g.block_ms < 2 ^ 64
    → All (IsBefore (t + g.block_ms)) calls
    → (block_state (run (record_failure g key t).1 calls) key now).0 ≡ answer (t + g.block_ms) now
block_state-tripped g key t now calls trips fits before =
    let until : u64 (t + g.block_ms) ≡ t + g.block_ms = omega arith in
    let b = record_failure-BlockedUntil g key t trips in
    block_state-BlockedUntil _ key _ now (
      run-BlockedUntil _ calls key _ before
        (subst (BlockedUntil (record_failure g key t).1 key) until b))
