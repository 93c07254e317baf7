-- ===== src/Gateway/BindGuard.antt =====
-- gateway/include/gateway/udp_bind_abuse_guard.hpp: endpoints whose UDP binds fail again and again
-- are blocked for a time. The unordered map of endpoints is a list of pairs.
pub mod Blocks
pub mod Trips
use dynaxis.Base.{
  ℕ, ◌+◌, ◌-◌, String, Bool, true, false, List, [], Option, none, some, ltb, leb, ◌==◌, ◌||◌,
  if◌then◌else◌, u32, u64, find, put,
}

pub record Entry : Type 0 where
  pub window_started_ms : ℕ
  pub failures_in_window : ℕ
  pub blocked_until_ms : ℕ

abbrev pub new_entry : Entry
new_entry = record { window_started_ms = 0; failures_in_window = 0; blocked_until_ms = 0 }

pub record BlockState : Type 0 where
  pub blocked : Bool
  pub retry_after_ms : ℕ

abbrev pub not_blocked : BlockState
not_blocked = record { blocked = false; retry_after_ms = 0 }

pub record UdpBindAbuseGuard : Type 0 where
  pub fail_window_ms : ℕ
  pub fail_limit : ℕ
  pub block_ms : ℕ
  pub entries : List (String × Entry)

abbrev pub initial : UdpBindAbuseGuard
initial = record { fail_window_ms = 10000; fail_limit = 5; block_ms = 60000; entries = [] }

abbrev pub configure : UdpBindAbuseGuard → ℕ → ℕ → ℕ → UdpBindAbuseGuard
configure g fail_window_ms fail_limit block_ms = record g {
  fail_window_ms = fail_window_ms;
  fail_limit = fail_limit;
  block_ms = block_ms;
}

-- `block_state` on the entry that it finds.
unfoldable pub entry_block_state : Entry → ℕ → BlockState × Entry
entry_block_state entry now =
    if leb entry.blocked_until_ms now
    then (not_blocked, record entry { blocked_until_ms = 0 })
    else (record { blocked = true; retry_after_ms = entry.blocked_until_ms - now }, entry)

-- `block_state` behind its search.
abbrev pub block_state_found :
    UdpBindAbuseGuard → String → ℕ → Option Entry → BlockState × UdpBindAbuseGuard
block_state_found g endpoint_key now none = (not_blocked, g)
block_state_found g endpoint_key now (some entry) =
    let (answer, next) = entry_block_state entry now in
    (answer, record g { entries = put g.entries endpoint_key next })

unfoldable pub block_state : UdpBindAbuseGuard → String → ℕ → BlockState × UdpBindAbuseGuard
block_state g endpoint_key now = block_state_found g endpoint_key now (find g.entries endpoint_key)

-- `entries_[key]`, which makes a new entry where there is none.
abbrev pub found_or_new : Option Entry → Entry
found_or_new none = new_entry
found_or_new (some entry) = entry

abbrev pub entry_of : UdpBindAbuseGuard → String → Entry
entry_of g endpoint_key = found_or_new (find g.entries endpoint_key)

-- `record_failure` on the entry of its endpoint.
unfoldable pub entry_failure : UdpBindAbuseGuard → Entry → ℕ → Bool × Entry
entry_failure g entry now =
    let restarts =
      entry.window_started_ms == 0
      || (ltb now entry.window_started_ms
          || ltb g.fail_window_ms (now - entry.window_started_ms)) in
    let started =
      if restarts
      then record entry { window_started_ms = now; failures_in_window = 0 }
      else entry in
    let counted = record started { failures_in_window = u32 (started.failures_in_window + 1) } in
    if ltb now entry.blocked_until_ms
    then (false, entry)
    else if ltb counted.failures_in_window g.fail_limit
    then (false, counted)
    else (
      true,
      record {
        window_started_ms = 0;
        failures_in_window = 0;
        blocked_until_ms = u64 (now + g.block_ms);
      },
    )

unfoldable pub record_failure : UdpBindAbuseGuard → String → ℕ → Bool × UdpBindAbuseGuard
record_failure g endpoint_key now =
    let (tripped, next) = entry_failure g (entry_of g endpoint_key) now in
    (tripped, record g { entries = put g.entries endpoint_key next })

-- `record_success` behind its search.
abbrev pub record_success_found : UdpBindAbuseGuard → String → Option Entry → UdpBindAbuseGuard
record_success_found g endpoint_key none = g
record_success_found g endpoint_key (some entry) = record g {
  entries =
      put g.entries endpoint_key (record entry { window_started_ms = 0; failures_in_window = 0 });
}

unfoldable pub record_success : UdpBindAbuseGuard → String → UdpBindAbuseGuard
record_success g endpoint_key = record_success_found g endpoint_key (find g.entries endpoint_key)
