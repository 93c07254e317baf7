-- ===== src/Gateway/Tests.antt =====
-- The theorems about the gateway at concrete inputs.
use dynaxis.Base.{String, ◌≡◌, ◌≢◌, refl, true, [], ◌∷◌, arith, eq_iff}
use dynaxis.Gateway.BindGuard.{
  UdpBindAbuseGuard, initial, block_state, entry_failure, record_failure,
}
use dynaxis.Gateway.BindGuard.Blocks.{Call, run, answer, block_state-tripped}
use dynaxis.Gateway.BindGuard.Trips.{fail_at, record_failure-fail_at_limit}

abbrev neighbour : String
neighbour = "10.0.0.2:9"

abbrev attacker : String
attacker = "10.0.0.1:7"

abbrev strict : UdpBindAbuseGuard
strict = record { fail_window_ms = 1000; fail_limit = 1; block_ms = 500; entries = [] }

strict_trips : (record_failure strict attacker 40).0 ≡ true
unfolding record_failure entry_failure
strict_trips = refl

block_state-tripped_example :
    (block_state
      (run
        (record_failure strict attacker 40).1
        (Call.failure_at attacker 100 ∷ Call.success attacker ∷ []))
      attacker
      200).0
    ≡ answer 540 200
block_state-tripped_example =
    block_state-tripped strict attacker 40 200
      (Call.failure_at attacker 100 ∷ Call.success attacker ∷ []) strict_trips (omega arith)
      (omega arith)

record_failure-fail_at_limit_example :
    (record_failure (fail_at initial attacker (40 ∷ 50 ∷ 60 ∷ 70 ∷ [])) attacker 80).0 ≡ true
record_failure-fail_at_limit_example =
    record_failure-fail_at_limit initial attacker 40 80 (50 ∷ 60 ∷ 70 ∷ []) refl (omega arith)
      (omega arith) (omega arith) (omega arith) (omega arith)

differ : neighbour ≢ attacker
differ h = ground (arith, (eq_iff neighbour attacker).1 h)
