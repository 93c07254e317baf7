-- ===== src/Realtime/TransportPolicy/Rollout.antt =====
-- Which sessions are attached over RUDP, and that a wider rollout keeps them.
use dynaxis.Base.{ℕ, ◌%◌, ◌≤◌, ◌≡◌, Bool, true, false, not, ◌&&◌, List, arith, ltb, is_empty}
use dynaxis.Realtime.TransportPolicy.{
  DirectTransportRolloutPolicy, DirectAttachMode, session_selected, evaluate_direct_attach, fnv1a64,
}

abbrev pub is_canary : DirectAttachMode → Bool
is_canary DirectAttachMode.udp_only = false
is_canary DirectAttachMode.rudp_canary = true

-- A session is attached over RUDP exactly if the rollout is enabled, some message may take the path
-- and the session's hash, modulo 100, is below the percentage, which selects everyone from 100 on.
pub evaluate_direct_attach_lem :
    (policy : DirectTransportRolloutPolicy) (session_id : List ℕ) (nonce : ℕ)
    → is_canary (evaluate_direct_attach policy session_id nonce).mode ≡ (
        policy.enabled
        && (not (is_empty policy.opcode_allowlist)
            && ltb (fnv1a64 session_id nonce % 100) policy.canary_percent))
unfolding evaluate_direct_attach session_selected
evaluate_direct_attach_lem policy session_id nonce = ground arith

-- A rollout with the same messages and a percentage that is not lower keeps every session
-- that was attached over RUDP.
pub evaluate_direct_attach_wider :
    (policy : DirectTransportRolloutPolicy) (percent : ℕ) (session_id : List ℕ) (nonce : ℕ)
    → policy.canary_percent ≤ percent
    → is_canary (evaluate_direct_attach policy session_id nonce).mode ≡ true
    → is_canary
        (evaluate_direct_attach (record policy { canary_percent = percent }) session_id nonce).mode
      ≡ true
evaluate_direct_attach_wider policy percent session_id nonce wider attached = ground (
  arith,
  wider,
  attached,
  evaluate_direct_attach_lem policy session_id nonce,
  evaluate_direct_attach_lem (record policy { canary_percent = percent }) session_id nonce,
)
