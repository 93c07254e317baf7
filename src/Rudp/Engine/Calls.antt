-- ===== src/Rudp/Engine/Calls.antt =====
-- The calls that an owner of the engine makes, as steps of the engine.
use dynaxis.Base.{ℕ, String, List, [], ◌∷◌}
use dynaxis.Rudp.Engine.State.{Engine, ProcessResult, no_result, reset, make_hello, make_close}
use dynaxis.Rudp.Engine.Process.{process_datagram}
use dynaxis.Rudp.Engine.Output.{poll, queue_reliable_payload, queue_unreliable_payload}

pub data Call : Type 0 where
  receives : List ℕ → ℕ → Call
  polls : ℕ → Call
  sends_reliable : List ℕ → ℕ → ℕ → Call
  sends_unreliable : List ℕ → ℕ → ℕ → Call
  greets : ℕ → ℕ → Call
  closes : ℕ → Call
  resets : Call

module _ (moved_from : String → String) where
  unfoldable pub step : Engine → Call → Engine × ProcessResult
  step e (receives datagram now) = process_datagram moved_from e datagram now
  step e (polls now) = poll moved_from e now
  step e (sends_reliable frame channel now) =
      ((queue_reliable_payload e frame channel now).0, no_result)
  step e (sends_unreliable frame channel now) =
      ((queue_unreliable_payload e frame channel now).0, no_result)
  step e (greets connection_id now) = ((make_hello e connection_id now).0, no_result)
  step e (closes now) = ((make_close e now).0, no_result)
  step e resets = (reset e, no_result)

  unfoldable pub run : Engine → List Call → Engine
  unfolding step
  run e [] = e
  run e (c ∷ cs) = run (step e c).0 cs
