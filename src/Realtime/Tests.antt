-- ===== src/Realtime/Tests.antt =====
-- The theorems about the direct paths at concrete inputs.
use dynaxis.Base.{true, false, [], ◌∷◌, arith}
use dynaxis.Realtime.DirectDelivery.{DirectDeliveryContext}
use dynaxis.Realtime.FixedStep.{FixedStepDriver}
use dynaxis.Realtime.TransportQuality.{on_packet}
use dynaxis.Realtime.TransportQuality.Accounts.{after, Reports, on_packet-Reports}

abbrev established : DirectDeliveryContext
established = record {
  direct_path_enabled_for_message = true;
  udp_bound = true;
  rudp_selected = true;
  rudp_fallback_to_tcp = false;
  rudp_established = true;
}

on_packet-Reports_example :
    Reports ((7, 120) ∷ (5, 100) ∷ []) 10 (on_packet (after ((7, 120) ∷ (5, 100) ∷ [])) 10 150).0
on_packet-Reports_example = on_packet-Reports ((7, 120) ∷ (5, 100) ∷ []) 10 150 (omega arith)

-- 100 ticks a second, of which at most 4 are caught up.
abbrev driver : FixedStepDriver
driver = record { step_duration = 10000000; accumulator = 4000000; max_catch_up_steps = 4 }
