-- ===== src/Realtime/DirectDelivery.antt =====
-- core/include/server/core/realtime/direct_delivery.hpp: the path of a message to a client.
use dynaxis.Base.{◌≡◌, Bool, true, false, not, ◌&&◌, ◌||◌, arith, if◌then◌else◌}

pub data DirectDeliveryRoute : Type 0 where
  tcp_fallback udp rudp : DirectDeliveryRoute

pub data DirectDeliveryReason : Type 0 where
  message_not_eligible not_udp_bound udp_direct rudp_direct : DirectDeliveryReason
  rudp_fallback_latched rudp_handshake_pending_udp : DirectDeliveryReason

pub record DirectDeliveryContext : Type 0 where
  pub direct_path_enabled_for_message : Bool
  pub udp_bound : Bool
  pub rudp_selected : Bool
  pub rudp_fallback_to_tcp : Bool
  pub rudp_established : Bool

pub record DirectDeliveryDecision : Type 0 where
  pub route : DirectDeliveryRoute
  pub reason : DirectDeliveryReason

unfoldable pub evaluate_direct_delivery : DirectDeliveryContext → DirectDeliveryDecision
evaluate_direct_delivery context =
    if not context.direct_path_enabled_for_message || not context.udp_bound
    then record {
      route = DirectDeliveryRoute.tcp_fallback;
      reason =
          if context.direct_path_enabled_for_message
          then DirectDeliveryReason.not_udp_bound
          else DirectDeliveryReason.message_not_eligible;
    }
    else if not context.rudp_selected
    then record { route = DirectDeliveryRoute.udp; reason = DirectDeliveryReason.udp_direct }
    else if context.rudp_fallback_to_tcp
    then record {
      route = DirectDeliveryRoute.tcp_fallback;
      reason = DirectDeliveryReason.rudp_fallback_latched;
    }
    else if context.rudp_established
    then record { route = DirectDeliveryRoute.rudp; reason = DirectDeliveryReason.rudp_direct }
    else record {
      route = DirectDeliveryRoute.udp;
      reason = DirectDeliveryReason.rudp_handshake_pending_udp;
    }

unfoldable pub select_direct_delivery_route : DirectDeliveryContext → DirectDeliveryRoute
select_direct_delivery_route context = (evaluate_direct_delivery context).route

-- The route that a reason stands for.
abbrev pub route_of : DirectDeliveryReason → DirectDeliveryRoute
route_of DirectDeliveryReason.message_not_eligible = DirectDeliveryRoute.tcp_fallback
route_of DirectDeliveryReason.not_udp_bound = DirectDeliveryRoute.tcp_fallback
route_of DirectDeliveryReason.udp_direct = DirectDeliveryRoute.udp
route_of DirectDeliveryReason.rudp_direct = DirectDeliveryRoute.rudp
route_of DirectDeliveryReason.rudp_fallback_latched = DirectDeliveryRoute.tcp_fallback
route_of DirectDeliveryReason.rudp_handshake_pending_udp = DirectDeliveryRoute.udp

abbrev pub is_tcp : DirectDeliveryRoute → Bool
is_tcp DirectDeliveryRoute.tcp_fallback = true
is_tcp _ = false

abbrev pub is_rudp : DirectDeliveryRoute → Bool
is_rudp DirectDeliveryRoute.rudp = true
is_rudp _ = false

-- A message takes RUDP exactly if its kind may go directly, the client is bound, RUDP is selected
-- and established, and no fallback is latched; it takes TCP exactly if its kind may not go
-- directly, the client is not bound, or RUDP is selected and its fallback is latched; and the
-- reason given always stands for the route taken.
pub select_direct_delivery_route_lem :
    (context : DirectDeliveryContext)
    → (is_rudp (select_direct_delivery_route context) ≡ (
        context.direct_path_enabled_for_message
        && (context.udp_bound
            && (context.rudp_selected
                && (context.rudp_established && not context.rudp_fallback_to_tcp)))))
      × (is_tcp (select_direct_delivery_route context) ≡ (
          not (context.direct_path_enabled_for_message && context.udp_bound)
          || (context.rudp_selected && context.rudp_fallback_to_tcp)))
      × (route_of (evaluate_direct_delivery context).reason ≡ select_direct_delivery_route context)
unfolding select_direct_delivery_route evaluate_direct_delivery
select_direct_delivery_route_lem context = (ground arith, ground arith, ground arith)
