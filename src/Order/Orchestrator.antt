-- ===== src/Order/Orchestrator.antt =====
-- The handling of a message by the orchestrator's worker,
-- services/order/internal/worker/orchestrator/worker.go.
use event_driven_order_fulfi.Common.{Bool, if◌then◌else◌, Outcome, ok, err, or_fail}
use event_driven_order_fulfi.Common.Text.{txt, text_beq}
use event_driven_order_fulfi.Common.Json
use event_driven_order_fulfi.Common.Session.{Session, Action, pure, lift, ◌>>=◌}
use event_driven_order_fulfi.Consumer.{Message, Failure, permanent, transient, header_value}
use event_driven_order_fulfi.Contracts.OrderEvents.{unmarshal_order_placed}
use event_driven_order_fulfi.Order.Saga.{Fault, Ports, World, handle}

-- The saga only reacts to placements.
abbrev pub is_placed : Message → Bool
is_placed m = text_beq (header_value m.headers (txt "event-type")) (txt "order.placed.v1")

-- A failure of the saga is transient for the worker.
abbrev pub as_transient :
    Outcome Fault (Unit {0}) × Session World → Outcome Failure (Unit {0}) × Session World
as_transient (ok u, s) = (ok tt, s)
as_transient (err e, s) = (err transient, s)

module _ ⦃ports : Ports⦄ where
  -- `handlePlaced`
  unfoldable pub handle_placed : Message → Action World Failure (Unit {0})
  handle_placed m = do
    ev ← lift (or_fail (Json.◌>>=◌ m.value unmarshal_order_placed) permanent)
    λ s. as_transient (handle ev s)

  -- The branch of `Run` on the type of a message.
  unfoldable pub handle_message : Message → Action World Failure (Unit {0})
  unfolding handle_placed
  handle_message m = if is_placed m then handle_placed m else pure tt
