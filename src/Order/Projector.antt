-- ===== src/Order/Projector.antt =====
-- The handling of a message by the projector, services/order/internal/worker/projector/projector.go.
use event_driven_order_fulfi.Common.Text.{txt}
use event_driven_order_fulfi.Common.Session.{Action}
use event_driven_order_fulfi.Platform.{Platform}
use event_driven_order_fulfi.Contracts.{event_type}
use event_driven_order_fulfi.Consumer.{Message, Failure, header_value}
use event_driven_order_fulfi.Order.Store.{Db}
use event_driven_order_fulfi.Order.Projection.{apply}

module _ ⦃p : Platform⦄ where
  -- The call of `Apply` in `Run`.
  unfoldable pub handle_message : Message → Action Db Failure (Unit {0})
  unfolding apply
  handle_message m = apply (event_type (header_value m.headers (txt "event-type"))) m.value
