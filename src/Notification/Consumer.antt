-- ===== src/Notification/Consumer.antt =====
-- The handling of a message by the notification worker,
-- services/notification/internal/worker/consumer/worker.go.
use event_driven_order_fulfi.Common.Text.{txt}
use event_driven_order_fulfi.Common.Session.{Session, Action}
use event_driven_order_fulfi.Platform.{Platform, Time}
use event_driven_order_fulfi.Contracts.{event_type}
use event_driven_order_fulfi.Consumer.{Message, Failure, header_value}
use event_driven_order_fulfi.Notification.Dispatcher.{World, handle}

module _ ⦃p : Platform⦄ (clock : Session World → Time) where
  -- The call of the dispatcher in `Run`. `clock` gives what the clock reads, in any way.
  unfoldable pub handle_message : Message → Action World Failure (Unit {0})
  unfolding handle
  handle_message m s =
      handle (event_type (header_value m.headers (txt "event-type"))) m.value (clock s) s
