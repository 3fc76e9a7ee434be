-- ===== src/Contracts.antt =====
-- The integration events on Kafka: services/order/internal/contracts/order_events.go,
-- services/fulfillment/internal/contracts/events.go and
-- services/notification/internal/contracts/events.go.
pub mod OrderEvents
use event_driven_order_fulfi.Common.{ℕ, List, if◌then◌else◌}
use event_driven_order_fulfi.Common.Text.{txt, text_beq}
use event_driven_order_fulfi.Platform.{Text}

-- The event types that any service names, and all others.
pub data EventType : Type 0 where
  order_placed order_confirmed order_cancelled : EventType
  payment_captured payment_declined payment_settled payment_refunded payment_failed : EventType
  shipment_created shipment_dispatched shipment_delivered shipment_failed : EventType
  other : Text → EventType

-- The event type that a header names.
unfoldable pub event_type : Text → EventType
event_type name =
    if text_beq name (txt "order.placed.v1")
    then order_placed
    else if text_beq name (txt "order.confirmed.v1")
    then order_confirmed
    else if text_beq name (txt "order.cancelled.v1")
    then order_cancelled
    else if text_beq name (txt "payment.captured.v1")
    then payment_captured
    else if text_beq name (txt "payment.declined.v1")
    then payment_declined
    else if text_beq name (txt "payment.settled.v1")
    then payment_settled
    else if text_beq name (txt "payment.refunded.v1")
    then payment_refunded
    else if text_beq name (txt "payment.failed.v1")
    then payment_failed
    else if text_beq name (txt "shipment.created.v1")
    then shipment_created
    else if text_beq name (txt "shipment.dispatched.v1")
    then shipment_dispatched
    else if text_beq name (txt "shipment.delivered.v1")
    then shipment_delivered
    else if text_beq name (txt "shipment.failed.v1")
    then shipment_failed
    else other name
