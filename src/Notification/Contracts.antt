-- ===== src/Notification/Contracts.antt =====
-- The views that the notification service has of the events it consumes,
-- services/notification/internal/contracts/events.go, as JSON, and the names of the event types.
use event_driven_order_fulfi.Common.{Option, some}
use event_driven_order_fulfi.Common.Int.{ℤ, int64_bound}
use event_driven_order_fulfi.Common.Text.{txt}
use event_driven_order_fulfi.Common.Json.{Json, get, as_fields, as_text, as_int, ◌>>=◌}
use event_driven_order_fulfi.Platform.{Text}
use event_driven_order_fulfi.Contracts.{
  EventType, order_placed, order_confirmed, order_cancelled, payment_captured, payment_declined,
  payment_settled, payment_refunded, payment_failed, shipment_created, shipment_dispatched,
  shipment_delivered, shipment_failed, other,
}

unfoldable pub type_name : EventType → Text
type_name order_placed = txt "order.placed.v1"
type_name order_confirmed = txt "order.confirmed.v1"
type_name order_cancelled = txt "order.cancelled.v1"
type_name payment_captured = txt "payment.captured.v1"
type_name payment_declined = txt "payment.declined.v1"
type_name payment_settled = txt "payment.settled.v1"
type_name payment_refunded = txt "payment.refunded.v1"
type_name payment_failed = txt "payment.failed.v1"
type_name shipment_created = txt "shipment.created.v1"
type_name shipment_dispatched = txt "shipment.dispatched.v1"
type_name shipment_delivered = txt "shipment.delivered.v1"
type_name shipment_failed = txt "shipment.failed.v1"
type_name (other name) = name

pub record OrderPlaced : Type 0 where
  pub order_id : Text
  pub customer_id : Text
  pub total_minor : ℤ
  pub currency : Text

pub record OrderCancelled : Type 0 where
  pub order_id : Text
  pub reason : Text

pub record PaymentEvent : Type 0 where
  pub order_id : Text
  pub amount_minor : ℤ
  pub currency : Text
  pub status : Text

pub record ShipmentDispatched : Type 0 where
  pub order_id : Text
  pub carrier : Text
  pub tracking_code : Text

pub record ShipmentFailed : Type 0 where
  pub order_id : Text
  pub reason : Text

pub record OrderRef : Type 0 where
  pub order_id : Text

-- `Unmarshal` into each of the views.
unfoldable pub unmarshal_placed : Json → Option OrderPlaced
unmarshal_placed raw = do
  f ← as_fields raw
  order_id ← as_text (get (txt "orderId") f)
  customer_id ← as_text (get (txt "customerId") f)
  total ← as_int int64_bound (get (txt "totalMinor") f)
  currency ← as_text (get (txt "currency") f)
  some (record {
    order_id = order_id;
    customer_id = customer_id;
    total_minor = total;
    currency = currency;
  })

unfoldable pub unmarshal_cancelled : Json → Option OrderCancelled
unmarshal_cancelled raw = do
  f ← as_fields raw
  order_id ← as_text (get (txt "orderId") f)
  reason ← as_text (get (txt "reason") f)
  some (record { order_id = order_id; reason = reason })

unfoldable pub unmarshal_payment : Json → Option PaymentEvent
unmarshal_payment raw = do
  f ← as_fields raw
  order_id ← as_text (get (txt "orderId") f)
  amount ← as_int int64_bound (get (txt "amountMinor") f)
  currency ← as_text (get (txt "currency") f)
  status ← as_text (get (txt "status") f)
  some (record { order_id = order_id; amount_minor = amount; currency = currency; status = status })

unfoldable pub unmarshal_dispatched : Json → Option ShipmentDispatched
unmarshal_dispatched raw = do
  f ← as_fields raw
  order_id ← as_text (get (txt "orderId") f)
  carrier ← as_text (get (txt "carrier") f)
  tracking_code ← as_text (get (txt "trackingCode") f)
  some (record { order_id = order_id; carrier = carrier; tracking_code = tracking_code })

unfoldable pub unmarshal_failed : Json → Option ShipmentFailed
unmarshal_failed raw = do
  f ← as_fields raw
  order_id ← as_text (get (txt "orderId") f)
  reason ← as_text (get (txt "reason") f)
  some (record { order_id = order_id; reason = reason })

unfoldable pub unmarshal_ref : Json → Option OrderRef
unmarshal_ref raw = do
  f ← as_fields raw
  order_id ← as_text (get (txt "orderId") f)
  some (record { order_id = order_id })
