-- ===== src/Notification/Render.antt =====
-- The text of a notification: `render` and its helpers in
-- services/notification/internal/app/dispatcher.go. A body that is not JSON is `none`.
use event_driven_order_fulfi.Common.{
  ℕ, ◌+◌, ◌/◌, ◌%◌, Option, none, some, [], ◌∷◌, ◌++◌, ltb, if◌then◌else◌,
}
use event_driven_order_fulfi.Common.Int.{ℤ, pos, negsuc}
use event_driven_order_fulfi.Common.Json.{Json, ◌>>=◌}
use event_driven_order_fulfi.Common.Text.{txt, trim_space}
use event_driven_order_fulfi.Common.Text.Decimal.{decimal, two_digits}
use event_driven_order_fulfi.Contracts.{
  EventType, order_placed, order_confirmed, order_cancelled, payment_captured, payment_declined,
  payment_settled, payment_refunded, shipment_created, shipment_dispatched, shipment_delivered,
  shipment_failed, other,
}
use event_driven_order_fulfi.Platform.{Platform, Text, Uuid}
use event_driven_order_fulfi.Notification.Contracts.{
  PaymentEvent, unmarshal_placed, unmarshal_cancelled, unmarshal_payment, unmarshal_dispatched,
  unmarshal_failed, unmarshal_ref,
}

pub record Message : Type 0 where
  pub order_id : Uuid
  pub subject : Text
  pub body : Text

-- `%d` of `minor / 100`, which rounds towards zero.
unfoldable pub whole : ℤ → Text
whole (pos n) = decimal (n / 100)
whole (negsuc n) = let w = (n + 1) / 100 in if ltb 0 w then txt "-" ++ decimal w else decimal w

-- `minor % 100`, made positive.
unfoldable pub frac : ℤ → ℕ
frac (pos n) = n % 100
frac (negsuc n) = (n + 1) % 100

unfoldable pub with_currency : Text → Text → Text
with_currency [] out = out
with_currency (c ∷ rest) out = out ++ txt " " ++ c ∷ rest

unfoldable pub money : ℤ → Text → Text
unfolding whole frac with_currency
money minor currency =
    with_currency (trim_space currency) (whole minor ++ txt "." ++ two_digits (frac minor))

suffix_of : Text → Text
suffix_of [] = []
suffix_of (c ∷ rest) = txt " Reason: " ++ (c ∷ rest) ++ txt "."

unfoldable pub reason_suffix : Text → Text
unfolding suffix_of
reason_suffix reason = suffix_of (trim_space reason)

module _ ⦃p : Platform⦄ where
  unfoldable pub payment_message : EventType → Uuid → PaymentEvent → Text × Text
  payment_message payment_captured id e = (
    txt "Payment received",
    txt "We captured "
        ++ money e.amount_minor e.currency
        ++ txt " for order "
        ++ p.uuid_string id
        ++ txt ".",
  )
  payment_message payment_declined id e =
      (txt "Payment declined", txt "Payment for order " ++ p.uuid_string id ++ txt " was declined.")
  payment_message payment_settled id e = (
    txt "Payment settled",
    txt "Payment of "
        ++ money e.amount_minor e.currency
        ++ txt " for order "
        ++ p.uuid_string id
        ++ txt " has settled.",
  )
  payment_message payment_refunded id e = (
    txt "Payment refunded",
    txt "We refunded "
        ++ money e.amount_minor e.currency
        ++ txt " for order "
        ++ p.uuid_string id
        ++ txt ".",
  )
  payment_message _ id e =
      (txt "Payment failed", txt "Payment for order " ++ p.uuid_string id ++ txt " failed.")

  unfoldable pub decode_order_id : Json → Option Uuid
  decode_order_id payload = do e ← unmarshal_ref payload; p.uuid_parse e.order_id

  abbrev pub message : Uuid → Text → Text → Message
  message id subject body = record { order_id = id; subject = subject; body = body }

  unfoldable pub render_payment : EventType → Json → Option Message
  unfolding payment_message
  render_payment ty payload = do
    e ← unmarshal_payment payload
    id ← p.uuid_parse e.order_id
    some (message id (payment_message ty id e).0 (payment_message ty id e).1)

  -- What a supported event says, if its body can be read.
  unfoldable pub render_body : EventType → Json → Option Message
  unfolding money reason_suffix decode_order_id render_payment
  render_body order_placed payload = do
    e ← unmarshal_placed payload
    id ← p.uuid_parse e.order_id
    some (
        message id (txt "Order received") (
          txt "We received your order "
          ++ p.uuid_string id
          ++ txt ". Total "
          ++ money e.total_minor e.currency
          ++ txt "."))
  render_body order_confirmed payload = do
    id ← decode_order_id payload
    some (
        message id (txt "Order confirmed")
          (txt "Your order " ++ p.uuid_string id ++ txt " is confirmed and being prepared."))
  render_body order_cancelled payload = do
    e ← unmarshal_cancelled payload
    id ← p.uuid_parse e.order_id
    some (
        message id (txt "Order cancelled") (
          txt "Your order " ++ p.uuid_string id ++ txt " was cancelled." ++ reason_suffix e.reason))
  render_body shipment_created payload = do
    id ← decode_order_id payload
    some (
        message id (txt "Preparing your shipment")
          (txt "A shipment was created for order " ++ p.uuid_string id ++ txt "."))
  render_body shipment_dispatched payload = do
    e ← unmarshal_dispatched payload
    id ← p.uuid_parse e.order_id
    some (
        message id (txt "Your order shipped") (
          txt "Order "
          ++ p.uuid_string id
          ++ txt " shipped via "
          ++ e.carrier
          ++ txt " (tracking "
          ++ e.tracking_code
          ++ txt ")."))
  render_body shipment_delivered payload = do
    id ← decode_order_id payload
    some (
        message id (txt "Your order was delivered")
          (txt "Order " ++ p.uuid_string id ++ txt " has been delivered."))
  render_body shipment_failed payload = do
    e ← unmarshal_failed payload
    id ← p.uuid_parse e.order_id
    some (
        message id (txt "There was a problem with your shipment") (
          txt "The shipment for order "
          ++ p.uuid_string id
          ++ txt " failed."
          ++ reason_suffix e.reason))
  render_body (other name) payload = none
  render_body ty payload = render_payment ty payload

-- A message, an event that the service does not notify on, or a body that cannot be read.
pub data Rendered : Type 0 where
  rendered : Message → Rendered
  ignored unreadable : Rendered

abbrev pub read_as : Option Message → Rendered
read_as none = unreadable
read_as (some m) = rendered m

module _ ⦃p : Platform⦄ where
  unfoldable pub render : EventType → Option Json → Rendered
  unfolding render_body
  render (other name) payload = ignored
  render ty payload = read_as (payload >>= render_body ty)
