-- ===== src/Fulfillment/Contracts.antt =====
-- What the fulfillment service reads and writes on the topics,
-- services/fulfillment/internal/contracts/events.go, as JSON.
use event_driven_order_fulfi.Common.{Option, some}
use event_driven_order_fulfi.Common.Text.{txt}
use event_driven_order_fulfi.Common.Json.{
  Json, str, obj, end, field, get, as_fields, as_text, ◌>>=◌,
}
use event_driven_order_fulfi.Platform.{Text}

-- The view of order.confirmed.v1.
pub record OrderConfirmedV1 : Type 0 where
  pub order_id : Text
  pub confirmed_at : Text

unfoldable pub unmarshal_order_confirmed : Json → Option OrderConfirmedV1
unmarshal_order_confirmed raw = do
  f ← as_fields raw
  order_id ← as_text (get (txt "orderId") f)
  at ← as_text (get (txt "confirmedAt") f)
  some (record { order_id = order_id; confirmed_at = at })

pub record ShipmentCreatedV1 : Type 0 where
  pub shipment_id : Text
  pub order_id : Text
  pub status : Text
  pub created_at : Text

pub record ShipmentDispatchedV1 : Type 0 where
  pub shipment_id : Text
  pub order_id : Text
  pub carrier : Text
  pub tracking_code : Text
  pub dispatched_at : Text

pub record ShipmentDeliveredV1 : Type 0 where
  pub shipment_id : Text
  pub order_id : Text
  pub delivered_at : Text

unfoldable pub marshal_shipment_created : ShipmentCreatedV1 → Json
marshal_shipment_created e = obj (
    field (txt "shipmentId") (str e.shipment_id) (
      field (txt "orderId") (str e.order_id)
        (field (txt "status") (str e.status) (field (txt "createdAt") (str e.created_at) end))))

unfoldable pub marshal_shipment_dispatched : ShipmentDispatchedV1 → Json
marshal_shipment_dispatched e = obj (
    field (txt "shipmentId") (str e.shipment_id) (
      field (txt "orderId") (str e.order_id) (
        field (txt "carrier") (str e.carrier) (
          field (txt "trackingCode") (str e.tracking_code)
            (field (txt "dispatchedAt") (str e.dispatched_at) end)))))

unfoldable pub marshal_shipment_delivered : ShipmentDeliveredV1 → Json
marshal_shipment_delivered e = obj (
    field (txt "shipmentId") (str e.shipment_id)
      (field (txt "orderId") (str e.order_id) (field (txt "deliveredAt") (str e.delivered_at) end)))
