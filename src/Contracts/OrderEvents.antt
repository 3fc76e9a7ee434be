-- ===== src/Contracts/OrderEvents.antt =====
-- The order service's integration events on the wire,
-- services/order/internal/contracts/order_events.go.
pub mod RoundTrip
use event_driven_order_fulfi.Common.{Option, some, List, [], ◌∷◌}
use event_driven_order_fulfi.Common.Int.{ℤ, int64_bound}
use event_driven_order_fulfi.Common.Text.{txt}
use event_driven_order_fulfi.Common.Json.{
  Json, num, str, arr, obj, Items, nil, cons, end, field, get, as_fields, as_items, as_text, as_int,
  int32_bound, ◌>>=◌,
}
use event_driven_order_fulfi.Platform.{Text}
use event_driven_order_fulfi.Order.Values.{Address}

pub record LineItemV1 : Type 0 where
  pub sku : Text
  pub quantity : ℤ
  pub unit_price_minor : ℤ

-- The address on the wire has the fields of the domain's address.
pub record OrderPlacedV1 : Type 0 where
  pub order_id : Text
  pub customer_id : Text
  pub items : List LineItemV1
  pub ship_to : Address
  pub total_minor : ℤ
  pub currency : Text
  pub placed_at : Text

pub record OrderConfirmedV1 : Type 0 where
  pub order_id : Text
  pub confirmed_at : Text

pub record OrderCancelledV1 : Type 0 where
  pub order_id : Text
  pub reason : Text
  pub cancelled_at : Text

unfoldable pub marshal_item : LineItemV1 → Json
marshal_item it = obj (
    field (txt "sku") (str it.sku) (
      field (txt "quantity") (num it.quantity)
        (field (txt "unitPriceMinor") (num it.unit_price_minor) end)))

unfoldable pub marshal_items : List LineItemV1 → Items
marshal_items [] = nil
marshal_items (it ∷ rest) = cons (marshal_item it) (marshal_items rest)

unfoldable pub marshal_ship_to : Address → Json
marshal_ship_to a = obj (
    field (txt "line1") (str a.line1) (
      field (txt "line2") (str a.line2) (
        field (txt "city") (str a.city) (
          field (txt "region") (str a.region) (
            field (txt "postalCode") (str a.postal_code)
              (field (txt "country") (str a.country) end))))))

unfoldable pub marshal_order_placed : OrderPlacedV1 → Json
marshal_order_placed e = obj (
    field (txt "orderId") (str e.order_id) (
      field (txt "customerId") (str e.customer_id) (
        field (txt "items") (arr (marshal_items e.items)) (
          field (txt "shipTo") (marshal_ship_to e.ship_to) (
            field (txt "totalMinor") (num e.total_minor) (
              field (txt "currency") (str e.currency)
                (field (txt "placedAt") (str e.placed_at) end)))))))

unfoldable pub marshal_order_confirmed : OrderConfirmedV1 → Json
marshal_order_confirmed e =
    obj
      (field (txt "orderId") (str e.order_id) (field (txt "confirmedAt") (str e.confirmed_at) end))

unfoldable pub marshal_order_cancelled : OrderCancelledV1 → Json
marshal_order_cancelled e = obj (
    field (txt "orderId") (str e.order_id)
      (field (txt "reason") (str e.reason) (field (txt "cancelledAt") (str e.cancelled_at) end)))

unfoldable pub unmarshal_item : Json → Option LineItemV1
unmarshal_item raw = do
  f ← as_fields raw
  sku ← as_text (get (txt "sku") f)
  quantity ← as_int int32_bound (get (txt "quantity") f)
  price ← as_int int64_bound (get (txt "unitPriceMinor") f)
  some (record { sku = sku; quantity = quantity; unit_price_minor = price })

unfoldable pub unmarshal_items : Items → Option (List LineItemV1)
unmarshal_items nil = some []
unmarshal_items (cons j rest) = do
  it ← unmarshal_item j
  its ← unmarshal_items rest
  some (it ∷ its)

unfoldable pub unmarshal_ship_to : Json → Option Address
unmarshal_ship_to raw = do
  f ← as_fields raw
  line1 ← as_text (get (txt "line1") f)
  line2 ← as_text (get (txt "line2") f)
  city ← as_text (get (txt "city") f)
  region ← as_text (get (txt "region") f)
  postal_code ← as_text (get (txt "postalCode") f)
  country ← as_text (get (txt "country") f)
  some (record {
    line1 = line1;
    line2 = line2;
    city = city;
    region = region;
    postal_code = postal_code;
    country = country;
  })

unfoldable pub unmarshal_order_placed : Json → Option OrderPlacedV1
unmarshal_order_placed raw = do
  f ← as_fields raw
  order_id ← as_text (get (txt "orderId") f)
  customer_id ← as_text (get (txt "customerId") f)
  xs ← as_items (get (txt "items") f)
  items ← unmarshal_items xs
  ship_to ← unmarshal_ship_to (get (txt "shipTo") f)
  total ← as_int int64_bound (get (txt "totalMinor") f)
  currency ← as_text (get (txt "currency") f)
  at ← as_text (get (txt "placedAt") f)
  some (record {
    order_id = order_id;
    customer_id = customer_id;
    items = items;
    ship_to = ship_to;
    total_minor = total;
    currency = currency;
    placed_at = at;
  })

unfoldable pub unmarshal_order_confirmed : Json → Option OrderConfirmedV1
unmarshal_order_confirmed raw = do
  f ← as_fields raw
  order_id ← as_text (get (txt "orderId") f)
  at ← as_text (get (txt "confirmedAt") f)
  some (record { order_id = order_id; confirmed_at = at })

unfoldable pub unmarshal_order_cancelled : Json → Option OrderCancelledV1
unmarshal_order_cancelled raw = do
  f ← as_fields raw
  order_id ← as_text (get (txt "orderId") f)
  reason ← as_text (get (txt "reason") f)
  at ← as_text (get (txt "cancelledAt") f)
  some (record { order_id = order_id; reason = reason; cancelled_at = at })
