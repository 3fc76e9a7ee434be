-- ===== src/Order/Codec/Stored.antt =====
-- The stored structs of codec.go as JSON: what `json.Marshal` writes for their tags, and what
-- `json.Unmarshal` reads.
use event_driven_order_fulfi.Common.{Option, none, some, List, [], ◌∷◌}
use event_driven_order_fulfi.Common.Int.{ℤ, int64_bound}
use event_driven_order_fulfi.Common.Text.{txt}
use event_driven_order_fulfi.Common.Json.{
  Json, null, num, str, arr, obj, Items, nil, cons, end, field, get, as_fields, as_items, as_text,
  as_int, int32_bound, ◌>>=◌,
}
use event_driven_order_fulfi.Platform.{Platform, Text, Time}
use event_driven_order_fulfi.Order.Values.{Address}

pub record StoredLineItem : Type 0 where
  pub sku : Text
  pub quantity : ℤ
  pub unit_price_minor : ℤ
  pub currency : Text

-- `storedAddress` has the fields of the domain's address.
pub record StoredOrderPlaced : Type 0 where
  pub order_id : Text
  pub customer_id : Text
  pub items : List StoredLineItem
  pub ship_to : Address
  pub total_minor : ℤ
  pub currency : Text
  pub placed_at : Time

pub record StoredOrderConfirmed : Type 0 where
  pub order_id : Text
  pub confirmed_at : Time

pub record StoredOrderCancelled : Type 0 where
  pub order_id : Text
  pub reason : Text
  pub cancelled_at : Time

unfoldable pub marshal_line : StoredLineItem → Json
marshal_line it = obj (
    field (txt "sku") (str it.sku) (
      field (txt "quantity") (num it.quantity) (
        field (txt "unitPriceMinor") (num it.unit_price_minor)
          (field (txt "currency") (str it.currency) end))))

unfoldable pub marshal_lines : List StoredLineItem → Items
marshal_lines [] = nil
marshal_lines (it ∷ rest) = cons (marshal_line it) (marshal_lines rest)

unfoldable pub marshal_address : Address → Json
marshal_address a = obj (
    field (txt "Line1") (str a.line1) (
      field (txt "Line2") (str a.line2) (
        field (txt "City") (str a.city) (
          field (txt "Region") (str a.region) (
            field (txt "PostalCode") (str a.postal_code)
              (field (txt "Country") (str a.country) end))))))

unfoldable pub unmarshal_line : Json → Option StoredLineItem
unmarshal_line raw = do
  f ← as_fields raw
  sku ← as_text (get (txt "sku") f)
  quantity ← as_int int32_bound (get (txt "quantity") f)
  price ← as_int int64_bound (get (txt "unitPriceMinor") f)
  currency ← as_text (get (txt "currency") f)
  some (record { sku = sku; quantity = quantity; unit_price_minor = price; currency = currency })

unfoldable pub unmarshal_lines : Items → Option (List StoredLineItem)
unmarshal_lines nil = some []
unmarshal_lines (cons j rest) = do
  it ← unmarshal_line j
  its ← unmarshal_lines rest
  some (it ∷ its)

unfoldable pub unmarshal_address : Json → Option Address
unmarshal_address raw = do
  f ← as_fields raw
  line1 ← as_text (get (txt "Line1") f)
  line2 ← as_text (get (txt "Line2") f)
  city ← as_text (get (txt "City") f)
  region ← as_text (get (txt "Region") f)
  postal_code ← as_text (get (txt "PostalCode") f)
  country ← as_text (get (txt "Country") f)
  some (record {
    line1 = line1;
    line2 = line2;
    city = city;
    region = region;
    postal_code = postal_code;
    country = country;
  })

module _ ⦃p : Platform⦄ where
  unfoldable pub marshal_placed : StoredOrderPlaced → Json
  marshal_placed s = obj (
      field (txt "orderId") (str s.order_id) (
        field (txt "customerId") (str s.customer_id) (
          field (txt "items") (arr (marshal_lines s.items)) (
            field (txt "shipTo") (marshal_address s.ship_to) (
              field (txt "totalMinor") (num s.total_minor) (
                field (txt "currency") (str s.currency)
                  (field (txt "placedAt") (str (p.format_nanos s.placed_at)) end)))))))

  unfoldable pub marshal_confirmed : StoredOrderConfirmed → Json
  marshal_confirmed s = obj (
      field (txt "orderId") (str s.order_id)
        (field (txt "confirmedAt") (str (p.format_nanos s.confirmed_at)) end))

  unfoldable pub marshal_cancelled : StoredOrderCancelled → Json
  marshal_cancelled s = obj (
      field (txt "orderId") (str s.order_id) (
        field (txt "reason") (str s.reason)
          (field (txt "cancelledAt") (str (p.format_nanos s.cancelled_at)) end)))

  -- A `time.Time` field.
  unfoldable pub as_time : Json → Option Time
  as_time null = some 0
  as_time (str s) = p.parse_nanos s
  as_time _ = none

  unfoldable pub unmarshal_placed : Json → Option StoredOrderPlaced
  unfolding as_time
  unmarshal_placed raw = do
    f ← as_fields raw
    order_id ← as_text (get (txt "orderId") f)
    customer_id ← as_text (get (txt "customerId") f)
    xs ← as_items (get (txt "items") f)
    items ← unmarshal_lines xs
    ship_to ← unmarshal_address (get (txt "shipTo") f)
    total ← as_int int64_bound (get (txt "totalMinor") f)
    currency ← as_text (get (txt "currency") f)
    at ← as_time (get (txt "placedAt") f)
    some (record {
      order_id = order_id;
      customer_id = customer_id;
      items = items;
      ship_to = ship_to;
      total_minor = total;
      currency = currency;
      placed_at = at;
    })

  unfoldable pub unmarshal_confirmed : Json → Option StoredOrderConfirmed
  unfolding as_time
  unmarshal_confirmed raw = do
    f ← as_fields raw
    order_id ← as_text (get (txt "orderId") f)
    at ← as_time (get (txt "confirmedAt") f)
    some (record { order_id = order_id; confirmed_at = at })

  unfoldable pub unmarshal_cancelled : Json → Option StoredOrderCancelled
  unfolding as_time
  unmarshal_cancelled raw = do
    f ← as_fields raw
    order_id ← as_text (get (txt "orderId") f)
    reason ← as_text (get (txt "reason") f)
    at ← as_time (get (txt "cancelledAt") f)
    some (record { order_id = order_id; reason = reason; cancelled_at = at })
