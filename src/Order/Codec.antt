-- ===== src/Order/Codec.antt =====
-- The persisted form of the order's events,
-- services/order/internal/infra/postgres/codec.go.
pub mod RoundTrip
pub mod Stored
use event_driven_order_fulfi.Common.{
  ℕ, ◌≡◌, Option, none, some, List, [], ◌∷◌, Outcome, ok, err, ◌>>=◌, or_fail,
}
use event_driven_order_fulfi.Common.Int.{ℤ}
use event_driven_order_fulfi.Common.Json.{Json, Items, nil, cons}
use event_driven_order_fulfi.Contracts.{EventType, order_placed, order_confirmed, order_cancelled}
use event_driven_order_fulfi.Platform.{Platform, Text, Time}
use event_driven_order_fulfi.Order.Values.{
  Error, storage, LineItem, Address, new_sku, new_quantity, new_money, new_address, parse_order_id,
  parse_customer_id,
}
use event_driven_order_fulfi.Order.Aggregate.{
  OrderPlaced, DomainEvent, placed, confirmed_at, cancelled_at,
}
use Stored.{
  StoredLineItem, StoredOrderPlaced, StoredOrderConfirmed, StoredOrderCancelled, marshal_placed,
  marshal_confirmed, marshal_cancelled, unmarshal_placed, unmarshal_confirmed, unmarshal_cancelled,
}

-- The loop that `encodeEvent` makes over the lines.
unfoldable pub stored_items : List LineItem → List StoredLineItem
stored_items [] = []
stored_items (it ∷ rest) =
    record {
      sku = it.sku;
      quantity = it.quantity;
      unit_price_minor = it.unit_price.minor_units;
      currency = it.unit_price.currency;
    }
    ∷ stored_items rest

module _ ⦃p : Platform⦄ where
  stored_placed : OrderPlaced → StoredOrderPlaced
  unfolding stored_items
  stored_placed ev = record {
    order_id = p.uuid_string ev.order_id;
    customer_id = p.uuid_string ev.customer_id;
    items = stored_items ev.items;
    ship_to = ev.ship_to;
    total_minor = ev.total.minor_units;
    currency = ev.total.currency;
    placed_at = ev.placed_at;
  }

  unfoldable pub encode_event : DomainEvent → EventType × Json
  unfolding stored_placed
  encode_event (placed ev) = (order_placed, marshal_placed (stored_placed ev))
  encode_event (confirmed_at i t) =
      (order_confirmed, marshal_confirmed (record { order_id = p.uuid_string i; confirmed_at = t }))
  encode_event (cancelled_at i r t) = (
    order_cancelled,
    marshal_cancelled (record { order_id = p.uuid_string i; reason = r; cancelled_at = t }),
  )

  -- The loop that `decodeEvent` makes over the lines: each is validated anew.
  unfoldable pub decode_items : List StoredLineItem → Outcome Error (List LineItem)
  decode_items [] = ok []
  decode_items (it ∷ rest) = do
    sku ← new_sku it.sku
    quantity ← new_quantity it.quantity
    price ← new_money it.currency it.unit_price_minor
    items ← decode_items rest
    ok (record { sku = sku; quantity = quantity; unit_price = price } ∷ items)

  decode_placed : StoredOrderPlaced → Outcome Error DomainEvent
  unfolding decode_items
  decode_placed s = do
    order_id ← parse_order_id s.order_id
    customer_id ← parse_customer_id s.customer_id
    items ← decode_items s.items
    addr ←
        new_address s.ship_to.line1 s.ship_to.line2 s.ship_to.city s.ship_to.region
          s.ship_to.postal_code s.ship_to.country
    total ← new_money s.currency s.total_minor
    ok (
        placed (record {
          order_id = order_id;
          customer_id = customer_id;
          items = items;
          ship_to = addr;
          total = total;
          placed_at = s.placed_at;
        }))

  decode_confirmed : StoredOrderConfirmed → Outcome Error DomainEvent
  decode_confirmed s = do
    order_id ← parse_order_id s.order_id
    ok (confirmed_at order_id s.confirmed_at)

  decode_cancelled : StoredOrderCancelled → Outcome Error DomainEvent
  decode_cancelled s = do
    order_id ← parse_order_id s.order_id
    ok (cancelled_at order_id s.reason s.cancelled_at)

  unfoldable pub decode_event : EventType → Json → Outcome Error DomainEvent
  unfolding decode_placed decode_confirmed decode_cancelled
  decode_event order_placed raw = do s ← or_fail (unmarshal_placed raw) storage; decode_placed s
  decode_event order_confirmed raw = do
    s ← or_fail (unmarshal_confirmed raw) storage
    decode_confirmed s
  decode_event order_cancelled raw = do
    s ← or_fail (unmarshal_cancelled raw) storage
    decode_cancelled s
  decode_event _ raw = err storage
