-- ===== src/Contracts/OrderEvents/RoundTrip.antt =====
-- The order service's events read back from the wire, services/order/internal/contracts/order_events.go.
use event_driven_order_fulfi.Common.{◌≡◌, refl, some, List, [], ◌∷◌, true, All}
use event_driven_order_fulfi.Common.Int.{int64_bound}
use event_driven_order_fulfi.Common.Text.{text_beq}
use event_driven_order_fulfi.Common.Json.{
  get_or_null, as_fields, as_items, as_text, as_int, fits, int32_bound,
}
use event_driven_order_fulfi.Order.Values.{Address}
use event_driven_order_fulfi.Contracts.OrderEvents.{
  LineItemV1, OrderPlacedV1, OrderConfirmedV1, OrderCancelledV1, marshal_item, marshal_items,
  marshal_ship_to, marshal_order_placed, marshal_order_confirmed, marshal_order_cancelled,
  unmarshal_item, unmarshal_items, unmarshal_ship_to, unmarshal_order_placed,
  unmarshal_order_confirmed, unmarshal_order_cancelled,
}

-- The numbers of a line are within their Go types.
abbrev pub FitsWire : LineItemV1 → Type 0
FitsWire it = (fits int32_bound it.quantity ≡ true) × (fits int64_bound it.unit_price_minor ≡ true)

unmarshal-marshal_item :
    (it : LineItemV1) → FitsWire it → unmarshal_item (marshal_item it) ≡ some it
unfolding unmarshal_item marshal_item get_or_null text_beq as_fields as_text as_int
unmarshal-marshal_item it (q, u) = rw (q, u, as_int)

unmarshal-marshal_items :
    (its : List LineItemV1) → All FitsWire its → unmarshal_items (marshal_items its) ≡ some its
unfolding unmarshal_items marshal_items
unmarshal-marshal_items [] h = refl
unmarshal-marshal_items (it ∷ rest) (h, hs) =
    rw (unmarshal-marshal_item it h, unmarshal-marshal_items rest hs)

unmarshal-marshal_ship_to : (a : Address) → unmarshal_ship_to (marshal_ship_to a) ≡ some a
unfolding unmarshal_ship_to marshal_ship_to get_or_null text_beq as_fields as_text
unmarshal-marshal_ship_to a = refl

pub unmarshal-marshal_order_placed :
    (e : OrderPlacedV1)
    → All FitsWire e.items
    → fits int64_bound e.total_minor ≡ true
    → unmarshal_order_placed (marshal_order_placed e) ≡ some e
unfolding unmarshal_order_placed marshal_order_placed get_or_null text_beq as_fields as_text
    as_items as_int
unmarshal-marshal_order_placed e h t =
    rw (unmarshal-marshal_items e.items h, unmarshal-marshal_ship_to e.ship_to, t, as_int)

pub unmarshal-marshal_order_confirmed :
    (e : OrderConfirmedV1) → unmarshal_order_confirmed (marshal_order_confirmed e) ≡ some e
unfolding unmarshal_order_confirmed marshal_order_confirmed get_or_null text_beq as_fields as_text
unmarshal-marshal_order_confirmed e = refl

pub unmarshal-marshal_order_cancelled :
    (e : OrderCancelledV1) → unmarshal_order_cancelled (marshal_order_cancelled e) ≡ some e
unfolding unmarshal_order_cancelled marshal_order_cancelled get_or_null text_beq as_fields as_text
unmarshal-marshal_order_cancelled e = refl
