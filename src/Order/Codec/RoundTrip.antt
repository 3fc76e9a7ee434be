-- ===== src/Order/Codec/RoundTrip.antt =====
-- Stored events read back as they were.
use event_driven_order_fulfi.Common.{◌≡◌, refl, some, List, [], ◌∷◌, arith, true, All, ok}
use event_driven_order_fulfi.Common.Int.{ℤ, int64_bound}
use event_driven_order_fulfi.Common.Text.{text_beq}
use event_driven_order_fulfi.Common.Json.{
  get_or_null, as_fields, as_items, as_text, as_int, fits, int32_bound,
}
use event_driven_order_fulfi.Platform.{Platform}
use event_driven_order_fulfi.Order.Codec.Stored.{
  StoredLineItem, StoredOrderPlaced, StoredOrderConfirmed, StoredOrderCancelled, marshal_line,
  marshal_lines, marshal_address, marshal_placed, marshal_confirmed, marshal_cancelled,
  unmarshal_line, unmarshal_lines, unmarshal_address, unmarshal_placed, unmarshal_confirmed,
  unmarshal_cancelled, as_time,
}
use event_driven_order_fulfi.Order.Values.{
  Address, LineItem, new_sku, new_quantity, new_money, new_address, parse_order_id,
  parse_customer_id,
}
use event_driven_order_fulfi.Order.Aggregate.{
  OrderPlaced, DomainEvent, placed, confirmed_at, cancelled_at,
}
use event_driven_order_fulfi.Order.Codec.{
  stored_items, stored_placed, encode_event, decode_items, decode_event,
}

-- The numbers of a stored line are within their types.
abbrev pub IsStorable : StoredLineItem → Type 0
IsStorable it =
    (fits int32_bound it.quantity ≡ true) × (fits int64_bound it.unit_price_minor ≡ true)

unmarshal-marshal_line :
    (it : StoredLineItem) → IsStorable it → unmarshal_line (marshal_line it) ≡ some it
unfolding unmarshal_line marshal_line get_or_null text_beq as_fields as_text as_int
unmarshal-marshal_line it (q, u) = rw (q, u, as_int)

unmarshal-marshal_lines :
    (its : List StoredLineItem)
    → All IsStorable its
    → unmarshal_lines (marshal_lines its) ≡ some its
unfolding unmarshal_lines marshal_lines
unmarshal-marshal_lines [] h = refl
unmarshal-marshal_lines (it ∷ rest) (h, hs) =
    rw (unmarshal-marshal_line it h, unmarshal-marshal_lines rest hs)

unmarshal-marshal_address : (a : Address) → unmarshal_address (marshal_address a) ≡ some a
unfolding unmarshal_address marshal_address get_or_null text_beq as_fields as_text
unmarshal-marshal_address a = refl

module _ ⦃p : Platform⦄ where
  unmarshal-marshal_placed :
      (s : StoredOrderPlaced)
      → All IsStorable s.items
      → fits int64_bound s.total_minor ≡ true
      → unmarshal_placed (marshal_placed s) ≡ some s
  unfolding unmarshal_placed marshal_placed get_or_null text_beq as_fields as_text as_items as_int
  unmarshal-marshal_placed s h t = rw (
    unmarshal-marshal_lines s.items h,
    unmarshal-marshal_address s.ship_to,
    t,
    as_int,
    p.parse-format_nanos s.placed_at,
    as_time,
  )

  unmarshal-marshal_confirmed :
      (s : StoredOrderConfirmed) → unmarshal_confirmed (marshal_confirmed s) ≡ some s
  unfolding unmarshal_confirmed marshal_confirmed get_or_null text_beq as_fields as_text
  unmarshal-marshal_confirmed s = rw (p.parse-format_nanos s.confirmed_at, as_time)

  unmarshal-marshal_cancelled :
      (s : StoredOrderCancelled) → unmarshal_cancelled (marshal_cancelled s) ≡ some s
  unfolding unmarshal_cancelled marshal_cancelled get_or_null text_beq as_fields as_text
  unmarshal-marshal_cancelled s = rw (p.parse-format_nanos s.cancelled_at, as_time)

  -- The lines that the domain's constructors accept as they are.
  abbrev pub IsValidLine : LineItem → Type 0
  IsValidLine li =
      (new_sku li.sku ≡ ok li.sku)
      × (new_quantity li.quantity ≡ ok li.quantity)
      × (new_money li.unit_price.currency li.unit_price.minor_units ≡ ok li.unit_price)
      × (fits int64_bound li.unit_price.minor_units ≡ true)

  -- What the domain's constructors accept as it is: every value of the event is normalised, and the
  -- total is an `int64` that is not negative.
  pub record IsValidPlaced (ev : OrderPlaced) : Type 0 where
    pub lines : All IsValidLine ev.items
    pub address :
        new_address ev.ship_to.line1 ev.ship_to.line2 ev.ship_to.city ev.ship_to.region
          ev.ship_to.postal_code ev.ship_to.country
        ≡ ok ev.ship_to
    pub total : new_money ev.total.currency ev.total.minor_units ≡ ok ev.total
    pub total_fits : fits int64_bound ev.total.minor_units ≡ true

  abbrev pub IsValidEvent : DomainEvent → Type 0
  IsValidEvent (placed ev) = IsValidPlaced ev
  IsValidEvent (confirmed_at i t) = Unit
  IsValidEvent (cancelled_at i r t) = Unit

  decode-stored_items :
      (items : List LineItem) → All IsValidLine items → decode_items (stored_items items) ≡ ok items
  unfolding decode_items stored_items
  decode-stored_items [] h = refl
  decode-stored_items (li ∷ rest) ((k, q, m, _), h) = rw (k, q, m, decode-stored_items rest h)

  quantity_fits : (q : ℤ) → new_quantity q ≡ ok q → fits int32_bound q ≡ true
  unfolding new_quantity
  quantity_fits q h = ground arith

  storable : (items : List LineItem) → All IsValidLine items → All IsStorable (stored_items items)
  unfolding stored_items
  storable [] h = tt
  storable (li ∷ rest) ((_, q, _, u), h) = ((quantity_fits li.quantity q, u), storable rest h)

  -- Decoding what was encoded gives back the event, for each of the three kinds of event; a
  -- placement's values must be ones that the domain's constructors accept as they are.
  pub decode-encode_event :
      (e : DomainEvent) → IsValidEvent e → decode_event (encode_event e).0 (encode_event e).1 ≡ ok e
  unfolding decode_event encode_event parse_order_id parse_customer_id
  decode-encode_event (placed ev) h = rw (
    unmarshal-marshal_placed (stored_placed ev) (storable ev.items h.lines) h.total_fits,
    p.parse-string ev.order_id,
    p.parse-string ev.customer_id,
    decode-stored_items ev.items h.lines,
    h.address,
    h.total,
  )
  decode-encode_event (confirmed_at i t) h = rw (unmarshal-marshal_confirmed _, p.parse-string i)
  decode-encode_event (cancelled_at i r t) h = rw (unmarshal-marshal_cancelled _, p.parse-string i)
