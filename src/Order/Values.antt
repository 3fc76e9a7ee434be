-- ===== src/Order/Values.antt =====
-- The value objects of the order domain, services/order/internal/domain/order/value_objects.go
-- and errors.go. Each constructor validates and normalises what it is given.
pub mod Canonical
use event_driven_order_fulfi.Common.{
  ℕ, ◌≡◌, Bool, true, false, ◌||◌, Option, none, some, List, [], ◌∷◌, ltb, nat_beq, if◌then◌else◌,
  Outcome, ok, err, ◌>>=◌, or_fail, require, not,
}
use event_driven_order_fulfi.Common.Int.{ℤ, pos, ltb_ℤ, leb_ℤ, add64, mul64}
use event_driven_order_fulfi.Common.Text.{txt, text_beq, text_key, byte_len, trim_space}
use event_driven_order_fulfi.Platform.{Platform, Text, Uuid, to_upper}

-- The sentinels of errors.go; `storage` is any error that wraps none of them.
pub data Error : Type 0 where
  validation invalid_identifier not_found concurrency invalid_transition storage : Error

abbrev pub OrderId : Type 0
OrderId = Uuid

abbrev pub CustomerId : Type 0
CustomerId = Uuid

-- A validated stock keeping unit.
abbrev pub Sku : Type 0
Sku = Text

-- The order line quantity, an `int32`.
abbrev pub Quantity : Type 0
Quantity = ℤ

pub record Money : Type 0 where
  pub currency : Text
  pub minor_units : ℤ

pub record LineItem : Type 0 where
  pub sku : Sku
  pub quantity : Quantity
  pub unit_price : Money

pub record Address : Type 0 where
  pub line1 : Text
  pub line2 : Text
  pub city : Text
  pub region : Text
  pub postal_code : Text
  pub country : Text

-- `unset` is the empty string of a new `Order{}`.
pub data Status : Type 0 where
  unset pending confirmed cancelled : Status

unfoldable pub new_sku : Text → Outcome Error Sku
new_sku s =
    let t = trim_space s in if text_beq t [] || ltb 64 (byte_len t) then err validation else ok t

unfoldable pub new_quantity : ℤ → Outcome Error Quantity
new_quantity v = if leb_ℤ v (pos 0) || ltb_ℤ (pos 10000) v then err validation else ok v

unfoldable pub new_idempotency_key : Text → Outcome Error Text
new_idempotency_key s =
    let t = trim_space s in
    if ltb (byte_len t) 8 || ltb 128 (byte_len t) then err validation else ok t

-- `Money.Add`
unfoldable pub add_money : Money → Money → Outcome Error Money
add_money m other =
    if text_beq m.currency other.currency
    then ok (record { currency = m.currency; minor_units = add64 m.minor_units other.minor_units })
    else err validation

-- `LineItem.LineTotal`
unfoldable pub line_total : LineItem → Money
line_total li = record {
  currency = li.unit_price.currency;
  minor_units = mul64 li.unit_price.minor_units li.quantity;
}

-- The check of one required field of an address.
abbrev pub is_blank : Text → Bool
is_blank v = text_beq (trim_space v) []

module _ ⦃p : Platform⦄ where
  unfoldable pub parse_order_id : Text → Outcome Error OrderId
  parse_order_id s = or_fail (p.uuid_parse s) invalid_identifier

  unfoldable pub parse_customer_id : Text → Outcome Error CustomerId
  parse_customer_id s = or_fail (p.uuid_parse s) invalid_identifier

  unfoldable pub new_money : Text → ℤ → Outcome Error Money
  new_money currency minor_units =
      let c = to_upper (trim_space currency) in
      if not (nat_beq (byte_len c) 3)
      then err validation
      else if ltb_ℤ minor_units (pos 0)
      then err validation
      else ok (record { currency = c; minor_units = minor_units })

  -- The source ranges over a map of the required fields; all of them fail alike.
  unfoldable pub new_address : Text → Text → Text → Text → Text → Text → Outcome Error Address
  new_address line1 line2 city region postal_code country =
      if is_blank line1 || is_blank city || is_blank postal_code || is_blank country
      then err validation
      else let c = to_upper (trim_space country) in
        if not (nat_beq (byte_len c) 2)
        then err validation
        else ok (record {
          line1 = trim_space line1;
          line2 = trim_space line2;
          city = trim_space city;
          region = trim_space region;
          postal_code = trim_space postal_code;
          country = c;
        })
