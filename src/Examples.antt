-- ===== src/Examples.antt =====
-- Concrete data for the checks of the theorems at a single input: a platform, an order of two units
-- of one SKU, and databases that hold it.
pub mod Orders
pub mod Stored
pub mod Sagas
pub mod Stocks
pub mod Held
pub mod Shipments
pub mod ReadModels
pub mod Notifications
use event_driven_order_fulfi.Common.{
  ℕ, ◌*◌, ◌/◌, ◌≡◌, refl, Option, none, some, List, [], ◌∷◌, Outcome, ok, err,
}
use event_driven_order_fulfi.Common.Int.{pos}
use event_driven_order_fulfi.Common.Text.{txt}
use event_driven_order_fulfi.Platform.{Platform, Text}
use event_driven_order_fulfi.Order.Values.{LineItem, Address, Money, pending}
use event_driven_order_fulfi.Order.Aggregate.{
  OrderPlaced, DomainEvent, placed, confirmed_at, cancelled_at, Order, new_order, place_order,
}

abbrev parse_one : Text → Option ℕ
parse_one [] = none
parse_one (n ∷ []) = some n
parse_one (n ∷ m ∷ rest) = none

abbrev parse_scaled : Text → Option ℕ
parse_scaled [] = none
parse_scaled (n ∷ []) = some (n * 1000000)
parse_scaled (n ∷ m ∷ rest) = none

-- Ids and times are printed as the text of one code point.
instance abbrev pub one_point : Platform
one_point = record {
  uuid_parse = parse_one;
  uuid_string = λ u. u ∷ [];
  parse-string = λ u. refl;
  upper_rune = λ c. c;
  upper-upper = λ c. refl;
  is_space-upper = λ c. refl;
  format_millis = λ t. t / 1000000 ∷ [];
  parse_millis = parse_scaled;
  parse-format = λ t. refl;
  format_nanos = λ t. t ∷ [];
  parse_nanos = parse_one;
  parse-format_nanos = λ t. refl;
}

abbrev pub two_mugs : LineItem
two_mugs = record {
  sku = txt "MUG-1";
  quantity = pos 2;
  unit_price = record { currency = txt "EUR"; minor_units = pos 500 };
}

abbrev pub an_address : Address
an_address = record {
  line1 = txt "Main St 1";
  line2 = [];
  city = txt "Bonn";
  region = [];
  postal_code = txt "53111";
  country = txt "DE";
}

abbrev pub the_placement : OrderPlaced
the_placement = record {
  order_id = 7;
  customer_id = 9;
  items = two_mugs ∷ [];
  ship_to = an_address;
  total = record { currency = txt "EUR"; minor_units = pos 1000 };
  placed_at = 100;
}

-- The order as it is loaded from its placement, and as it was placed.
abbrev pub the_order : Order
the_order = record {
  id = 7;
  customer_id = 9;
  items = two_mugs ∷ [];
  ship_to = an_address;
  total = record { currency = txt "EUR"; minor_units = pos 1000 };
  status = pending;
  version = 1;
  changes = [];
}

abbrev pub the_new_order : Order
the_new_order = record the_order { changes = placed the_placement ∷ [] }
