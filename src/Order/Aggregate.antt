-- ===== src/Order/Aggregate.antt =====
-- The event-sourced order aggregate, services/order/internal/domain/order/order.go, and its
-- events, events.go. A method that mutates `*Order` returns the new record.
pub mod History
pub mod Lifecycle
pub mod Totals
pub mod Amount
use event_driven_order_fulfi.Common.{
  ℕ, suc, ◌+◌, ◌≡◌, Bool, true, false, List, [], ◌∷◌, ◌++◌, nat_beq, if◌then◌else◌, Outcome, ok,
  err, ◌>>=◌,
}
use event_driven_order_fulfi.Common.Int.{pos}
use event_driven_order_fulfi.Common.Text.{text_beq}
use event_driven_order_fulfi.Platform.{Text, Time, nil_uuid}
use event_driven_order_fulfi.Order.Values.{
  Error, validation, not_found, invalid_transition, OrderId, CustomerId, Sku, Money, LineItem,
  Address, Status, unset, pending, confirmed, cancelled, add_money, line_total,
}

pub record OrderPlaced : Type 0 where
  pub order_id : OrderId
  pub customer_id : CustomerId
  pub items : List LineItem
  pub ship_to : Address
  pub total : Money
  pub placed_at : Time

pub data DomainEvent : Type 0 where
  placed : OrderPlaced → DomainEvent
  confirmed_at : OrderId → Time → DomainEvent
  cancelled_at : OrderId → Text → Time → DomainEvent

pub record Order : Type 0 where
  pub id : OrderId
  pub customer_id : CustomerId
  pub items : List LineItem
  pub ship_to : Address
  pub total : Money
  pub status : Status
  pub version : ℕ
  pub changes : List DomainEvent

-- `&Order{}`
abbrev pub new_order : Order
new_order = record {
  id = nil_uuid;
  customer_id = nil_uuid;
  items = [];
  ship_to = record {
    line1 = [];
    line2 = [];
    city = [];
    region = [];
    postal_code = [];
    country = [];
  };
  total = record { currency = []; minor_units = pos 0 };
  status = unset;
  version = 0;
  changes = [];
}

unfoldable pub apply : DomainEvent → Order → Order
apply (placed ev) o = record o {
  id = ev.order_id;
  customer_id = ev.customer_id;
  items = ev.items;
  ship_to = ev.ship_to;
  total = ev.total;
  status = pending;
}
apply (confirmed_at _ _) o = record o { status = confirmed }
apply (cancelled_at _ _ _) o = record o { status = cancelled }

-- Apply an event and stage it for persistence.
unfoldable pub raise : DomainEvent → Order → Order
unfolding apply
raise e o =
    let o' = apply e o in record o' { version = suc o'.version; changes = o'.changes ++ e ∷ [] }

-- `_, dup := seen[sku]`
unfoldable pub seen_in : List Sku → Sku → Bool
seen_in [] k = false
seen_in (j ∷ seen) k = if text_beq j k then true else seen_in seen k

-- The loop of `PlaceOrder`: no SKU comes twice, and the line totals add up.
unfoldable pub sum_items : List Sku → Money → List LineItem → Outcome Error Money
sum_items seen total [] = ok total
sum_items seen total (li ∷ rest) =
    if seen_in seen li.sku
    then err validation
    else (add_money total (line_total li) >>= λ sum. sum_items (li.sku ∷ seen) sum rest)

-- The loop over a non-empty list, and the early return on an empty one.
unfoldable pub total_of : List LineItem → Outcome Error Money
unfolding sum_items
total_of [] = err validation
total_of (li ∷ rest) =
    sum_items [] (record { currency = li.unit_price.currency; minor_units = pos 0 }) (li ∷ rest)

unfoldable pub place_order :
    OrderId → CustomerId → List LineItem → Address → Time → Outcome Error Order
unfolding total_of raise
place_order id customer items ship_to now = if nat_beq id nil_uuid then err validation else do
  total ← total_of items
  ok (
      raise
        (placed (record {
          order_id = id;
          customer_id = customer;
          items = items;
          ship_to = ship_to;
          total = total;
          placed_at = now;
        }))
        new_order)

-- The loop of `Rehydrate`.
unfoldable pub replay : Order → List DomainEvent → Order
unfolding apply
replay o [] = o
replay o (e ∷ history) =
    let o' = apply e o in replay (record o' { version = suc o'.version }) history

unfoldable pub rehydrate : List DomainEvent → Outcome Error Order
unfolding replay
rehydrate [] = err not_found
rehydrate (e ∷ history) = ok (replay new_order (e ∷ history))

unfoldable pub confirm_from : Status → Time → Order → Outcome Error Order
unfolding raise
confirm_from confirmed now o = ok o
confirm_from pending now o = ok (raise (confirmed_at o.id now) o)
confirm_from _ now o = err invalid_transition

-- `Confirm`. On an error the order is left as it was.
unfoldable pub confirm : Time → Order → Outcome Error Order
unfolding confirm_from
confirm now o = confirm_from o.status now o

unfoldable pub cancel_from : Status → Text → Time → Order → Outcome Error Order
unfolding raise
cancel_from cancelled reason now o = ok o
cancel_from pending reason now o = ok (raise (cancelled_at o.id reason now) o)
cancel_from _ reason now o = err invalid_transition

-- `Cancel`
unfoldable pub cancel : Text → Time → Order → Outcome Error Order
unfolding cancel_from
cancel reason now o = cancel_from o.status reason now o

-- `UncommittedChanges` is the field; `MarkChangesCommitted` empties it.
unfoldable pub mark_changes_committed : Order → Order
mark_changes_committed o = record o { changes = [] }
