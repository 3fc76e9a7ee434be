-- ===== src/Examples/Stored.antt =====
-- The theorems on stored orders, at databases that hold the order of two mugs.
use event_driven_order_fulfi.Common.{◌≡◌, refl, true, false, List, [], ◌∷◌, ok, err, All, arith}
use event_driven_order_fulfi.Common.Int.{pos}
use event_driven_order_fulfi.Common.Text.{is_space, txt, byte_len, text_beq, trim_space, text_key}
use event_driven_order_fulfi.Common.Table.{has}
use event_driven_order_fulfi.Common.Session.{
  Session, served, refused, quiet, rolled_back, begin, write,
}
use event_driven_order_fulfi.Common.Session.Drift.{Drift}
use event_driven_order_fulfi.Common.Session.Atomic.{Answered}
use event_driven_order_fulfi.Platform.{to_upper}
use event_driven_order_fulfi.Order.Values.{
  new_idempotency_key, add_money, line_total, validation, storage, concurrency, not_found,
  invalid_transition, pending, confirmed, cancelled, new_sku, new_money, new_address, new_quantity,
  parse_order_id, parse_customer_id,
}
use event_driven_order_fulfi.Order.Aggregate.{
  seen_in, DomainEvent, placed, confirmed_at, cancelled_at, rehydrate, replay, place_order, apply,
  mark_changes_committed,
}
use event_driven_order_fulfi.Order.Aggregate.History.{places}
use event_driven_order_fulfi.Order.Codec.{encode_event, decode_event}
use event_driven_order_fulfi.Order.Codec.RoundTrip.{
  IsValidEvent, IsValidPlaced, decode-encode_event,
}
use event_driven_order_fulfi.Order.Store.{
  Db, aggregate_id, save_changes, insert_events, event_row, rows_of, load, save,
}
use event_driven_order_fulfi.Order.Store.Queries.{AreOf}
use event_driven_order_fulfi.Order.Store.Loading.{Stores}
use event_driven_order_fulfi.Order.Store.Saving.{save_atomic}
use event_driven_order_fulfi.Order.Store.ReadBack.{save_then_load, stale_save_refused}
use event_driven_order_fulfi.Order.Commands.{
  handle_confirm, handle_cancel, handle_place, PlaceOrderCommand, PlaceOrderLine, build_line_items,
}
use event_driven_order_fulfi.Order.Commands.Idempotency.{
  IsWellFormed, retry_reports_first, retry_of_refused,
}
use event_driven_order_fulfi.Order.Commands.Decisions.{
  Decided, confirmation_message, cancellation_message, handle_confirm-Decided,
  handle_cancel-Decided, calls_on_decided,
}
use event_driven_order_fulfi.Examples.{
  one_point, two_mugs, an_address, the_placement, the_order, the_new_order,
}
use event_driven_order_fulfi.Examples.Orders.{is_placed}

abbrev empty : Db
empty = record { events = []; outbox = []; next_id = 1; keys = []; projections = [] }

abbrev with_order : Db
with_order = record empty { events = event_row 1 (placed the_placement) ∷ [] }

placement_IsValid : IsValidPlaced the_placement
unfolding new_sku new_quantity new_money new_address trim_space to_upper byte_len text_beq is_space
placement_IsValid = record {
  lines = ((refl, refl, refl, refl), tt);
  address = refl;
  total = refl;
  total_fits = refl;
}

decode-encode_event_example :
    decode_event (encode_event (placed the_placement)).0 (encode_event (placed the_placement)).1
    ≡ ok (placed the_placement)
decode-encode_event_example = decode-encode_event (placed the_placement) placement_IsValid

empty-Stores : Stores empty 7 []
unfolding rows_of
empty-Stores = record { rows = refl; own = tt; valid = tt }

with_order-Stores : Stores with_order 7 (placed the_placement ∷ [])
unfolding rows_of event_row aggregate_id
with_order-Stores = record { rows = refl; own = (refl, tt); valid = (placement_IsValid, tt) }

is_loaded : rehydrate (placed the_placement ∷ []) ≡ ok the_order
unfolding rehydrate replay apply
is_loaded = refl

parses_seven : parse_order_id (7 ∷ []) ≡ ok 7
unfolding parse_order_id
parses_seven = refl

of_seven : AreOf 7 the_new_order.changes
unfolding aggregate_id
of_seven = (refl, tt)

save_then_load_example :
    ((save the_new_order 0 [] (quiet empty)).0 ≡ ok tt)
    × ((load 7 (save the_new_order 0 [] (quiet empty)).1).0
        ≡ ok (mark_changes_committed the_new_order))
save_then_load_example =
    save_then_load empty the_new_order [] [] (places 7 9 (two_mugs ∷ []) an_address 100 is_placed)
      (λ e. cc) empty-Stores of_seven (placement_IsValid, tt)

stale_save_refused_example :
    save the_new_order 0 [] (quiet with_order) ≡ (err concurrency, quiet with_order)
stale_save_refused_example =
    stale_save_refused with_order 7 the_new_order (placed the_placement ∷ []) 0 [] with_order-Stores
      (λ e. cc) of_seven (omega arith)

-- The transaction begins, and its first insertion fails.
abbrev failing : Session Db
failing = record {
  committed = empty;
  view = empty;
  turns =
      record { others = λ d. d; reply = served } ∷ record { others = λ d. d; reply = refused } ∷ [];
}

save_fails : (save the_new_order 0 [] failing).0 ≡ err storage
unfolding save save_changes insert_events rolled_back begin write
save_fails = refl

all-Answered : Answered failing.turns
all-Answered =
    let last : Answered (record { others = λ (d : Db). d; reply = refused } ∷ []) = (λ e. cc, tt) in
    (λ e. cc, last)

save_atomic_example : Drift failing (save the_new_order 0 [] failing).1
save_atomic_example = save_atomic the_new_order 0 [] failing all-Answered (rw save_fails tt)

handle_confirm-Decided_example :
    (d' : Db) × (handle_confirm 5 (7 ∷ []) (quiet with_order) ≡ (ok tt, quiet d'))
    × Decided with_order d' 7
        (placed the_placement ∷ [])
        (confirmed_at 7 5)
        (confirmation_message 7 5)
        confirmed
handle_confirm-Decided_example =
    handle_confirm-Decided with_order 7 (placed the_placement ∷ []) the_order 5 (7 ∷ [])
      parses_seven with_order-Stores is_loaded refl refl

handle_cancel-Decided_example :
    (d' : Db) × (handle_cancel (txt "late") 5 (7 ∷ []) (quiet with_order) ≡ (ok tt, quiet d'))
    × Decided with_order d' 7
        (placed the_placement ∷ [])
        (cancelled_at 7 (txt "late") 5)
        (cancellation_message 7 (txt "late") 5)
        cancelled
handle_cancel-Decided_example =
    handle_cancel-Decided with_order 7 (placed the_placement ∷ []) the_order (txt "late") 5 (7 ∷ [])
      parses_seven with_order-Stores is_loaded refl refl

abbrev decided_history : List DomainEvent
decided_history = placed the_placement ∷ confirmed_at 7 5 ∷ []

abbrev with_decided : Db
with_decided = record empty {
  events = event_row 1 (placed the_placement) ∷ event_row 2 (confirmed_at 7 5) ∷ [];
}

with_decided-Stores : Stores with_decided 7 decided_history
unfolding rows_of event_row aggregate_id
with_decided-Stores =
    let own_last : AreOf 7 (confirmed_at 7 5 ∷ []) = (refl, tt) in
    let valid_last : All IsValidEvent (confirmed_at 7 5 ∷ []) = (tt, tt) in
    record { rows = refl; own = (refl, own_last); valid = (placement_IsValid, valid_last) }

is_loaded_decided :
    rehydrate decided_history ≡ ok (record the_order { status = confirmed; version = 2 })
unfolding rehydrate replay apply
is_loaded_decided = refl

calls_on_decided_example :
    (confirmed ≡ confirmed
      → (handle_confirm 6 (7 ∷ []) (quiet with_decided) ≡ (ok tt, quiet with_decided))
        × (handle_cancel [] 6 (7 ∷ []) (quiet with_decided)
            ≡ (err invalid_transition, quiet with_decided)))
    × (confirmed ≡ cancelled
        → (handle_cancel [] 6 (7 ∷ []) (quiet with_decided) ≡ (ok tt, quiet with_decided))
          × (handle_confirm 6 (7 ∷ []) (quiet with_decided)
              ≡ (err invalid_transition, quiet with_decided)))
calls_on_decided_example =
    calls_on_decided with_decided 7 decided_history
      (record the_order { status = confirmed; version = 2 }) [] 6 (7 ∷ []) parses_seven
      with_decided-Stores is_loaded_decided

abbrev a_line : PlaceOrderLine
a_line = record {
  sku = txt "MUG-1";
  quantity = pos 2;
  unit_price_minor = pos 500;
  currency = txt "EUR";
}

abbrev a_command : PlaceOrderCommand
a_command = record {
  customer_id = 9 ∷ [];
  idempotency_key = txt "key-0001";
  lines = a_line ∷ [];
  ship = record {
    line1 = txt "Main St 1";
    line2 = [];
    city = txt "Bonn";
    region = [];
    postal_code = txt "53111";
    country = txt "DE";
  };
}

-- The same line twice.
abbrev a_bad_command : PlaceOrderCommand
a_bad_command = record a_command { lines = a_line ∷ a_line ∷ [] }

well_formed : IsWellFormed a_command
unfolding new_idempotency_key parse_customer_id build_line_items new_sku new_quantity new_money
    new_address trim_space to_upper byte_len text_beq is_space
well_formed = record {
  key = txt "key-0001";
  key_eq = refl;
  customer = 9;
  customer_eq = refl;
  items = two_mugs ∷ [];
  items_eq = refl;
  ship_to = an_address;
  ship_to_eq = refl;
}

well_formed_twice : IsWellFormed a_bad_command
unfolding new_idempotency_key parse_customer_id build_line_items new_sku new_quantity new_money
    new_address trim_space to_upper byte_len text_beq is_space
well_formed_twice = record {
  key = txt "key-0001";
  key_eq = refl;
  customer = 9;
  customer_eq = refl;
  items = two_mugs ∷ two_mugs ∷ [];
  items_eq = refl;
  ship_to = an_address;
  ship_to_eq = refl;
}

is_refused : place_order 7 9 (two_mugs ∷ two_mugs ∷ []) an_address 100 ≡ err validation
unfolding place_order seen_in text_beq add_money line_total
is_refused = refl

none_of_seven : rows_of 7 empty.events ≡ []
unfolding rows_of
none_of_seven = refl

key_is_free : has (txt "key-0001") empty.keys ≡ false
unfolding has
key_is_free = refl

retry_reports_first_example :
    let s = (handle_place 7 100 a_command (quiet empty)).1 in
    handle_place 8 200 a_command s
    ≡ (ok (record { order_id = 7 ∷ []; status = pending; idempotent = true }), s)
unfolding well_formed
retry_reports_first_example =
    retry_reports_first 7 8 100 200 a_command a_command well_formed well_formed empty refl
      key_is_free

retry_of_refused_example :
    let (r, s) = handle_place 7 100 a_bad_command (quiet empty) in
    let (r', s') = handle_place 8 200 a_command s in
    (r ≡ err validation)
    × (r' ≡ ok (record { order_id = 7 ∷ []; status = pending; idempotent = true }))
    × ((load 7 s').0 ≡ err not_found)
unfolding well_formed well_formed_twice
retry_of_refused_example =
    retry_of_refused 7 8 100 200 a_bad_command a_command well_formed_twice well_formed empty refl
      key_is_free none_of_seven is_refused
