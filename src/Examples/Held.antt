-- ===== src/Examples/Held.antt =====
-- The theorems on the inventory repository, at a reservation of two mugs.
use event_driven_order_fulfi.Common.{true, some, ok, ◌≡◌, refl, List, [], ◌∷◌, err}
use event_driven_order_fulfi.Common.Int.{pos, add64, sub64, wrap64}
use event_driven_order_fulfi.Common.Text.{txt, text_beq, trim_space, is_space, byte_len}
use event_driven_order_fulfi.Common.Table.{lookup}
use event_driven_order_fulfi.Common.Session.{
  Session, Turn, served, refused, quiet, begin, read, write, rolled_back,
}
use event_driven_order_fulfi.Common.Session.Drift.{Drift}
use event_driven_order_fulfi.Common.Session.Atomic.{Answered}
use event_driven_order_fulfi.Inventory.Stock.{
  Reservation, Error, storage, validation, insufficient_stock, StockItem, held, released, reserve,
  new_sku, new_quantity, parse_order_id, parse_reservation_id, release_reservation,
}
use event_driven_order_fulfi.Inventory.Stock
use event_driven_order_fulfi.Inventory.Store.Replays.{release_again}
use event_driven_order_fulfi.Inventory.Requests.{ReserveStockCommand}
use event_driven_order_fulfi.Inventory.Service.{reserve_stock}
use event_driven_order_fulfi.Inventory.Service.Checking.{Handled, reserve_stock-Handled}
use event_driven_order_fulfi.Inventory.Store.{
  ReservationRow, lines_from, Db, ReserveLine, change_lines, load_lines, update_stock, by_sku,
  change_line, after_update,
}
use event_driven_order_fulfi.Inventory.Store.Transitions.{
  release, result_of, transition, transition_once, find_row, row_of_order, rehydrate_reservation,
  domain_lines, apply_change, finish, retrying,
}
use event_driven_order_fulfi.Inventory.Store.Atomicity.{transition_atomic}
use event_driven_order_fulfi.Inventory.Store.Holding
use event_driven_order_fulfi.Inventory.Store.HoldAtomicity.{reserve_atomic}
use event_driven_order_fulfi.Examples.{one_point}

abbrev mugs : StockItem
mugs = record { sku = txt "MUG-1"; available = pos 3; reserved = pos 2; version = pos 1 }

abbrev two : ReserveLine
two = record { sku = txt "MUG-1"; quantity = pos 2 }

abbrev nine : ReserveLine
nine = record { sku = txt "MUG-1"; quantity = pos 9 }

abbrev shelf : Db
shelf = record {
  stock = (txt "MUG-1", mugs) ∷ [];
  reservations = record { id = 5; order_id = 7; status = held } ∷ [];
  lines = record { reservation_id = 5; line = two } ∷ [];
}

-- The status update, after the ledger has changed, is refused.
abbrev interrupted : Session Db
interrupted = record {
  committed = shelf;
  view = shelf;
  turns =
      record { others = λ d. d; reply = served }
      ∷ record { others = λ d. d; reply = served }
      ∷ record { others = λ d. d; reply = served }
      ∷ record { others = λ d. d; reply = served }
      ∷ record { others = λ d. d; reply = served }
      ∷ record { others = λ d. d; reply = refused }
      ∷ [];
}

abbrev on_time : Turn Db
on_time = record { others = λ d. d; reply = served }

Answered-on_time : (ts : List (Turn Db)) → Answered ts → Answered (on_time ∷ ts)
Answered-on_time ts h = (λ e. cc, h)

abbrev last_refused : List (Turn Db)
last_refused = record { others = λ d. d; reply = refused } ∷ []

Answered-refused : Answered last_refused
Answered-refused = (λ e. cc, tt)

interrupted-Answered : Answered interrupted.turns
interrupted-Answered =
    let a1 : Answered (on_time ∷ last_refused) = Answered-on_time last_refused Answered-refused in
    let a2 : Answered (on_time ∷ on_time ∷ last_refused) =
      Answered-on_time (on_time ∷ last_refused) a1 in
    let a3 : Answered (on_time ∷ on_time ∷ on_time ∷ last_refused) =
      Answered-on_time (on_time ∷ on_time ∷ last_refused) a2 in
    let a4 : Answered (on_time ∷ on_time ∷ on_time ∷ on_time ∷ last_refused) =
      Answered-on_time (on_time ∷ on_time ∷ on_time ∷ last_refused) a3 in
    Answered-on_time (on_time ∷ on_time ∷ on_time ∷ on_time ∷ last_refused) a4

release_fails : (transition (7 ∷ []) released interrupted).0 ≡ err storage
unfolding transition transition_once find_row row_of_order rehydrate_reservation domain_lines
    apply_change finish retrying change_lines load_lines update_stock change_line after_update
    release_reservation new_sku new_quantity parse_order_id parse_reservation_id begin read write
    rolled_back text_beq trim_space is_space byte_len lookup Stock.release add64 wrap64 sub64
release_fails = refl

transition_atomic_example : Drift interrupted (transition (7 ∷ []) released interrupted).1
transition_atomic_example =
    transition_atomic (7 ∷ []) released interrupted interrupted-Answered (rw release_fails tt)

reserve_fails :
    (Holding.reserve (λ left. left) 8 (nine ∷ []) (quiet shelf)).0 ≡ err insufficient_stock
unfolding Holding.reserve Holding.reserve_once rolled_back begin Holding.find_reservation_by_order
    find_row read text_beq Holding.hold by_sku new_sku trim_space is_space byte_len lookup reserve
reserve_fails = refl

reserve_atomic_example :
    Drift (quiet shelf) (Holding.reserve (λ left. left) 8 (nine ∷ []) (quiet shelf)).1
reserve_atomic_example =
    reserve_atomic (λ left. left) 8 (nine ∷ []) (quiet shelf) tt (rw reserve_fails tt)

abbrev the_row : ReservationRow
the_row = record { id = 5; order_id = 7; status = released }

abbrev released_two : Reservation
released_two = record {
  id = 5;
  order_id = 7;
  status = released;
  lines = record { sku = txt "MUG-1"; quantity = pos 2 } ∷ [];
}

abbrev gone : Db
gone = record shelf { reservations = the_row ∷ [] }

finds_row : row_of_order (7 ∷ []) gone.reservations ≡ some the_row
unfolding row_of_order text_beq
finds_row = refl

the_reservation :
    rehydrate_reservation (5 ∷ []) (7 ∷ []) released (by_sku (lines_from 5 gone.lines))
    ≡ ok released_two
unfolding rehydrate_reservation domain_lines lines_from by_sku new_sku new_quantity parse_order_id
    parse_reservation_id trim_space is_space byte_len text_beq
the_reservation = refl

release_again_example :
    release (7 ∷ []) (quiet gone)
    ≡ (ok (result_of the_row (7 ∷ []) released (by_sku (lines_from 5 gone.lines)) true), quiet gone)
release_again_example =
    release_again (7 ∷ []) gone the_row released_two finds_row the_reservation refl

-- Two lines with one SKU, up to white space.
abbrev twice : ReserveStockCommand
twice = record {
  order_id = 7 ∷ [];
  lines =
      record { sku = txt "MUG-1"; quantity = pos 2 }
      ∷ record { sku = txt " MUG-1"; quantity = pos 1 }
      ∷ [];
}

reserve_stock-Handled_example :
    Handled (λ left. left) twice (quiet shelf) (reserve_stock (λ left. left) twice (quiet shelf))
reserve_stock-Handled_example = reserve_stock-Handled (λ left. left) twice (quiet shelf)

twice_is_refused : reserve_stock (λ left. left) twice (quiet shelf) ≡ (err validation, quiet shelf)
unfolding reserve_stock parse_order_id trim_space is_space new_sku text_beq byte_len new_quantity
twice_is_refused = refl
