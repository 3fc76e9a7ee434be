-- ===== src/Examples/Stocks.antt =====
-- The theorems on the inventory service, at one ledger entry and one reservation.
use event_driven_order_fulfi.Common.{ℕ, ◌+◌, ◌≡◌, refl, some, List, [], ◌∷◌, ok, err, arith}
use event_driven_order_fulfi.Common.Int.{pos, add64, sub64, wrap64}
use event_driven_order_fulfi.Common.Text.{txt}
use event_driven_order_fulfi.Inventory.Stock.{
  invalid_transition, insufficient_stock, StockItem, reserve, release, commit, Reservation, held,
  released, commit_reservation,
}
use event_driven_order_fulfi.Inventory.Stock.Ledger.{
  IsSound, units, perform_all, perform_all-Keeps, shipped, Operation, reserving, releasing,
  committing,
}
use event_driven_order_fulfi.Inventory.Stock.Lifecycle
use event_driven_order_fulfi.Inventory.Http.{answer_reserve, answer_transition}
use event_driven_order_fulfi.Order.Saga.{rejected}
use event_driven_order_fulfi.Order.InventoryClient.{read_reserve, read_transition}
use event_driven_order_fulfi.Order.InventoryClient.Reading.{read-answer_reserve, commit_of_released}

abbrev entry : ℕ → ℕ → StockItem
entry a r = record { sku = txt "MUG-1"; available = pos a; reserved = pos r; version = pos 3 }

entry-IsSound : IsSound (entry 10 4)
entry-IsSound = record {
  a = 10;
  r = 4;
  available_eq = refl;
  reserved_eq = refl;
  fits = omega arith;
}

abbrev a_day : List Operation
a_day = reserving (pos 3) ∷ committing (pos 5) ∷ releasing (pos 1) ∷ []

a_day_runs : perform_all a_day (entry 10 4) ≡ ok (entry 8 1)
unfolding reserve release commit sub64 add64 wrap64
a_day_runs = refl

perform_all-Keeps_example :
    IsSound (entry 8 1) × (units (entry 8 1) + shipped a_day ≡ units (entry 10 4))
perform_all-Keeps_example =
    perform_all-Keeps a_day (entry 10 4) (entry 8 1) entry-IsSound a_day_runs

abbrev reservation : Reservation
reservation = record {
  id = 1;
  order_id = 7;
  status = held;
  lines = record { sku = txt "MUG-1"; quantity = pos 3 } ∷ [];
}

first_call_decides_reservation_example :
    (Lifecycle.changes (Lifecycle.releases ∷ Lifecycle.commits ∷ []) reservation ≡ 1)
    × ((Lifecycle.final (Lifecycle.releases ∷ Lifecycle.commits ∷ []) reservation).status
        ≡ released)
first_call_decides_reservation_example =
    Lifecycle.first_call_decides_reservation Lifecycle.releases (Lifecycle.commits ∷ []) reservation
      refl

read-answer_reserve_example :
    read_reserve (some (answer_reserve (err insufficient_stock))) ≡ err rejected
read-answer_reserve_example = read-answer_reserve (err insufficient_stock)

commit_of_released_example :
    (commit_reservation (record reservation { status = released }) ≡ err invalid_transition)
    × (read_transition
          (some (answer_transition (commit_reservation (record reservation { status = released }))))
        ≡ ok tt)
commit_of_released_example = commit_of_released (record reservation { status = released }) refl
