-- ===== src/Inventory/Store/Replays.antt =====
-- Repeated calls of the repository:
-- services/inventory/internal/infra/postgres/inventory_repository.go.
use event_driven_order_fulfi.Common.{ℕ, ◌≡◌, refl, true, some, List, ok}
use event_driven_order_fulfi.Common.Session.{quiet, begin, read, rolled_back}
use event_driven_order_fulfi.Platform.{Platform, Text, Uuid}
use event_driven_order_fulfi.Inventory.Stock.{Reservation, released, release_reservation}
use event_driven_order_fulfi.Inventory.Store.{
  Db, ReserveLine, ReservationRow, by_sku, lines_from, load_lines,
}
use event_driven_order_fulfi.Inventory.Store.Transitions.{
  row_of_order, find_row, rehydrate_reservation, apply_change, transition_once, transition,
  retrying, result_of, release,
}
use event_driven_order_fulfi.Inventory.Store.Holding.{
  find_reservation_by_order, found_reservation, reserve_once, reserve,
}

module _ ⦃p : Platform⦄ where
  -- On a database that answers and that nobody else uses, let an order have a reservation that is
  -- released and whose stored lines are valid. Releasing it again succeeds, reports the reservation as a
  -- replay, and changes nothing: no unit is released twice.
  pub release_again :
      (i : Text) (d : Db) (row : ReservationRow) (res : Reservation)
      → let lines = by_sku (lines_from row.id d.lines) in
        row_of_order i d.reservations ≡ some row
        → rehydrate_reservation (p.uuid_string row.id) i row.status lines ≡ ok res
        → res.status ≡ released
        → release i (quiet d) ≡ (ok (result_of row i released lines true), quiet d)
  unfolding release transition retrying transition_once rolled_back begin find_row read load_lines
      release_reservation apply_change
  release_again i d row res found again st = rw (found, again, st) refl

  -- On a database that answers and that nobody else uses, reserving for an order that has a reservation,
  -- with whatever lines, succeeds, reports the reservation that there is as a replay, and changes
  -- nothing.
  pub reserve_again :
      (ids : ℕ → Uuid) (oid : Uuid) (wanted : List ReserveLine) (d : Db) (row : ReservationRow)
      → row_of_order (p.uuid_string oid) d.reservations ≡ some row
      → reserve ids oid wanted (quiet d) ≡ (
        ok (result_of row (p.uuid_string oid) row.status (by_sku (lines_from row.id d.lines)) true),
        quiet d,
      )
  unfolding reserve retrying reserve_once rolled_back begin find_reservation_by_order
      found_reservation find_row read load_lines
  reserve_again ids oid wanted d row found = rw found refl
