-- ===== src/Inventory/Service.antt =====
-- The use cases of the inventory service, services/inventory/internal/app/reserve.go,
-- reservation_lifecycle.go and stock.go, over the repository. Logging, metrics and tracing are left out.
pub mod Checking
use event_driven_order_fulfi.Common.{ℕ, if◌then◌else◌}
use event_driven_order_fulfi.Common.Int.{ℤ, pos, ltb_ℤ}
use event_driven_order_fulfi.Common.Session.{Action, raise, lift, ◌>>=◌}
use event_driven_order_fulfi.Platform.{Platform, Text, Uuid}
use event_driven_order_fulfi.Inventory.Stock.{
  Error, validation, StockItem, new_sku, new_quantity, parse_order_id,
}
use event_driven_order_fulfi.Inventory.Requests.{ReserveStockCommand, checked}
use event_driven_order_fulfi.Inventory.Store.{Db, ReservationResult, get_stock, upsert_stock}
use event_driven_order_fulfi.Inventory.Store.Transitions.{release, commit_stock}
use event_driven_order_fulfi.Inventory.Store.Holding.{reserve, get_reservation}

module _ ⦃p : Platform⦄ where
  -- `ReserveStockHandler.Handle`; `ids` gives the reservation id of each attempt.
  unfoldable pub reserve_stock :
      (ℕ → Uuid) → ReserveStockCommand → Action Db Error ReservationResult
  unfolding checked
  reserve_stock ids cmd = do
    oid ← lift (parse_order_id cmd.order_id)
    lines ← lift (checked cmd.lines)
    reserve ids oid lines

  -- `ReleaseReservationHandler.Handle`
  unfoldable pub release_stock : Text → Action Db Error ReservationResult
  release_stock order_id = do oid ← lift (parse_order_id order_id); release (p.uuid_string oid)

  -- `CommitReservationHandler.Handle`
  unfoldable pub commit_order : Text → Action Db Error ReservationResult
  commit_order order_id = do oid ← lift (parse_order_id order_id); commit_stock (p.uuid_string oid)

  -- `GetReservationHandler.Handle`
  unfoldable pub read_reservation : Text → Action Db Error ReservationResult
  read_reservation order_id = do
    oid ← lift (parse_order_id order_id)
    get_reservation (p.uuid_string oid)

-- `GetStockHandler.Handle`
unfoldable pub read_stock : Text → Action Db Error StockItem
read_stock raw = do sku ← lift (new_sku raw); get_stock sku

-- `SetStockHandler.Handle`
unfoldable pub set_stock : Text → ℤ → Action Db Error (Unit {0})
set_stock raw available = do
  sku ← lift (new_sku raw)
  if ltb_ℤ available (pos 0) then raise validation else upsert_stock sku available
