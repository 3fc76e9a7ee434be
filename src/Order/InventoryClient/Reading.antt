-- ===== src/Order/InventoryClient/Reading.antt =====
-- How the order service reads what the inventory service answers:
-- services/order/internal/infra/inventory/client.go against
-- services/inventory/internal/presentation/http/apierrors.go.
use event_driven_order_fulfi.Common.{
  ◌≡◌, refl, Bool, true, false, some, Outcome, ok, err, if◌then◌else◌,
}
use event_driven_order_fulfi.Common.Text.{text_beq}
use event_driven_order_fulfi.Inventory.Stock.{
  Error, validation, invalid_identifier, sku_not_found, insufficient_stock, reservation_not_found,
  concurrency, invalid_transition, storage, Reservation, released, commit_reservation,
}
use event_driven_order_fulfi.Inventory.Http.{classify, answer_reserve, answer_transition}
use event_driven_order_fulfi.Order.Saga.{Fault, rejected, transient}
use event_driven_order_fulfi.Order.InventoryClient.{read_reserve, read_transition}

-- An error that another attempt may not meet.
abbrev pub is_passing : Error → Bool
is_passing concurrency = true
is_passing storage = true
is_passing _ = false

-- What the saga should read from the outcome of a reservation.
abbrev pub expected : Outcome Error Bool → Outcome Fault (Unit {0})
expected (ok idempotent) = ok tt
expected (err e) = if is_passing e then err transient else err rejected

-- Whatever the inventory service's reservation returns, the client reads a success as a success, a
-- replay included, a version conflict and a failed database as transient, and every other error as
-- a rejection.
pub read-answer_reserve :
    (r : Outcome Error Bool) → read_reserve (some (answer_reserve r)) ≡ expected r
unfolding read_reserve answer_reserve classify text_beq
read-answer_reserve (ok true) = refl
read-answer_reserve (ok false) = refl
read-answer_reserve (err validation) = refl
read-answer_reserve (err invalid_identifier) = refl
read-answer_reserve (err sku_not_found) = refl
read-answer_reserve (err insufficient_stock) = refl
read-answer_reserve (err reservation_not_found) = refl
read-answer_reserve (err concurrency) = refl
read-answer_reserve (err invalid_transition) = refl
read-answer_reserve (err storage) = refl

-- A commit of a reservation that was released is refused as an invalid transition, and the client
-- reads the answer as a success.
pub commit_of_released :
    (r : Reservation)
    → r.status ≡ released
    → (commit_reservation r ≡ err invalid_transition)
      × (read_transition (some (answer_transition (commit_reservation r))) ≡ ok tt)
unfolding commit_reservation read_transition answer_transition classify text_beq
commit_of_released r e = rw e (refl, refl)
