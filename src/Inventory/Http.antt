-- ===== src/Inventory/Http.antt =====
-- The HTTP answers of the inventory service: `classify` and the status codes of the handlers,
-- services/inventory/internal/presentation/http/{apierrors,handlers}.go. Messages and the fields of
-- a success body are not modelled: the order service reads neither.
use event_driven_order_fulfi.Common.{ℕ, Bool, [], Outcome, ok, err, if◌then◌else◌}
use event_driven_order_fulfi.Common.Text.{txt}
use event_driven_order_fulfi.Platform.{Text}
use event_driven_order_fulfi.Inventory.Stock.{
  Error, validation, invalid_identifier, sku_not_found, insufficient_stock, reservation_not_found,
  concurrency, invalid_transition, storage,
}

-- A status and the error code of the body, empty on success.
abbrev pub Answer : Type 0
Answer = ℕ × Text

unfoldable pub classify : Error → Answer
classify validation = (400, txt "VALIDATION_ERROR")
classify invalid_identifier = (400, txt "VALIDATION_ERROR")
classify sku_not_found = (404, txt "NOT_FOUND")
classify reservation_not_found = (404, txt "NOT_FOUND")
classify insufficient_stock = (409, txt "INSUFFICIENT_STOCK")
classify concurrency = (409, txt "CONFLICT")
classify invalid_transition = (409, txt "INVALID_STATE")
classify storage = (500, txt "INTERNAL")

-- `Handlers.Reserve`, given what the use case returned: whether it was a replay, or an error.
unfoldable pub answer_reserve : Outcome Error Bool → Answer
answer_reserve (ok idempotent) = if idempotent then (200, []) else (201, [])
answer_reserve (err e) = classify e

-- `Handlers.Release` and `Handlers.Commit`
unfoldable pub answer_transition {ℓ} : {A : Type ℓ} → Outcome Error A → Answer
answer_transition (ok a) = (200, [])
answer_transition (err e) = classify e
