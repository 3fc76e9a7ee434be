-- ===== src/Inventory/Service/Checking.antt =====
-- What the use case behind POST /v1/reservations passes on to the repository,
-- services/inventory/internal/app/reserve.go.
use event_driven_order_fulfi.Common.{ℕ, ◌≡◌, inl, inr, map, Outcome, Outcome-cases, ok, err}
use event_driven_order_fulfi.Common.Session.{Session}
use event_driven_order_fulfi.Platform.{Platform, Uuid}
use event_driven_order_fulfi.Inventory.Stock.{Error, parse_order_id}
use event_driven_order_fulfi.Inventory.Store.{Db, ReservationResult}
use event_driven_order_fulfi.Inventory.Store.Holding.{reserve}
use event_driven_order_fulfi.Inventory.Requests.{ReserveStockCommand, checked}
use event_driven_order_fulfi.Inventory.Requests.Checking.{
  IsOrderable, trimmed, checked-IsOrderable, IsOrderable-of_checked,
}
use event_driven_order_fulfi.Inventory.Service.{reserve_stock}

module _ ⦃p : Platform⦄ where
  -- The command names the order and its lines are orderable.
  pub record IsRequest (cmd : ReserveStockCommand) (oid : Uuid) : Type 0 where
    pub names_order : parse_order_id cmd.order_id ≡ ok oid
    pub orderable : IsOrderable cmd.lines

  -- The answers that a command may get.
  pub data Handled (ids : ℕ → Uuid) (cmd : ReserveStockCommand) (s : Session Db)
      : Outcome Error ReservationResult × Session Db → Type 0 where
    refused : (e : Error) → ((oid : Uuid) → ¬ IsRequest cmd oid) → Handled ids cmd s (err e, s)
    passed_on :
        (oid : Uuid)
        → IsRequest cmd oid
        → Handled ids cmd s (reserve ids oid (map trimmed cmd.lines) s)

  -- A command is either a request, that is, it names an order, has lines, all of them valid, and no
  -- SKU twice; then the repository reserves its lines, with their SKUs trimmed. Or it is none; then it
  -- is refused, and no statement reaches the database.
  pub reserve_stock-Handled :
      (ids : ℕ → Uuid) (cmd : ReserveStockCommand) (s : Session Db)
      → Handled ids cmd s (reserve_stock ids cmd s)
  unfolding reserve_stock
  reserve_stock-Handled ids cmd s = elim (Outcome-cases (parse_order_id cmd.order_id)) [
    | inr (e, x) ↦ rw x (refused e (λ oid q. let y = q.names_order in cc))
    | inl (oid, x) ↦ elim (Outcome-cases (checked cmd.lines)) [
      | inr (e, c) ↦
          rw (x, c) (refused e (λ o q. let y = checked-IsOrderable cmd.lines q.orderable in cc))
      | inl (out, c) ↦
          let o = IsOrderable-of_checked cmd.lines out c in
          rw (x, checked-IsOrderable cmd.lines o)
            (passed_on oid (record { names_order = x; orderable = o }))
    ]
  ]
