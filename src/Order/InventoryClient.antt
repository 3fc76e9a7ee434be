-- ===== src/Order/InventoryClient.antt =====
-- The order service's client of the inventory service,
-- services/order/internal/infra/inventory/client.go: how it reads the answers. The call itself, `do`,
-- is from outside, an answer or none for any of its errors; messages are not modelled.
pub mod Reading
use event_driven_order_fulfi.Common.{
  ℕ, Bool, true, false, ◌&&◌, Option, none, some, List, [], Outcome, ok, err, ltb, leb, nat_beq,
  if◌then◌else◌,
}
use event_driven_order_fulfi.Common.Text.{txt, text_beq}
use event_driven_order_fulfi.Platform.{Text}
use event_driven_order_fulfi.Order.Saga.{Fault, rejected, transient}

-- `Client.Reserve`
unfoldable pub read_reserve : Option (ℕ × Text) → Outcome Fault (Unit {0})
read_reserve none = err transient
read_reserve (some (status, code)) =
    if leb 200 status && ltb status 300
    then ok tt
    else if nat_beq status 409 && text_beq code (txt "CONFLICT")
    then err transient
    else if leb 400 status && ltb status 500
    then err rejected
    else err transient

-- `Client.transition`, which `Release` and `Commit` call.
unfoldable pub read_transition : Option (ℕ × Text) → Outcome Fault (Unit {0})
read_transition none = err transient
read_transition (some (status, code)) =
    if leb 200 status && ltb status 300
    then ok tt
    else if nat_beq status 409 && text_beq code (txt "INVALID_STATE")
    then ok tt
    else err transient
