-- ===== src/Inventory/Requests.antt =====
-- The checks that services/inventory/internal/app/reserve.go makes of a command's lines.
pub mod Checking
use event_driven_order_fulfi.Common.{
  Bool, false, ◌||◌, List, [], ◌∷◌, if◌then◌else◌, Outcome, ok, err, ◌>>=◌,
}
use event_driven_order_fulfi.Common.Int.{ℤ}
use event_driven_order_fulfi.Common.Text.{text_beq}
use event_driven_order_fulfi.Platform.{Text}
use event_driven_order_fulfi.Inventory.Stock.{Error, validation, new_sku, new_quantity}
use event_driven_order_fulfi.Inventory.Store.{ReserveLine}

pub record ReserveLineInput : Type 0 where
  pub sku : Text
  pub quantity : ℤ

pub record ReserveStockCommand : Type 0 where
  pub order_id : Text
  pub lines : List ReserveLineInput

unfoldable pub is_seen : Text → List Text → Bool
is_seen s [] = false
is_seen s (x ∷ seen) = text_beq x s || is_seen s seen

-- One line of the command, given the SKUs before it.
unfoldable pub check_line : ReserveLineInput → List Text → Outcome Error ReserveLine
unfolding is_seen
check_line l seen = do
  sku ← new_sku l.sku
  qty ← new_quantity l.quantity
  if is_seen sku seen then err validation else ok (record { sku = sku; quantity = qty })

-- The loop over the lines.
unfoldable pub check_lines : List ReserveLineInput → List Text → Outcome Error (List ReserveLine)
unfolding check_line
check_lines [] seen = ok []
check_lines (l ∷ rest) seen = do
  line ← check_line l seen
  lines ← check_lines rest (line.sku ∷ seen)
  ok (line ∷ lines)

-- At least one line is required.
unfoldable pub checked : List ReserveLineInput → Outcome Error (List ReserveLine)
unfolding check_lines
checked [] = err validation
checked (l ∷ rest) = check_lines (l ∷ rest) []
