-- ===== src/Examples/Orders.antt =====
-- The theorems on orders in memory, at the order of two mugs.
use event_driven_order_fulfi.Common.{◌≡◌, refl, [], ◌∷◌, ok, arith, length, ◌↔◌}
use event_driven_order_fulfi.Common.Int.{pos, negsuc, add64, mul64, wrap64}
use event_driven_order_fulfi.Common.Text.{txt, text_beq}
use event_driven_order_fulfi.Order.Values.{add_money, line_total}
use event_driven_order_fulfi.Order.Aggregate.{Order, place_order, seen_in}
use event_driven_order_fulfi.Order.Aggregate.History.{places, Holds-IsSourced, IsSourced}
use event_driven_order_fulfi.Order.Aggregate.Lifecycle
use event_driven_order_fulfi.Order.Aggregate.Totals.{place_order_accepts, CanPlace}
use event_driven_order_fulfi.Order.Aggregate.Amount.{
  place_order_exact, place_order_overflow, one_line,
}
use event_driven_order_fulfi.Examples.{one_point, two_mugs, an_address, the_order, the_new_order}

pub is_placed : place_order 7 9 (two_mugs ∷ []) an_address 100 ≡ ok the_new_order
unfolding place_order seen_in add_money line_total text_beq add64 wrap64 mul64
is_placed = refl

Holds-IsSourced_example : IsSourced [] the_new_order
Holds-IsSourced_example = Holds-IsSourced (places 7 9 (two_mugs ∷ []) an_address 100 is_placed)

first_call_decides_example :
    (Lifecycle.run (Lifecycle.confirming 5 ∷ Lifecycle.cancelling [] 6 ∷ []) the_order
      ≡ Lifecycle.after (Lifecycle.confirming 5) the_order)
    × Lifecycle.IsDecided (Lifecycle.after (Lifecycle.confirming 5) the_order)
    × (length (Lifecycle.after (Lifecycle.confirming 5) the_order).changes ≡ 1)
    × ((Lifecycle.after (Lifecycle.confirming 5) the_order).version ≡ 2)
first_call_decides_example =
    Lifecycle.first_call_decides (Lifecycle.confirming 5) (Lifecycle.cancelling [] 6 ∷ []) the_order
      refl

place_order_accepts_example :
    ((o : Order) × (place_order 7 9 (two_mugs ∷ []) an_address 100 ≡ ok o))
    ↔ CanPlace 7 (two_mugs ∷ [])
place_order_accepts_example = place_order_accepts 7 9 (two_mugs ∷ []) an_address 100

place_order_exact_example : the_new_order.total.minor_units ≡ pos 1000
place_order_exact_example =
    place_order_exact 7 9 (two_mugs ∷ []) an_address 100 ((refl, refl), tt) (omega arith) is_placed

place_order_overflow_example :
    (o : Order) × (place_order 7 9 (one_line (txt "MUG-1") 1000000000000000 10000) an_address 100
      ≡ ok o)
    × (o.total.minor_units ≡ negsuc 8446744073709551615)
place_order_overflow_example =
    place_order_overflow 7 9 (txt "MUG-1") 1000000000000000 10000 an_address 100 (λ e. omega arith)
      (omega arith) (omega arith)
