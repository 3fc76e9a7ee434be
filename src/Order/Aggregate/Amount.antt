-- ===== src/Order/Aggregate/Amount.antt =====
-- The total of an order in minor units: exact while it fits an `int64`, and not checked beyond.
use event_driven_order_fulfi.Common.{
  ℕ, ◌+◌, ◌*◌, ◌-◌, ◌≤◌, ◌<◌, ◌≡◌, ◌≢◌, refl, ◌∙◌, List, [], ◌∷◌, ok, arith, All, ap,
}
use event_driven_order_fulfi.Common.Int.{
  pos, negsuc, pos_part, int64_bound, add64, mul64, add64_small, mul64_small, mul64_overflow,
  add64_zero_neg,
}
use event_driven_order_fulfi.Common.Text.{text_beq}
use event_driven_order_fulfi.Platform.{Time, nil_uuid}
use event_driven_order_fulfi.Order.Values.{
  Sku, Money, LineItem, Address, OrderId, CustomerId, line_total, add_money,
}
use event_driven_order_fulfi.Order.Aggregate.{
  Order, sum_items, seen_in, total_of, place_order, raise, apply,
}
use event_driven_order_fulfi.Order.Aggregate.History.{place_order-inv, placement}
use event_driven_order_fulfi.Order.Aggregate.Totals.{
  sum_items-cons, add_money-inv, place_order_of_total,
}

-- The line's price and quantity are not negative, as `NewMoney` and `NewQuantity` ensure.
abbrev pub IsCounted : LineItem → Type 0
IsCounted li =
    (li.unit_price.minor_units ≡ pos (pos_part li.unit_price.minor_units))
    × (li.quantity ≡ pos (pos_part li.quantity))

abbrev pub line_amount : LineItem → ℕ
line_amount li = pos_part li.unit_price.minor_units * pos_part li.quantity

-- The sum of price times quantity, with no bound on its size.
abbrev pub amount : List LineItem → ℕ
amount [] = 0
amount (li ∷ rest) = line_amount li + amount rest

line_total_exact :
    (li : LineItem)
    → IsCounted li
    → line_amount li < int64_bound
    → (line_total li).minor_units ≡ pos (line_amount li)
unfolding line_total
line_total_exact li (p, q) h = rw (p, q) (mul64_small _ _ h)

sum_items_exact :
    (seen : List Sku) (t : Money) (items : List LineItem) (a : ℕ) {m : Money}
    → t.minor_units ≡ pos a
    → All IsCounted items
    → a + amount items < int64_bound
    → sum_items seen t items ≡ ok m
    → m.minor_units ≡ pos (a + amount items)
unfolding sum_items
sum_items_exact seen t [] a e h b k = ground arith
sum_items_exact seen t (li ∷ rest) a e (c, h) b k =
    let (_, (s, added, more)) = sum_items-cons seen t li rest k in
    let (_, _, sum) = add_money-inv t (line_total li) added in
    let line = line_total_exact li c (omega arith) in
    let s_exact : s.minor_units ≡ pos (a + line_amount li) =
      rw (sum, e, line) (add64_small a (line_amount li) (omega arith)) in
    sum_items_exact (li.sku ∷ seen) s rest (a + line_amount li) s_exact h (omega arith) more
    ∙ ap pos (omega arith)

total_of_exact :
    (items : List LineItem) {m : Money}
    → All IsCounted items
    → amount items < int64_bound
    → total_of items ≡ ok m
    → m.minor_units ≡ pos (amount items)
unfolding total_of
total_of_exact [] h b k = cc
total_of_exact (li ∷ rest) h b k =
    sum_items_exact [] _ (li ∷ rest) 0 refl h (omega arith) k ∙ ap pos (omega arith)

-- If no price and no quantity is negative and the sum of price times quantity fits an `int64`, the
-- total of an accepted order is that sum: no step on the way wraps.
pub place_order_exact :
    (i : OrderId) (c : CustomerId) (items : List LineItem) (a : Address) (t : Time) {o : Order}
    → All IsCounted items
    → amount items < int64_bound
    → place_order i c items a t ≡ ok o
    → o.total.minor_units ≡ pos (amount items)
unfolding raise apply
place_order_exact i c items a t h b k =
    let (_, (m, e, made)) = place_order-inv i c items a t k in rw made (total_of_exact items h b e)

-- The order of one line, at a price and a quantity.
abbrev pub one_line : Sku → ℕ → ℕ → List LineItem
one_line k price quantity =
    record {
      sku = k;
      quantity = pos quantity;
      unit_price = record { currency = 0x45 ∷ 0x55 ∷ 0x52 ∷ []; minor_units = pos price };
    }
    ∷ []

total_of-one_line :
    (k : Sku) (p q : ℕ)
    → total_of (one_line k p q)
      ≡ ok (record {
        currency = 0x45 ∷ 0x55 ∷ 0x52 ∷ [];
        minor_units = add64 (pos 0) (mul64 (pos p) (pos q));
      })
unfolding total_of sum_items line_total add_money seen_in text_beq
total_of-one_line k p q = refl

-- A single line in euros, whose price times quantity lies between 2 ^ 63 and 2 ^ 64, is accepted
-- under an id that is not nil, and the order's total is that product less 2 ^ 64, a negative
-- amount.
pub place_order_overflow :
    (i : OrderId) (c : CustomerId) (k : Sku) (p q : ℕ) (a : Address) (t : Time)
    → i ≢ nil_uuid
    → int64_bound ≤ p * q
    → p * q < 18446744073709551616
    → (o : Order) × (place_order i c (one_line k p q) a t ≡ ok o)
      × (o.total.minor_units ≡ negsuc (18446744073709551615 - p * q))
unfolding raise apply
place_order_overflow i c k p q a t n low high = (
  placement i c (one_line k p q) a t _,
  place_order_of_total i c (one_line k p q) a t _ n (total_of-one_line k p q),
  rw (mul64_overflow p q low high) (add64_zero_neg (18446744073709551615 - p * q) (omega arith)),
)
