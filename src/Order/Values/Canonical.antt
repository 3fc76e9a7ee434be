-- ===== src/Order/Values/Canonical.antt =====
-- The constructors of the value objects are projections: what one has accepted it accepts again,
-- unchanged. So a value survives being stored as its fields and built anew.
use event_driven_order_fulfi.Common.{◌≡◌, refl, [], ◌∷◌, arith, ok}
use event_driven_order_fulfi.Common.Int.{ℤ}
use event_driven_order_fulfi.Common.Text.{
  text_beq_iff, byte_len, trim_space, trim_space-trim_space, trim_space-map,
}
use event_driven_order_fulfi.Platform.{Platform, Text, to_upper}
use event_driven_order_fulfi.Order.Values.{
  Money, Address, new_sku, new_quantity, new_money, new_address,
}

-- A constructor that trims its text accepts the trimmed text, and gives it back.
pub new_sku_again : (s k : Text) → new_sku s ≡ ok k → new_sku k ≡ ok k
unfolding new_sku
new_sku_again s k h =
    let e : trim_space s ≡ k = ground arith in
    let t : trim_space k ≡ k = rw (← e) (trim_space-trim_space s) in rw t (rw e at h)

pub new_quantity_again : (v q : ℤ) → new_quantity v ≡ ok q → new_quantity q ≡ ok q
unfolding new_quantity
new_quantity_again v q h = ground arith

module _ ⦃p : Platform⦄ where
  to_upper-to_upper : (s : Text) → to_upper (to_upper s) ≡ to_upper s
  unfolding to_upper
  to_upper-to_upper [] = refl
  to_upper-to_upper (c ∷ s) = ground (arith, p.upper-upper c, to_upper-to_upper s)

  trim_space-to_upper : (s : Text) → trim_space (to_upper s) ≡ to_upper (trim_space s)
  unfolding to_upper
  trim_space-to_upper s = trim_space-map p.upper_rune p.is_space-upper s

  -- Normalised text stays as it is.
  upper_trim_again :
      (s : Text) → to_upper (trim_space (to_upper (trim_space s))) ≡ to_upper (trim_space s)
  upper_trim_again s =
      rw (trim_space-to_upper (trim_space s), trim_space-trim_space s)
        (to_upper-to_upper (trim_space s))

  -- What `NewMoney` returns it accepts again, and returns as it is.
  pub new_money_again :
      (c : Text) (u : ℤ) (m : Money)
      → new_money c u ≡ ok m
      → new_money m.currency m.minor_units ≡ ok m
  unfolding new_money
  new_money_again c u m h =
      let e : to_upper (trim_space c) ≡ m.currency = ground arith in
      let t : to_upper (trim_space m.currency) ≡ m.currency = rw (← e) (upper_trim_again c) in
      rw t (ground arith)

  -- What `NewAddress` returns it accepts again, field by field, and returns as it is.
  pub new_address_again :
      (l1 l2 c r z k : Text) (a : Address)
      → new_address l1 l2 c r z k ≡ ok a
      → new_address a.line1 a.line2 a.city a.region a.postal_code a.country ≡ ok a
  unfolding new_address byte_len
  new_address_again l1 l2 c r z k a h = ground (
    arith,
    trim_space-trim_space l1,
    trim_space-trim_space l2,
    trim_space-trim_space c,
    trim_space-trim_space r,
    trim_space-trim_space z,
    upper_trim_again k,
    trim_space-to_upper (trim_space k),
    trim_space-trim_space k,
    text_beq_iff (to_upper (trim_space k)) [],
  )
