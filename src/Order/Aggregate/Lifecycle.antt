-- ===== src/Order/Aggregate/Lifecycle.antt =====
-- The lifecycle of an order: the first decision is final.
use event_driven_order_fulfi.Common.{
  ◌+◌, ◌≡◌, refl, List, [], ◌∷◌, ok, err, arith, ◌⊎◌, inl, inr, value_or, length, length-append,
}
use event_driven_order_fulfi.Platform.{Text, Time}
use event_driven_order_fulfi.Order.Values.{pending, confirmed, cancelled, invalid_transition}
use event_driven_order_fulfi.Order.Aggregate.{
  confirmed_at, cancelled_at, Order, raise, apply, confirm, confirm_from, cancel, cancel_from,
}

-- The calls that the saga makes on an order.
pub data Call : Type 0 where
  confirming : Time → Call
  cancelling : Text → Time → Call

-- A call that fails leaves the order as it was.
abbrev pub after : Call → Order → Order
after (confirming t) o = value_or o (confirm t o)
after (cancelling r t) o = value_or o (cancel r t o)

abbrev pub run : List Call → Order → Order
run [] o = o
run (c ∷ calls) o = run calls (after c o)

-- An order that is confirmed or cancelled.
abbrev pub IsDecided : Order → Type 0
IsDecided o = (o.status ≡ confirmed) ⊎ (o.status ≡ cancelled)

after_decided : (c : Call) (o : Order) → IsDecided o → after c o ≡ o
unfolding confirm confirm_from cancel cancel_from
after_decided (confirming t) o (inl e) = rw (e, confirm, confirm_from)
after_decided (confirming t) o (inr e) = rw (e, confirm, confirm_from)
after_decided (cancelling r t) o (inl e) = rw (e, cancel, cancel_from)
after_decided (cancelling r t) o (inr e) = rw (e, cancel, cancel_from)

run_decided : (calls : List Call) (o : Order) → IsDecided o → run calls o ≡ o
run_decided [] o h = refl
run_decided (c ∷ calls) o h = rw (after_decided c o h) (run_decided calls o h)

after_pending : (c : Call) (o : Order) → o.status ≡ pending → IsDecided (after c o)
unfolding confirm confirm_from cancel cancel_from raise apply
after_pending (confirming t) o e = rw (e, confirm, confirm_from) (inl refl)
after_pending (cancelling r t) o e = rw (e, cancel, cancel_from) (inr refl)

staged :
    (c : Call) (o : Order) → o.status ≡ pending → length (after c o).changes ≡ length o.changes + 1
unfolding confirm confirm_from cancel cancel_from raise apply
staged (confirming t) o e =
    rw (e, confirm, confirm_from)
      (omega (arith, length-append o.changes (confirmed_at o.id t ∷ [])))
staged (cancelling r t) o e =
    rw (e, cancel, cancel_from)
      (omega (arith, length-append o.changes (cancelled_at o.id r t ∷ [])))

counted : (c : Call) (o : Order) → o.status ≡ pending → (after c o).version ≡ o.version + 1
unfolding confirm confirm_from cancel cancel_from raise apply
counted (confirming t) o e = rw (e, confirm, confirm_from) (omega arith)
counted (cancelling r t) o e = rw (e, cancel, cancel_from) (omega arith)

-- Whatever calls follow, in any order and with any repetitions, the first call on a pending order
-- decides it: it stages exactly one event and raises the version by one, and no later call changes
-- the order or stages an event.
pub first_call_decides :
    (c : Call) (calls : List Call) (o : Order)
    → o.status ≡ pending
    → (run (c ∷ calls) o ≡ after c o)
      × IsDecided (after c o)
      × (length (after c o).changes ≡ length o.changes + 1)
      × ((after c o).version ≡ o.version + 1)
unfolding confirm confirm_from cancel cancel_from raise apply
first_call_decides c calls o e =
    let d = after_pending c o e in (run_decided calls (after c o) d, d, staged c o e, counted c o e)

-- Once an order is decided the opposite call is refused, and the same call succeeds and does
-- nothing.
pub decided_calls :
    (t : Time) (r : Text) (o : Order)
    → (o.status ≡ confirmed → (confirm t o ≡ ok o) × (cancel r t o ≡ err invalid_transition))
      × (o.status ≡ cancelled → (cancel r t o ≡ ok o) × (confirm t o ≡ err invalid_transition))
unfolding confirm confirm_from cancel cancel_from
decided_calls t r o = ground arith
