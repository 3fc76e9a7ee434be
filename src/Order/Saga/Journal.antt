-- ===== src/Order/Saga/Journal.antt =====
-- Which calls of the saga are in order, given the calls before them, and which saga rows agree with
-- the calls, services/order/internal/app/saga/orchestrator.go.
use event_driven_order_fulfi.Common.{
  ◌≡◌, true, false, some, List, [], ◌∷◌, ok, err, ◌⊎◌, inl, inr, ◌==◌, Bool-cases, eq_of_==,
}
use event_driven_order_fulfi.Common.Text.{text_key}
use event_driven_order_fulfi.Common.Table.{lookup, put, lookup-put}
use event_driven_order_fulfi.Platform.{Text}
use event_driven_order_fulfi.Order.Saga.{
  State, started, reserved, paid, completed, cancelled, Instance, rejected, ReserveLine,
  PaymentRequest, PaymentResult, Call, reserving, releasing, committing, confirming, authorizing,
  cancelling, World, upsert,
}

abbrev pub Happened : Call → List Call → Type 0
Happened c [] = ⊥
Happened c (x ∷ past) = (c ≡ x) ⊎ Happened c past

-- Everything that happened before has still happened.
abbrev pub Later : List Call → List Call → Type 0
Later past now = (c : Call) → Happened c past → Happened c now

abbrev pub Held : Text → List Call → Type 0
Held i past = (lines : List ReserveLine) × Happened (reserving i lines (ok tt)) past

abbrev pub Refused : Text → List Call → Type 0
Refused i past = (lines : List ReserveLine) × Happened (reserving i lines (err rejected)) past

abbrev pub Charged : Text → List Call → Type 0
Charged i past =
    (req : PaymentRequest) × (res : PaymentResult) × (req.order_id ≡ i)
    × (res.approved ≡ true)
    × Happened (authorizing req (ok res)) past

abbrev pub Declined : Text → List Call → Type 0
Declined i past =
    (req : PaymentRequest) × (res : PaymentResult) × (req.order_id ≡ i)
    × (res.approved ≡ false)
    × Happened (authorizing req (ok res)) past

-- A call may be made: payment once stock is held, the commit once payment is approved, the
-- confirmation once the stock is committed too, the release once payment is declined, and the
-- cancellation once the stock was refused, or payment was declined and the stock released.
abbrev pub InOrder : Call → List Call → Type 0
InOrder (reserving i lines r) past = Unit
InOrder (authorizing req r) past = Held req.order_id past
InOrder (committing i r) past = Charged i past
InOrder (confirming i r) past = Charged i past × Happened (committing i (ok tt)) past
InOrder (releasing i r) past = Declined i past
InOrder (cancelling i reason r) past =
    Refused i past ⊎ (Declined i past × Happened (releasing i (ok tt)) past)

abbrev pub AllInOrder : List Call → Type 0
AllInOrder [] = Unit
AllInOrder (c ∷ past) = InOrder c past × AllInOrder past

-- The calls that a saga in this state rests on have been answered.
abbrev pub Reached : State → Text → Text → List Call → Type 0
Reached started i reason calls = Unit
Reached reserved i reason calls = Held i calls
Reached paid i reason calls = Charged i calls
Reached completed i reason calls = Charged i calls × Happened (confirming i (ok tt)) calls
Reached cancelled i reason calls = Happened (cancelling i reason (ok tt)) calls

abbrev pub Backed : Instance → List Call → Type 0
Backed inst calls = Reached inst.state inst.order_id inst.reason calls

pub record IsConsistent (w : World) : Type 0 where
  pub in_order : AllInOrder w.calls
  pub rows :
      (i : Text) (inst : Instance)
      → lookup i w.sagas ≡ some inst
      → (inst.order_id ≡ i) × Backed inst w.calls

pub Held-Later : (i : Text) (l k : List Call) → Later l k → Held i l → Held i k
Held-Later i l k f (lines, h) = (lines, f _ h)

pub Charged-Later : (i : Text) (l k : List Call) → Later l k → Charged i l → Charged i k
Charged-Later i l k f (req, res, a, b, h) = (req, res, a, b, f _ h)

pub Declined-Later : (i : Text) (l k : List Call) → Later l k → Declined i l → Declined i k
Declined-Later i l k f (req, res, a, b, h) = (req, res, a, b, f _ h)

pub Reached-Later :
    (st : State) (i reason : Text) (l k : List Call)
    → Later l k
    → Reached st i reason l
    → Reached st i reason k
Reached-Later started i reason l k f h = tt
Reached-Later reserved i reason l k f h = Held-Later i l k f h
Reached-Later paid i reason l k f h = Charged-Later i l k f h
Reached-Later completed i reason l k f h = (Charged-Later i l k f h.0, f _ h.1)
Reached-Later cancelled i reason l k f h = f _ h

-- A further call that is in order leaves the world consistent.
pub called-IsConsistent :
    (c : Call) (w : World)
    → InOrder c w.calls
    → IsConsistent w
    → IsConsistent (record w { calls = c ∷ w.calls })
called-IsConsistent c w o h = record {
  in_order = (o, h.in_order);
  rows = λ i inst e.
      let (same, b) = h.rows i inst e in
      (
        same,
        Reached-Later inst.state inst.order_id inst.reason w.calls (c ∷ w.calls) (λ _ x. inr x) b,
      );
}

-- So does a saved row that rests on calls that were answered.
pub upsert-IsConsistent :
    (inst : Instance) (w : World)
    → Backed inst w.calls
    → IsConsistent w
    → IsConsistent (upsert inst w)
upsert-IsConsistent inst w b h = record {
  in_order = h.in_order;
  rows = λ i row e. upserted i row e (Bool-cases (inst.order_id == i));
}
  where
    upserted :
        (i : Text) (row : Instance)
        → lookup i (put inst.order_id inst w.sagas) ≡ some row
        → ((inst.order_id == i) ≡ true) ⊎ ((inst.order_id == i) ≡ false)
        → (row.order_id ≡ i) × Backed row w.calls
    upserted i row e (inl t) =
        let same : inst ≡ row = cc (e, lookup-put inst.order_id i inst w.sagas, t) in
        rw (← same) (eq_of_== inst.order_id i t, b)
    upserted i row e (inr f) = h.rows i row (cc (e, lookup-put inst.order_id i inst w.sagas, f))
