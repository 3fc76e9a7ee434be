-- ===== src/Order/Saga/Outcomes.antt =====
-- How the saga ends on ports that answer and a database that nobody else uses:
-- services/order/internal/app/saga/orchestrator.go.
use event_driven_order_fulfi.Common.{
  ◌≡◌, refl, ◌∙◌, true, false, none, some, List, [], ◌∷◌, Outcome, ok, map,
}
use event_driven_order_fulfi.Common.Text.{text_key}
use event_driven_order_fulfi.Common.Table.{lookup, lookup-put_self}
use event_driven_order_fulfi.Common.Session.{quiet, exec, read}
use event_driven_order_fulfi.Platform.{Text}
use event_driven_order_fulfi.Contracts.OrderEvents.{OrderPlacedV1}
use event_driven_order_fulfi.Order.Saga.{
  reserved, paid, completed, cancelled, Instance, Fault, PaymentResult, ReserveLine, Call,
  reserving, releasing, committing, confirming, authorizing, cancelling, World, Ports, upsert, load,
  save, ask, unless_rejected, new_instance, terminal, state_beq, cancel, complete, from_paid,
  charged, charge, from_reserved, hold_stock, from_started, handle, reserve_line, payment_request,
  decline_reason, as_reserved, as_paid, as_completed, as_released, as_cancelled,
}

-- The commands after the payment step succeed.
pub record Serves (ports : Ports) : Type 0 where
  pub releases : (past : List Call) (i : Text) → ports.release past i ≡ ok tt
  pub commits : (past : List Call) (i : Text) → ports.commit past i ≡ ok tt
  pub confirms : (past : List Call) (i : Text) → ports.confirm past i ≡ ok tt
  pub cancels : (past : List Call) (i reason : Text) → ports.cancel past i reason ≡ ok tt

abbrev called : Call → World → World
called c w = record w { calls = c ∷ w.calls }

-- After the commit and the confirmation, and after the release and the cancellation.
abbrev finished : OrderPlacedV1 → Instance → World → World
finished ev inst w =
    upsert (as_completed inst)
      (called (confirming ev.order_id (ok tt)) (called (committing ev.order_id (ok tt)) w))

abbrev undone : OrderPlacedV1 → Instance → Text → World → World
undone ev inst reason w =
    upsert (as_cancelled (as_released inst) reason)
      (called (cancelling inst.order_id reason (ok tt)) (called (releasing ev.order_id (ok tt)) w))

module _ {A : Type 0} where
  ask-quiet :
      (answer : List Call → Outcome Fault A) (call : Outcome Fault A → Call) (w : World)
      → ask answer call (quiet w) ≡ (answer w.calls, quiet (called (call (answer w.calls)) w))
  unfolding ask exec
  ask-quiet answer call w = refl

save-quiet : (inst : Instance) (w : World) → save inst (quiet w) ≡ (ok tt, quiet (upsert inst w))
unfolding save exec
save-quiet inst w = refl

load-quiet : (i : Text) (w : World) → load i (quiet w) ≡ (ok (lookup i w.sagas), quiet w)
unfolding load read
load-quiet i w = refl

module _ ⦃ports : Ports⦄ where
  cancel-quiet :
      (inst : Instance) (reason : Text) (w : World)
      → Serves ports
      → cancel inst reason (quiet w) ≡ (
        ok tt,
        quiet (
            upsert (as_cancelled inst reason) (called (cancelling inst.order_id reason (ok tt)) w)),
      )
  unfolding cancel
  cancel-quiet inst reason w h =
      rw (ask-quiet, h.cancels w.calls inst.order_id reason, save-quiet) refl

  complete-quiet :
      (ev : OrderPlacedV1) (inst : Instance) (w : World)
      → ports.commit w.calls ev.order_id ≡ ok tt
      → ports.confirm (committing ev.order_id (ok tt) ∷ w.calls) ev.order_id ≡ ok tt
      → complete ev inst (quiet w) ≡ (ok tt, quiet (finished ev inst w))
  unfolding complete
  complete-quiet ev inst w c f = rw (ask-quiet, c, ask-quiet, f, save-quiet) refl

  charge_approved :
      (ev : OrderPlacedV1) (inst : Instance) (w : World) (res : PaymentResult)
      → Serves ports
      → inst.state ≡ reserved
      → ports.authorize w.calls (payment_request ev) ≡ ok res
      → res.approved ≡ true
      → from_reserved ev inst (quiet w) ≡ (
        ok tt,
        quiet (
            finished ev (as_paid inst res.reference) (
              upsert
                (as_paid inst res.reference)
                (called (authorizing (payment_request ev) (ok res)) w))),
      )
  unfolding from_reserved charge charged from_paid state_beq
  charge_approved ev inst w res h st a good =
      rw (st, ask-quiet, a, good, save-quiet)
        (complete-quiet ev (as_paid inst res.reference) _ (h.commits _ ev.order_id)
          (h.confirms _ ev.order_id))

  charged_declined :
      (ev : OrderPlacedV1) (inst : Instance) (w : World) (res : PaymentResult)
      → Serves ports
      → res.approved ≡ false
      → charged ev inst res (quiet w)
        ≡ (ok tt, quiet (undone ev inst (decline_reason res.decline) w))
  unfolding charged
  charged_declined ev inst w res h bad =
      rw (bad, ask-quiet, h.releases w.calls ev.order_id)
        (cancel-quiet (as_released inst) (decline_reason res.decline) _ h)

  charge_declined :
      (ev : OrderPlacedV1) (inst : Instance) (w : World) (res : PaymentResult)
      → Serves ports
      → inst.state ≡ reserved
      → ports.authorize w.calls (payment_request ev) ≡ ok res
      → res.approved ≡ false
      → from_reserved ev inst (quiet w) ≡ (
        ok tt,
        quiet (
            undone ev inst
              (decline_reason res.decline)
              (called (authorizing (payment_request ev) (ok res)) w)),
      )
  unfolding from_reserved charge state_beq
  charge_declined ev inst w res h st a bad =
      rw (st, ask-quiet, a) (charged_declined ev (record inst { state = reserved }) _ res h bad)

  abbrev lines_of : OrderPlacedV1 → List ReserveLine
  lines_of ev = map reserve_line ev.items

  handle_new :
      (ev : OrderPlacedV1) (w : World)
      → lookup ev.order_id w.sagas ≡ none
      → ports.reserve w.calls ev.order_id (lines_of ev) ≡ ok tt
      → handle ev (quiet w)
        ≡ from_reserved ev (as_reserved (new_instance ev.order_id)) (
            quiet (
              upsert (as_reserved (new_instance ev.order_id)) (
                called
                  (reserving ev.order_id (lines_of ev) (ok tt))
                  (upsert (new_instance ev.order_id) w))))
  unfolding handle terminal state_beq from_started hold_stock unless_rejected
  handle_new ev w absent held =
      rw (load-quiet, absent, save-quiet, ask-quiet, held, save-quiet) refl

  -- On ports that answer and a database that nobody else uses, a new order whose stock is held and
  -- whose payment is approved ends completed, with the payment's reference. The calls are the
  -- reservation, the payment, the commit and the confirmation, once each and in this order.
  pub handle_completes :
      (ev : OrderPlacedV1) (w : World) (res : PaymentResult)
      → Serves ports
      → lookup ev.order_id w.sagas ≡ none
      → let held = reserving ev.order_id (map reserve_line ev.items) (ok tt) in
        ports.reserve w.calls ev.order_id (map reserve_line ev.items) ≡ ok tt
        → ports.authorize (held ∷ w.calls) (payment_request ev) ≡ ok res
        → res.approved ≡ true
        → (w' : World) × (handle ev (quiet w) ≡ (ok tt, quiet w'))
          × (lookup ev.order_id w'.sagas
              ≡ some (record {
                order_id = ev.order_id;
                state = completed;
                reservation_held = false;
                payment_ref = res.reference;
                reason = [];
              }))
          × (w'.calls
              ≡ confirming ev.order_id (ok tt)
                ∷ committing ev.order_id (ok tt)
                ∷ authorizing (payment_request ev) (ok res)
                ∷ held
                ∷ w.calls)
  handle_completes ev w res h absent held a good = (
    _,
    handle_new ev w absent held ∙ charge_approved ev _ _ res h refl a good,
    lookup-put_self ev.order_id _ _,
    refl,
  )

  -- On ports that answer and a database that nobody else uses, a new order whose stock is held and
  -- whose payment is declined ends cancelled, with no reservation held and with the reason. The
  -- calls are the reservation, the payment, the release and the cancellation.
  pub handle_compensates :
      (ev : OrderPlacedV1) (w : World) (res : PaymentResult)
      → Serves ports
      → lookup ev.order_id w.sagas ≡ none
      → let held = reserving ev.order_id (map reserve_line ev.items) (ok tt) in
        ports.reserve w.calls ev.order_id (map reserve_line ev.items) ≡ ok tt
        → ports.authorize (held ∷ w.calls) (payment_request ev) ≡ ok res
        → res.approved ≡ false
        → (w' : World) × (handle ev (quiet w) ≡ (ok tt, quiet w'))
          × (lookup ev.order_id w'.sagas
              ≡ some (record {
                order_id = ev.order_id;
                state = cancelled;
                reservation_held = false;
                payment_ref = [];
                reason = decline_reason res.decline;
              }))
          × (w'.calls
              ≡ cancelling ev.order_id (decline_reason res.decline) (ok tt)
                ∷ releasing ev.order_id (ok tt)
                ∷ authorizing (payment_request ev) (ok res)
                ∷ held
                ∷ w.calls)
  handle_compensates ev w res h absent held a bad = (
    _,
    handle_new ev w absent held ∙ charge_declined ev _ _ res h refl a bad,
    lookup-put_self ev.order_id _ _,
    refl,
  )

  -- On a database that answers and that nobody else uses, an event that is delivered again after
  -- its saga ended changes nothing and calls nobody.
  pub handle_ended :
      (ev : OrderPlacedV1) (w : World) (inst : Instance)
      → lookup ev.order_id w.sagas ≡ some inst
      → terminal inst ≡ true
      → handle ev (quiet w) ≡ (ok tt, quiet w)
  unfolding handle
  handle_ended ev w inst e h = rw (load-quiet, e, h) refl

  -- On a database that answers and that nobody else uses, where the commit and the confirmation that
  -- the saga asks for succeed, a saga that stopped after the payment, and is stored under its order's
  -- id, resumes with these two calls and no other, whatever the other ports would answer. It ends
  -- completed, with no reservation held and with its payment reference and reason kept.
  pub handle_resumes_paid :
      (ev : OrderPlacedV1) (w : World) (inst : Instance)
      → lookup ev.order_id w.sagas ≡ some inst
      → inst.order_id ≡ ev.order_id
      → inst.state ≡ paid
      → ports.commit w.calls ev.order_id ≡ ok tt
      → ports.confirm (committing ev.order_id (ok tt) ∷ w.calls) ev.order_id ≡ ok tt
      → (w' : World) × (handle ev (quiet w) ≡ (ok tt, quiet w'))
        × (lookup ev.order_id w'.sagas
            ≡ some (record {
              order_id = ev.order_id;
              state = completed;
              reservation_held = false;
              payment_ref = inst.payment_ref;
              reason = inst.reason;
            }))
        × (w'.calls ≡ confirming ev.order_id (ok tt) ∷ committing ev.order_id (ok tt) ∷ w.calls)
  unfolding handle terminal state_beq from_started from_reserved from_paid
  handle_resumes_paid ev w inst h own st c f = (
    finished ev inst w,
    rw (load-quiet, h, st) (complete-quiet ev (record inst { state = paid }) w c f),
    rw own (
        lookup-put_self ev.order_id
          (record inst { state = completed; reservation_held = false; order_id = ev.order_id })
          w.sagas),
    refl,
  )
