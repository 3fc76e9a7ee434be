-- ===== src/Order/Saga/Safety.antt =====
-- The saga's calls stay in order, whatever the ports and the database answer and whatever else runs:
-- services/order/internal/app/saga/orchestrator.go.
use event_driven_order_fulfi.Common.{
  ◌≡◌, refl, true, Option, none, some, List, [], ◌∷◌, Outcome, ok, inl, inr, Bool-cases, map,
}
use event_driven_order_fulfi.Common.Text.{text_key}
use event_driven_order_fulfi.Common.Table.{lookup}
use event_driven_order_fulfi.Common.Session.{Session, lift, exec, arrive}
use event_driven_order_fulfi.Common.Session.Statements.{read-cases}
use event_driven_order_fulfi.Platform.{Text}
use event_driven_order_fulfi.Contracts.OrderEvents.{OrderPlacedV1}
use event_driven_order_fulfi.Order.Saga.{
  State, started, reserved, paid, completed, cancelled, Instance, Fault, transient, PaymentResult,
  Call, reserving, releasing, committing, confirming, authorizing, cancelling, World, Ports, load,
  save, ask, answered, or_new, new_instance, terminal, state_beq, cancel, complete, from_paid,
  charged, charge, from_reserved, hold_stock, from_started, deliver, handle, deliver, reserve_line,
  payment_request, rejection_reason, decline_reason, as_reserved, as_paid, as_completed,
  as_released, as_cancelled,
}
use event_driven_order_fulfi.Order.Saga.Journal.{
  Happened, Later, Held, Charged, InOrder, Backed, Reached, IsConsistent, Held-Later, Charged-Later,
  Reached-Later, called-IsConsistent, upsert-IsConsistent,
}
use event_driven_order_fulfi.Order.Saga.Rely.{
  IsGood, Sound, arrive-IsGood, Sound-lift, Sound-pure, Sound-exec, Sound-bind,
  Sound-unless_rejected,
}

abbrev Any : {A : Type 0} → A → List Call → Type 0
Any a l = Unit

module _ {A : Type 0} (past : List Call) where
  Sound-answered :
      (answer : List Call → Outcome Fault A) (call : Outcome Fault A → Call)
      → ((r : Outcome Fault A) (l : List Call) → Later past l → InOrder (call r) l)
      → Sound past (exec transient (answered answer call)) (λ r. Happened (call r))
  Sound-answered answer call o =
      Sound-exec past (λ r. Happened (call r)) (answered answer call)
        (λ w c l. (
          called-IsConsistent (call (answer w.calls)) w (o (answer w.calls) w.calls l) c,
          λ x h. inr h,
          inl refl,
        ))

  Sound-ask :
      (answer : List Call → Outcome Fault A) (call : Outcome Fault A → Call)
      → ((r : Outcome Fault A) (l : List Call) → Later past l → InOrder (call r) l)
      → Sound past (ask answer call) (λ a. Happened (call (ok a)))
  unfolding ask
  Sound-ask answer call o =
      Sound-bind past (λ r. Happened (call r)) (λ a. Happened (call (ok a))) _ lift
        (Sound-answered answer call o) (λ r l k h. Sound-lift l _ r (λ a m j e. rw (← e) (j _ h)))

Sound-save :
    (past : List Call) (inst : Instance) (R : List Call → Type 0)
    → ((l : List Call) → Later past l → Backed inst l × R l)
    → Sound past (save inst) (λ _. R)
unfolding save
Sound-save past inst R b =
    Sound-exec past (λ _. R) _
      (λ w c l. (upsert-IsConsistent inst w (b w.calls l).0 c, λ x h. h, (b w.calls l).1))

Reached-reserved :
    (st : State) (i reason : Text) (l : List Call)
    → state_beq st reserved ≡ true
    → Reached st i reason l
    → Held i l
unfolding state_beq
Reached-reserved started i reason l e b = cc
Reached-reserved reserved i reason l e b = b
Reached-reserved paid i reason l e b = cc
Reached-reserved completed i reason l e b = cc
Reached-reserved cancelled i reason l e b = cc

Reached-paid :
    (st : State) (i reason : Text) (l : List Call)
    → state_beq st paid ≡ true
    → Reached st i reason l
    → Charged i l
unfolding state_beq
Reached-paid started i reason l e b = cc
Reached-paid reserved i reason l e b = cc
Reached-paid paid i reason l e b = b
Reached-paid completed i reason l e b = cc
Reached-paid cancelled i reason l e b = cc

module _ ⦃ports : Ports⦄ where
  Sound-cancel :
      (past : List Call) (inst : Instance) (reason : Text)
      → ((l : List Call) → Later past l → InOrder (cancelling inst.order_id reason (ok tt)) l)
      → Sound past (cancel inst reason) Any
  unfolding cancel
  Sound-cancel past inst reason o =
      Sound-bind past (λ _. Happened (cancelling inst.order_id reason (ok tt))) Any _ _
        (Sound-ask past _ (cancelling inst.order_id reason) (λ r. o))
        (λ _ l k h. Sound-save l (as_cancelled inst reason) (λ _. Unit) (λ m j. (j _ h, tt)))

  Sound-complete :
      (past : List Call) (ev : OrderPlacedV1) (inst : Instance)
      → inst.order_id ≡ ev.order_id
      → Charged ev.order_id past
      → Sound past (complete ev inst) Any
  unfolding complete
  Sound-complete past ev inst same paid_for =
      Sound-bind past (λ _. Happened (committing ev.order_id (ok tt))) Any _ _
        (Sound-ask past _ (committing ev.order_id)
          (λ r l k. Charged-Later ev.order_id past l k paid_for))
        (λ _ l₁ k₁ h₁.
          Sound-bind l₁ (λ _. Happened (confirming ev.order_id (ok tt))) Any _ _
            (Sound-ask l₁ _ (confirming ev.order_id)
              (λ r l k. (Charged-Later ev.order_id past l (λ c h. k c (k₁ c h)) paid_for, k _ h₁)))
            (λ _ l₂ k₂ h₂.
              Sound-save l₂ (as_completed inst) (λ _. Unit)
                (λ m j. rw same (
                  (Charged-Later ev.order_id past m (λ c h. j c (k₂ c (k₁ c h))) paid_for, j _ h₂),
                  tt,
                ))))

  Sound-from_paid :
      (past : List Call) (ev : OrderPlacedV1) (inst : Instance)
      → inst.order_id ≡ ev.order_id
      → Backed inst past
      → Sound past (from_paid ev inst) Any
  unfolding from_paid
  Sound-from_paid past ev inst same b = elim (Bool-cases (state_beq inst.state paid)) [
    | inl e ↦ rw e (
        Sound-complete past ev inst same
          (rw (← same) (Reached-paid inst.state inst.order_id inst.reason past e b)))
    | inr e ↦ rw e (Sound-pure past _ tt (λ _ _. tt))
  ]

  Sound-charged :
      (past : List Call) (ev : OrderPlacedV1) (inst : Instance) (res : PaymentResult)
      → inst.order_id ≡ ev.order_id
      → Happened (authorizing (payment_request ev) (ok res)) past
      → Sound past (charged ev inst res) Any
  unfolding charged
  Sound-charged past ev inst res same h = elim (Bool-cases res.approved) [
    | inl good ↦ rw good (
        Sound-bind past (λ _. Charged ev.order_id) Any _ _
          (Sound-save past (as_paid inst res.reference) (Charged ev.order_id) (λ l k.
            let it : Charged ev.order_id l = (payment_request ev, res, refl, good, k _ h) in
            (rw same it, it)))
          (λ _ l k it. Sound-from_paid l ev (as_paid inst res.reference) same (rw same it)))
    | inr bad ↦ rw bad (
        Sound-bind past (λ _. Happened (releasing ev.order_id (ok tt))) Any _ _
          (Sound-ask past _ (releasing ev.order_id)
            (λ r l k. (payment_request ev, res, refl, bad, k _ h)))
          (λ _ l k it.
            Sound-cancel l (as_released inst) (decline_reason res.decline)
              (λ m j. rw same (inr ((payment_request ev, res, refl, bad, j _ (k _ h)), j _ it)))))
  ]

  Sound-from_reserved :
      (past : List Call) (ev : OrderPlacedV1) (inst : Instance)
      → inst.order_id ≡ ev.order_id
      → Backed inst past
      → Sound past (from_reserved ev inst) Any
  unfolding from_reserved charge
  Sound-from_reserved past ev inst same b = elim (Bool-cases (state_beq inst.state reserved)) [
    | inl e ↦ rw e (
        Sound-bind past (λ res. Happened (authorizing (payment_request ev) (ok res))) Any _ _
          (Sound-ask past _ (authorizing (payment_request ev)) (λ r l k.
            Held-Later ev.order_id past l k
              (rw (← same) (Reached-reserved inst.state inst.order_id inst.reason past e b))))
          (λ res l k h. Sound-charged l ev inst res same h))
    | inr e ↦ rw e (Sound-from_paid past ev inst same b)
  ]

  Sound-from_started :
      (past : List Call) (ev : OrderPlacedV1) (inst : Instance)
      → inst.order_id ≡ ev.order_id
      → Backed inst past
      → Sound past (from_started ev inst) Any
  unfolding from_started hold_stock ask
  Sound-from_started past ev inst same b =
      let lines = map reserve_line ev.items in
      elim (Bool-cases (state_beq inst.state started)) [
        | inl e ↦ rw e (
            Sound-unless_rejected past Any _ _ _ (λ r. Happened (reserving ev.order_id lines r))
              (Sound-answered past _ (reserving ev.order_id lines) (λ r l k. tt))
              (λ l k h. Sound-cancel l inst rejection_reason (λ m j. rw same (inl (lines, j _ h))))
              (λ l k h.
                Sound-bind l (λ _. Held ev.order_id) Any _ _
                  (Sound-save l (as_reserved inst) (Held ev.order_id)
                    (λ m j. let it : Held ev.order_id m = (lines, j _ h) in (rw same it, it)))
                  (λ _ m j it. Sound-from_reserved m ev (as_reserved inst) same (rw same it))))
        | inr e ↦ rw e (Sound-from_reserved past ev inst same b)
      ]

  -- The row that `Load` found, if it found one.
  abbrev Backs : Text → Option Instance → List Call → Type 0
  Backs i none l = Unit
  Backs i (some inst) l = (inst.order_id ≡ i) × Backed inst l

  abbrev Opened : Text → Instance → List Call → Type 0
  Opened i inst l = (inst.order_id ≡ i) × Backed inst l

  backs :
      (i : Text) (w : World)
      → IsConsistent w
      → (found : Option Instance) → lookup i w.sagas ≡ found
      → Backs i found w.calls
  backs i w c none e = tt
  backs i w c (some inst) e = c.rows i inst e

  Sound-load : (past : List Call) (i : Text) → Sound past (load i) (Backs i)
  unfolding load
  Sound-load past i = record {
    run = λ s g l.
        let (g', l') = arrive-IsGood s g in
        let t = (arrive s).1 in
        let (x, e, v) = read-cases transient (λ w. lookup i w.sagas) s in
        rw e (record {
          good = g';
          later = λ c h. l' c (l c h);
          gives =
              λ found h. backs i t.committed g'.consistent found (rw (← g'.outside) (v found h));
        });
  }

  Sound-or_new :
      (past : List Call) (i : Text) (found : Option Instance)
      → Backs i found past
      → Sound past (or_new i found) (Opened i)
  Sound-or_new past i none b =
      Sound-bind past (λ _ _. Unit) (Opened i) _ _
        (Sound-save past (new_instance i) (λ _. Unit) (λ l k. (tt, tt)))
        (λ _ l k h. Sound-pure l (Opened i) (new_instance i) (λ m j. (refl, tt)))
  Sound-or_new past i (some inst) b =
      Sound-pure past (Opened i) inst
        (λ l k. (b.0, Reached-Later inst.state inst.order_id inst.reason past l k b.1))

  Sound-handle : (past : List Call) (ev : OrderPlacedV1) → Sound past (handle ev) Any
  unfolding handle
  Sound-handle past ev =
      Sound-bind past (Backs ev.order_id) Any _ _ (Sound-load past ev.order_id) (λ found l k b.
        Sound-bind l (Opened ev.order_id) Any _ _ (Sound-or_new l ev.order_id found b)
          (λ inst m j o. elim (Bool-cases (terminal inst)) [
            | inl e ↦ rw e (Sound-pure m Any tt (λ _ _. tt))
            | inr e ↦ rw e (Sound-from_started m ev inst o.0 o.1)
          ]))

  -- Let the saga's rows agree with the calls made, let every call be in order, and let the other
  -- sessions keep it so and take no call back. Whatever the ports answer, whichever statements or
  -- calls fail or lose their replies, and however often the event is delivered, handling it keeps
  -- it so: stock is held before payment is asked for, approved payment comes before the commit of
  -- the stock and before the confirmation, and the order is cancelled only after its stock was
  -- refused, or payment was declined and the stock released.
  pub handle_keeps_order :
      (evs : List OrderPlacedV1) (s : Session World) → IsGood s → IsGood (deliver evs s)
  unfolding deliver
  handle_keeps_order [] s g = g
  handle_keeps_order (ev ∷ evs) s g =
      handle_keeps_order evs (handle ev s).1
        ((Sound-handle s.committed.calls ev).run s g (λ _ h. h)).good
