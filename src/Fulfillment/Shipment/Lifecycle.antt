-- ===== src/Fulfillment/Shipment/Lifecycle.antt =====
-- The lifecycle of a shipment, services/fulfillment/internal/domain/fulfillment/shipment.go.
use event_driven_order_fulfi.Common.{
  ◌≡◌, ◌≢◌, refl, Bool, false, [], ◌∷◌, if◌then◌else◌, Bool-cases, inl, inr, Outcome, ok, err,
}
use event_driven_order_fulfi.Common.Text.{text_beq, text_key}
use event_driven_order_fulfi.Platform.{Text, Time}
use event_driven_order_fulfi.Fulfillment.Shipment.{
  Error, ShipmentStatus, created, dispatched, delivered, failed, Shipment, dispatch, deliver, fail,
}

-- One move of the lifecycle.
pub data Move : ShipmentStatus → ShipmentStatus → Type 0 where
  dispatching : Move created dispatched
  delivering : Move dispatched delivered
  failing_created : Move created failed
  failing_dispatched : Move dispatched failed

-- Any number of moves.
pub data Moves : ShipmentStatus → ShipmentStatus → Type 0 where
  stay : {a : ShipmentStatus} → Moves a a
  move : {a b c : ShipmentStatus} → Move a b → Moves b c → Moves a c

pub Moves-trans : {a b c : ShipmentStatus} → Moves a b → Moves b c → Moves a c
Moves-trans stay k = k
Moves-trans (move m h) k = move m (Moves-trans h k)

-- A shipment that a carrier has taken names the carrier.
abbrev pub IsCarried : ShipmentStatus → Text → Type 0
IsCarried created c = Unit
IsCarried dispatched c = c ≢ []
IsCarried delivered c = c ≢ []
IsCarried failed c = Unit

pub data Transition : Type 0 where
  dispatches : Text → Text → Time → Transition
  delivers : Time → Transition
  fails : Text → Time → Transition

abbrev pub apply : Transition → Shipment → Outcome Error (Bool × Shipment)
apply (dispatches c t now) s = dispatch c t now s
apply (delivers now) s = deliver now s
apply (fails r now) s = fail r now s

-- What a transition that succeeds has done.
pub record Legal (s t : Shipment) (changed : Bool) : Type 0 where
  pub same_id : t.id ≡ s.id
  pub same_order : t.order_id ≡ s.order_id
  pub same_version : t.version ≡ s.version
  pub same_created : t.created_at ≡ s.created_at
  pub moved : if changed then Move s.status t.status else (t ≡ s)
  pub carried : IsCarried s.status s.carrier → IsCarried t.status t.carrier

Legal-same : (s : Shipment) → Legal s s false
Legal-same s = record {
  same_id = refl;
  same_order = refl;
  same_version = refl;
  same_created = refl;
  moved = refl;
  carried = λ h. h;
}

-- A transition is legal or refused.
abbrev pub IsLegal : Shipment → Outcome Error (Bool × Shipment) → Type 0
IsLegal s (ok (changed, t)) = Legal s t changed
IsLegal s (err e) = Unit

nonempty : (c : Text) → text_beq c [] ≡ false → c ≢ []
unfolding text_beq
nonempty [] h = cc
nonempty (x ∷ c) h = λ e. cc

dispatch-IsLegal_at :
    (carrier tracking_code : Text) (now : Time) (s : Shipment) (st : ShipmentStatus)
    → s.status ≡ st
    → IsLegal s (dispatch carrier tracking_code now s)
unfolding dispatch
dispatch-IsLegal_at carrier tracking_code now s created e =
    elim (Bool-cases (text_beq carrier [])) [
      | inl b ↦ rw (e, b) tt
      | inr b ↦
          rw (e, b)
            (record {
              same_id = refl;
              same_order = refl;
              same_version = refl;
              same_created = refl;
              moved = dispatching;
              carried = λ _. nonempty carrier b;
            })
    ]
dispatch-IsLegal_at carrier tracking_code now s dispatched e = rw e (Legal-same _)
dispatch-IsLegal_at carrier tracking_code now s delivered e = rw e tt
dispatch-IsLegal_at carrier tracking_code now s failed e = rw e tt

deliver-IsLegal_at :
    (now : Time) (s : Shipment) (st : ShipmentStatus) → s.status ≡ st → IsLegal s (deliver now s)
unfolding deliver
deliver-IsLegal_at now s created e = rw e tt
deliver-IsLegal_at now s dispatched e = rw e (record {
  same_id = refl;
  same_order = refl;
  same_version = refl;
  same_created = refl;
  moved = delivering;
  carried = λ h. h;
})
deliver-IsLegal_at now s delivered e = rw e (Legal-same _)
deliver-IsLegal_at now s failed e = rw e tt

fail-IsLegal_at :
    (reason : Text) (now : Time) (s : Shipment) (st : ShipmentStatus)
    → s.status ≡ st
    → IsLegal s (fail reason now s)
unfolding fail
fail-IsLegal_at reason now s created e = rw e (record {
  same_id = refl;
  same_order = refl;
  same_version = refl;
  same_created = refl;
  moved = failing_created;
  carried = λ _. tt;
})
fail-IsLegal_at reason now s dispatched e = rw e (record {
  same_id = refl;
  same_order = refl;
  same_version = refl;
  same_created = refl;
  moved = failing_dispatched;
  carried = λ _. tt;
})
fail-IsLegal_at reason now s delivered e = rw e tt
fail-IsLegal_at reason now s failed e = rw e (Legal-same _)

-- Every transition of a shipment is refused or makes one move of the lifecycle, or none; it keeps
-- the ids, the version and the time of creation, and a shipment that is dispatched or delivered
-- names its carrier if it did before.
pub apply-IsLegal : (x : Transition) (s : Shipment) → IsLegal s (apply x s)
apply-IsLegal (dispatches c t now) s = dispatch-IsLegal_at c t now s s.status refl
apply-IsLegal (delivers now) s = deliver-IsLegal_at now s s.status refl
apply-IsLegal (fails r now) s = fail-IsLegal_at r now s s.status refl
