-- ===== src/Order/Saga.antt =====
-- The fulfillment saga: services/order/internal/app/saga/{instance,orchestrator,ports}.go over the
-- table of services/order/internal/infra/postgres/saga_repository.go. The inventory, the payment
-- gateway and the order controller are ports: they answer a call in any way, given all calls that
-- arrived before it, and a call may also be refused or lose its reply. Order ids on the topic are
-- canonical UUID texts, so the rows are compared by text.
pub mod Journal
pub mod Rely
pub mod Safety
pub mod Outcomes
use event_driven_order_fulfi.Common.{
  ◌≡◌, Bool, true, false, ◌||◌, Option, none, some, List, [], ◌∷◌, ◌++◌, map, if◌then◌else◌,
  Outcome, ok, err,
}
use event_driven_order_fulfi.Common.Int.{ℤ}
use event_driven_order_fulfi.Common.Text.{txt, text_beq, text_key}
use event_driven_order_fulfi.Common.Table.{Table, lookup, put}
use event_driven_order_fulfi.Common.Session.{
  Session, Action, pure, raise, lift, read, exec, ◌>>=◌, ◌>>◌, ◌>>◌,
}
use event_driven_order_fulfi.Platform.{Text}
use event_driven_order_fulfi.Contracts.OrderEvents.{OrderPlacedV1, LineItemV1}

pub data State : Type 0 where
  started reserved paid completed cancelled : State

unfoldable pub state_beq : State → State → Bool
state_beq started s = elim s [ started ↦ true | _ ↦ false ]
state_beq reserved s = elim s [ reserved ↦ true | _ ↦ false ]
state_beq paid s = elim s [ paid ↦ true | _ ↦ false ]
state_beq completed s = elim s [ completed ↦ true | _ ↦ false ]
state_beq cancelled s = elim s [ cancelled ↦ true | _ ↦ false ]

pub record Instance : Type 0 where
  pub order_id : Text
  pub state : State
  pub reservation_held : Bool
  pub payment_ref : Text
  pub reason : Text

abbrev pub new_instance : Text → Instance
new_instance i = record {
  order_id = i;
  state = started;
  reservation_held = false;
  payment_ref = [];
  reason = [];
}

unfoldable pub terminal : Instance → Bool
unfolding state_beq
terminal inst = state_beq inst.state completed || state_beq inst.state cancelled

-- The errors of the ports: `ErrReservationRejected`, and all others, on which the event is
-- delivered again.
pub data Fault : Type 0 where
  rejected transient : Fault

pub record ReserveLine : Type 0 where
  pub sku : Text
  pub quantity : ℤ

pub record PaymentRequest : Type 0 where
  pub order_id : Text
  pub amount_minor : ℤ
  pub currency : Text

pub record PaymentResult : Type 0 where
  pub reference : Text
  pub approved : Bool
  pub decline : Text

-- A call that arrived at another service or at the order's command handlers, and its answer.
pub data Call : Type 0 where
  reserving : Text → List ReserveLine → Outcome Fault (Unit {0}) → Call
  releasing committing confirming : Text → Outcome Fault (Unit {0}) → Call
  authorizing : PaymentRequest → Outcome Fault PaymentResult → Call
  cancelling : Text → Text → Outcome Fault (Unit {0}) → Call

-- How the ports answer, given the calls that arrived before, the latest first.
pub record Ports : Type 0 where
  pub reserve : List Call → Text → List ReserveLine → Outcome Fault (Unit {0})
  pub release : List Call → Text → Outcome Fault (Unit {0})
  pub commit : List Call → Text → Outcome Fault (Unit {0})
  pub authorize : List Call → PaymentRequest → Outcome Fault PaymentResult
  pub confirm : List Call → Text → Outcome Fault (Unit {0})
  pub cancel : List Call → Text → Text → Outcome Fault (Unit {0})

pub record World : Type 0 where
  pub sagas : Table Text Instance
  pub calls : List Call

abbrev pub Saga : Type 0 → Type 0
Saga A = Action World Fault A

-- `SagaRepository.Load`
unfoldable pub load : Text → Saga (Option Instance)
load i = read transient (λ w. lookup i w.sagas)

abbrev pub upsert : Instance → World → World
upsert inst w = record w { sagas = put inst.order_id inst w.sagas }

-- `SagaRepository.Save`
unfoldable pub save : Instance → Saga (Unit {0})
save inst = exec transient (λ w. (tt, upsert inst w))

module _ {A : Type 0} where
  abbrev pub answered :
      (List Call → Outcome Fault A) → (Outcome Fault A → Call) → World → Outcome Fault A × World
  answered answer call w = (answer w.calls, record w { calls = call (answer w.calls) ∷ w.calls })

  -- A call of a port. Without a reply the error is a transient one.
  unfoldable pub ask : (List Call → Outcome Fault A) → (Outcome Fault A → Call) → Saga A
  ask answer call = exec transient (answered answer call) >>= lift

-- `if errors.Is(err, ErrReservationRejected) { return k }; if err != nil { return err }; next`
abbrev branch_rejected :
    Outcome Fault (Unit {0}) × Session World
    → Saga (Unit {0})
    → Saga (Unit {0})
    → Outcome Fault (Unit {0}) × Session World
branch_rejected (ok a, s) k next = next s
branch_rejected (err rejected, s) k next = k s
branch_rejected (err transient, s) k next = (err transient, s)

unfoldable pub unless_rejected :
    Saga (Unit {0}) → Saga (Unit {0}) → Saga (Unit {0}) → Saga (Unit {0})
unless_rejected m k next s = branch_rejected (m s) k next

abbrev pub reserve_line : LineItemV1 → ReserveLine
reserve_line it = record { sku = it.sku; quantity = it.quantity }

abbrev pub payment_request : OrderPlacedV1 → PaymentRequest
payment_request ev = record {
  order_id = ev.order_id;
  amount_minor = ev.total_minor;
  currency = ev.currency;
}

abbrev pub rejection_reason : Text
rejection_reason = txt "inventory reservation rejected"

abbrev pub decline_reason : Text → Text
decline_reason [] = txt "payment declined"
decline_reason (c ∷ rest) = txt "payment declined: " ++ c ∷ rest

abbrev pub as_reserved : Instance → Instance
as_reserved inst = record inst { state = reserved; reservation_held = true }

abbrev pub as_paid : Instance → Text → Instance
as_paid inst ref = record inst { state = paid; payment_ref = ref }

abbrev pub as_completed : Instance → Instance
as_completed inst = record inst { state = completed; reservation_held = false }

abbrev pub as_released : Instance → Instance
as_released inst = record inst { reservation_held = false }

abbrev pub as_cancelled : Instance → Text → Instance
as_cancelled inst reason = record inst { state = cancelled; reason = reason }

abbrev pub or_new : Text → Option Instance → Saga Instance
or_new i (some inst) = pure inst
or_new i none = do save (new_instance i); pure (new_instance i)

module _ ⦃ports : Ports⦄ where
  unfoldable pub cancel : Instance → Text → Saga (Unit {0})
  cancel inst reason = do
    ask (λ past. ports.cancel past inst.order_id reason) (cancelling inst.order_id reason)
    save (as_cancelled inst reason)

  -- Step 3: commit the held stock and confirm the order.
  unfoldable pub complete : OrderPlacedV1 → Instance → Saga (Unit {0})
  complete ev inst = do
    ask (λ past. ports.commit past ev.order_id) (committing ev.order_id)
    ask (λ past. ports.confirm past ev.order_id) (confirming ev.order_id)
    save (as_completed inst)

  unfoldable pub from_paid : OrderPlacedV1 → Instance → Saga (Unit {0})
  unfolding state_beq
  from_paid ev inst = if state_beq inst.state paid then complete ev inst else pure tt

  unfoldable pub charged : OrderPlacedV1 → Instance → PaymentResult → Saga (Unit {0})
  charged ev inst res =
      if res.approved
      then (do save (as_paid inst res.reference); from_paid ev (as_paid inst res.reference))
      else (do
        ask (λ past. ports.release past ev.order_id) (releasing ev.order_id)
        cancel (as_released inst) (decline_reason res.decline))

  -- Step 2: authorize payment. A decline compensates.
  unfoldable pub charge : OrderPlacedV1 → Instance → Saga (Unit {0})
  charge ev inst = do
    res ← ask (λ past. ports.authorize past (payment_request ev)) (authorizing (payment_request ev))
    charged ev inst res

  unfoldable pub from_reserved : OrderPlacedV1 → Instance → Saga (Unit {0})
  unfolding state_beq
  from_reserved ev inst =
      if state_beq inst.state reserved then charge ev inst else from_paid ev inst

  abbrev pub ask_reserve : OrderPlacedV1 → Saga (Unit {0})
  ask_reserve ev =
      let lines = map reserve_line ev.items in
      ask (λ past. ports.reserve past ev.order_id lines) (reserving ev.order_id lines)

  -- Step 1: reserve stock.
  unfoldable pub hold_stock : OrderPlacedV1 → Instance → Saga (Unit {0})
  hold_stock ev inst =
      unless_rejected (ask_reserve ev) (cancel inst rejection_reason)
        (do save (as_reserved inst); from_reserved ev (as_reserved inst))

  unfoldable pub from_started : OrderPlacedV1 → Instance → Saga (Unit {0})
  unfolding state_beq
  from_started ev inst =
      if state_beq inst.state started then hold_stock ev inst else from_reserved ev inst

  -- `Orchestrator.Handle`
  unfoldable pub handle : OrderPlacedV1 → Saga (Unit {0})
  unfolding terminal
  handle ev = do
    found ← load ev.order_id
    inst ← or_new ev.order_id found
    if terminal inst then pure tt else from_started ev inst

  -- The topic delivers events, some of them again: after an error the offset is not committed.
  unfoldable pub deliver : List OrderPlacedV1 → Session World → Session World
  deliver [] s = s
  deliver (ev ∷ evs) s = deliver evs (handle ev s).1
