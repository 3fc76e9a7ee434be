-- ===== src/Examples/Sagas.antt =====
-- The theorems on the saga and its clients, at an order of one line.
use event_driven_order_fulfi.Common.{
  ℕ, zero, suc, ◌≤◌, ◌<◌, ◌≡◌, refl, true, false, none, some, [], ◌∷◌, ok, arith, map,
}
use event_driven_order_fulfi.Common.Int.{pos}
use event_driven_order_fulfi.Common.Text.{txt, text_key, text_beq}
use event_driven_order_fulfi.Common.Table.{lookup}
use event_driven_order_fulfi.Common.Session.{Session, served, lost, quiet}
use event_driven_order_fulfi.Contracts.OrderEvents.{OrderPlacedV1}
use event_driven_order_fulfi.Order.Saga.{
  State, paid, completed, cancelled, Instance, PaymentResult, Call, reserving, releasing,
  committing, confirming, authorizing, cancelling, World, Ports, handle, deliver, terminal,
  state_beq, reserve_line, payment_request, decline_reason, new_instance,
}
use event_driven_order_fulfi.Order.Saga.Journal.{IsConsistent}
use event_driven_order_fulfi.Order.Saga.Rely.{IsGood, IsSteady}
use event_driven_order_fulfi.Order.Saga.Safety.{handle_keeps_order}
use event_driven_order_fulfi.Order.Saga.Outcomes.{
  Serves, handle_completes, handle_compensates, handle_resumes_paid,
}
use event_driven_order_fulfi.Order.PaymentClient.{Round, unreachable, answer, authorize}
use event_driven_order_fulfi.Order.PaymentClient.Responses
use event_driven_order_fulfi.Order.PaymentClient.Responses.{no_connection}
use event_driven_order_fulfi.Order.PaymentClient.Attempts.{
  IsRetried, Ended, authorize-settled, authorize-bounded,
}
use event_driven_order_fulfi.Examples.{an_address}

abbrev event : OrderPlacedV1
event = record {
  order_id = txt "a1";
  customer_id = txt "b2";
  items = record { sku = txt "MUG-1"; quantity = pos 2; unit_price_minor = pos 500 } ∷ [];
  ship_to = an_address;
  total_minor = pos 1000;
  currency = txt "EUR";
  placed_at = [];
}

abbrev approval : PaymentResult
approval = record { approved = true; reference = txt "ref"; decline = [] }

abbrev refusal : PaymentResult
refusal = record { approved = false; reference = []; decline = txt "no funds" }

abbrev serving : PaymentResult → Ports
serving res = record {
  reserve = λ past i lines. ok tt;
  release = λ past i. ok tt;
  commit = λ past i. ok tt;
  authorize = λ past req. ok res;
  confirm = λ past i. ok tt;
  cancel = λ past i reason. ok tt;
}

serving-Serves : (res : PaymentResult) → Serves (serving res)
serving-Serves res = record {
  releases = λ past i. refl;
  commits = λ past i. refl;
  confirms = λ past i. refl;
  cancels = λ past i reason. refl;
}

abbrev nothing_yet : World
nothing_yet = record { sagas = []; calls = [] }

no_saga : lookup (txt "a1") nothing_yet.sagas ≡ none
unfolding lookup
no_saga = refl

-- The first two statements are served, the reservation's reply is lost.
abbrev bumpy : Session World
bumpy = record {
  committed = nothing_yet;
  view = nothing_yet;
  turns =
      record { others = λ w. w; reply = served }
      ∷ record { others = λ w. w; reply = served }
      ∷ record { others = λ w. w; reply = lost }
      ∷ [];
}

nothing_yet-IsConsistent : IsConsistent nothing_yet
unfolding lookup
nothing_yet-IsConsistent = record { in_order = tt; rows = λ i inst e. cc }

all-IsSteady : IsSteady bumpy.turns
all-IsSteady =
    let last : IsSteady (record { others = λ w. w; reply = lost } ∷ []) =
      (λ w c. (c, λ x h. h), tt) in
    let two : IsSteady (
        record { others = λ w. w; reply = served }
        ∷ record { others = λ w. w; reply = lost }
        ∷ []) =
      (λ w c. (c, λ x h. h), last) in
    (λ w c. (c, λ x h. h), two)

bumpy-IsGood : IsGood bumpy
bumpy-IsGood = record {
  consistent = nothing_yet-IsConsistent;
  outside = refl;
  steady = all-IsSteady;
}

handle_keeps_order_example : IsGood (deliver ⦃ports = serving approval⦄ (event ∷ event ∷ []) bumpy)
handle_keeps_order_example =
    handle_keeps_order ⦃ports = serving approval⦄ (event ∷ event ∷ []) bumpy bumpy-IsGood

abbrev held_first : Call
held_first = reserving (txt "a1") (map reserve_line event.items) (ok tt)

handle_completes_example :
    (w' : World) × (handle ⦃ports = serving approval⦄ event (quiet nothing_yet) ≡ (ok tt, quiet w'))
    × (lookup (txt "a1") w'.sagas
        ≡ some (record {
          order_id = txt "a1";
          state = completed;
          reservation_held = false;
          payment_ref = txt "ref";
          reason = [];
        }))
    × (w'.calls
        ≡ confirming (txt "a1") (ok tt)
          ∷ committing (txt "a1") (ok tt)
          ∷ authorizing (payment_request event) (ok approval)
          ∷ held_first
          ∷ [])
handle_completes_example =
    handle_completes ⦃ports = serving approval⦄ event nothing_yet approval (serving-Serves approval)
      no_saga refl refl refl

handle_compensates_example :
    (w' : World) × (handle ⦃ports = serving refusal⦄ event (quiet nothing_yet) ≡ (ok tt, quiet w'))
    × (lookup (txt "a1") w'.sagas
        ≡ some (record {
          order_id = txt "a1";
          state = cancelled;
          reservation_held = false;
          payment_ref = [];
          reason = decline_reason (txt "no funds");
        }))
    × (w'.calls
        ≡ cancelling (txt "a1") (decline_reason (txt "no funds")) (ok tt)
          ∷ releasing (txt "a1") (ok tt)
          ∷ authorizing (payment_request event) (ok refusal)
          ∷ held_first
          ∷ [])
handle_compensates_example =
    handle_compensates ⦃ports = serving refusal⦄ event nothing_yet refusal (serving-Serves refusal)
      no_saga refl refl refl

abbrev at_state : State → Instance
at_state st = record (new_instance (txt "a1")) { state = st; payment_ref = txt "ref" }

abbrev holding : Instance → World
holding inst = record { sagas = (txt "a1", inst) ∷ []; calls = [] }

finds : (inst : Instance) → lookup (txt "a1") (holding inst).sagas ≡ some inst
unfolding lookup text_beq
finds inst = refl

ended : terminal (at_state completed) ≡ true
unfolding terminal state_beq
ended = refl

handle_resumes_paid_example :
    (w' : World) × (handle ⦃ports = serving refusal⦄ event (quiet (holding (at_state paid)))
      ≡ (ok tt, quiet w'))
    × (lookup (txt "a1") w'.sagas
        ≡ some (record {
          order_id = txt "a1";
          state = completed;
          reservation_held = false;
          payment_ref = txt "ref";
          reason = [];
        }))
    × (w'.calls ≡ confirming (txt "a1") (ok tt) ∷ committing (txt "a1") (ok tt) ∷ [])
handle_resumes_paid_example =
    handle_resumes_paid ⦃ports = serving refusal⦄ event (holding (at_state paid)) (at_state paid)
      (finds (at_state paid)) refl refl refl refl

-- The first call does not reach the service; the later ones are approved.
abbrev rounds : ℕ → Round
rounds zero = record { response = unreachable; aborted = false }
rounds (suc j) = record {
  response =
      answer 200
        (some (record { approved = true; provider_reference = txt "ref"; decline_reason = [] }));
  aborted = false;
}

first-IsRetried : (j : ℕ) → j < 1 → IsRetried (rounds j)
first-IsRetried zero h = record { fails = no_connection; waits = refl }
first-IsRetried (suc j) h = absurd (omega (arith, h))

authorize-settled_example : authorize rounds ≡ (some approval, 2)
authorize-settled_example =
    authorize-settled 1 rounds approval (omega arith) first-IsRetried
      (Responses.approval 200 (txt "ref") [] (omega arith) (omega arith))

authorize-bounded_example :
    ((authorize rounds).1 ≤ 4)
    × ((j : ℕ) → suc j < (authorize rounds).1 → IsRetried (rounds j))
    × Ended 4 rounds (authorize rounds)
authorize-bounded_example = authorize-bounded rounds
