-- ===== src/Inventory/Stock/Lifecycle.antt =====
-- The lifecycle of a reservation, services/inventory/internal/domain/inventory/reservation.go.
use event_driven_order_fulfi.Common.{
  ℕ, suc, ◌≡◌, ◌≢◌, refl, ap, ◌∙◌, if◌then◌else◌, Bool, true, false, List, [], ◌∷◌, Outcome, ok,
  err,
}
use event_driven_order_fulfi.Inventory.Stock.{
  Error, Reservation, ReservationStatus, held, committed, released, release_reservation,
  commit_reservation,
}

pub data Call : Type 0 where
  releases commits : Call

-- A call as its handler makes it: a refused one changes nothing.
abbrev after : Outcome Error (Bool × Reservation) → Reservation → Bool × Reservation
after (ok (changed, r')) r = (changed, r')
after (err e) r = (false, r)

abbrev pub step : Call → Reservation → Bool × Reservation
step releases r = after (release_reservation r) r
step commits r = after (commit_reservation r) r

-- How often the calls changed the status, each of which moves the reserved stock once.
abbrev pub changes : List Call → Reservation → ℕ
changes [] r = 0
changes (c ∷ cs) r =
    let (changed, r') = step c r in if changed then suc (changes cs r') else changes cs r'

-- The aggregate after the calls.
abbrev pub final : List Call → Reservation → Reservation
final [] r = r
final (c ∷ cs) r = final cs (step c r).1

abbrev pub decision : Call → ReservationStatus
decision releases = released
decision commits = committed

step_ended :
    (c : Call) (st : ReservationStatus) (r : Reservation)
    → r.status ≡ st
    → st ≢ held
    → step c r ≡ (false, r)
unfolding release_reservation commit_reservation
step_ended releases held r e h = absurd (h refl)
step_ended releases committed r e h = rw e refl
step_ended releases released r e h = rw e refl
step_ended commits held r e h = absurd (h refl)
step_ended commits committed r e h = rw e refl
step_ended commits released r e h = rw e refl

step_held :
    (c : Call) (r : Reservation)
    → r.status ≡ held
    → ((step c r).0 ≡ true) × ((step c r).1.status ≡ decision c)
unfolding release_reservation commit_reservation
step_held releases r e = rw e (refl, refl)
step_held commits r e = rw e (refl, refl)

-- A reservation that was released or committed is never changed again.
pub ended_stays :
    (cs : List Call) (r : Reservation) → r.status ≢ held → (changes cs r ≡ 0) × (final cs r ≡ r)
ended_stays [] r h = (refl, refl)
ended_stays (c ∷ cs) r h = rw (step_ended c r.status r refl h) (ended_stays cs r h)

decided : (c : Call) → decision c ≢ held
decided releases e = cc
decided commits e = cc

-- However often a held reservation is released and committed, and in whatever order, exactly one
-- call changes it, the first one, which also decides the status that it keeps.
pub first_call_decides_reservation :
    (c : Call) (cs : List Call) (r : Reservation)
    → r.status ≡ held
    → (changes (c ∷ cs) r ≡ 1) × ((final (c ∷ cs) r).status ≡ decision c)
first_call_decides_reservation c cs r e =
    let (moved, st) = step_held c r e in
    let (none_left, same) = ended_stays cs (step c r).1 (rw st (decided c)) in
    (rw (moved, none_left) refl, ap (λ x. x.status) same ∙ st)
