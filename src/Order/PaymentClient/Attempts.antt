-- ===== src/Order/PaymentClient/Attempts.antt =====
-- How often the payment client calls, services/order/internal/infra/payment/client.go.
use event_driven_order_fulfi.Common.{
  ℕ, zero, suc, ◌≤◌, ◌<◌, ◌≡◌, refl, ap, Bool, true, false, Option, none, some, arith,
}
use event_driven_order_fulfi.Order.Saga.{PaymentResult}
use event_driven_order_fulfi.Order.PaymentClient.{
  Once, settled, failed, Round, Authorized, authorize_once, attempts, attempted, authorize,
  max_attempts,
}
use event_driven_order_fulfi.Order.PaymentClient.Responses.{
  IsTransient, IsFatal, Gives, Meets, authorize_once-IsTransient, authorize_once-Gives,
  authorize_once-Meets,
}

-- The attempt failed in a way that is worth another one, and the wait after it was not aborted.
pub record IsRetried (r : Round) : Type 0 where
  pub fails : IsTransient r.response
  pub waits : r.aborted ≡ false

attempts-settled :
    (k left : ℕ) (rounds : ℕ → Round) (res : PaymentResult)
    → k < left
    → ((j : ℕ) → j < k → IsRetried (rounds j))
    → Gives (rounds k).response res
    → attempts left rounds ≡ (some res, suc k)
unfolding attempts
attempts-settled k zero rounds res h before e = absurd (omega (arith, h))
attempts-settled zero (suc left) rounds res h before e =
    rw (authorize_once-Gives (rounds 0).response res e) refl
attempts-settled (suc k) (suc zero) rounds res h before e = absurd (omega (arith, h))
attempts-settled (suc k) (suc (suc left)) rounds res h before e =
    let now = before 0 (omega arith) in
    let later =
      attempts-settled k (suc left) (λ j. rounds (suc j)) res (omega (arith, h))
        (λ j i. before (suc j) (omega (arith, i))) e in
    rw (authorize_once-IsTransient (rounds 0).response now.fails, now.waits, later) refl

-- If one of the first four responses approves or declines the payment, with a 2xx status, and every
-- response before it is transient (no connection, no body, 429 or 5xx), with no wait aborted, then the
-- client returns that approval with its reference, or that decline with its reason, and has called just
-- so often.
pub authorize-settled :
    (k : ℕ) (rounds : ℕ → Round) (res : PaymentResult)
    → k < 4
    → ((j : ℕ) → j < k → IsRetried (rounds j))
    → Gives (rounds k).response res
    → authorize rounds ≡ (some res, suc k)
unfolding authorize
authorize-settled k rounds res h before e = attempts-settled k max_attempts rounds res h before e

-- How the loop ends, with `left` attempts to go: with what the last response says, or with an error,
-- because that response is fatal, its wait was aborted, or no attempt is left.
pub data Ended (left : ℕ) (rounds : ℕ → Round) : Authorized → Type 0 where
  result :
      (k : ℕ) (res : PaymentResult)
      → Gives (rounds k).response res
      → Ended left rounds (some res, suc k)
  refused : (k : ℕ) → IsFatal (rounds k).response → Ended left rounds (none, suc k)
  interrupted :
      (k : ℕ)
      → IsTransient (rounds k).response
      → (rounds k).aborted ≡ true
      → Ended left rounds (none, suc k)
  exhausted :
      (k : ℕ) → IsTransient (rounds k).response → suc k ≡ left → Ended left rounds (none, suc k)

-- What a run of the loop tells of its calls.
record Explained (left : ℕ) (rounds : ℕ → Round) (a : Authorized) : Type 0 where
  pub bounded : a.1 ≤ left
  pub before : (j : ℕ) → suc j < a.1 → IsRetried (rounds j)
  pub ended : Ended left rounds a

later_Ended :
    (left : ℕ) (rounds : ℕ → Round) (a : Authorized)
    → Ended left (λ j. rounds (suc j)) a
    → Ended (suc left) rounds (a.0, suc a.1)
later_Ended left rounds _ (result k res g) = result (suc k) res g
later_Ended left rounds _ (refused k f) = refused (suc k) f
later_Ended left rounds _ (interrupted k t b) = interrupted (suc k) t b
later_Ended left rounds _ (exhausted k t e) = exhausted (suc k) t (ap suc e)

at_once :
    (left : ℕ) (rounds : ℕ → Round) (res : Option PaymentResult)
    → Ended (suc left) rounds (res, 1)
    → Explained (suc left) rounds (res, 1)
at_once left rounds res e = record {
  bounded = omega arith;
  before = λ j h. absurd (omega (arith, h));
  ended = e;
}

explain_attempt :
    (left : ℕ) (rounds : ℕ → Round) (o : Once) (ab : Bool) (rest : Authorized)
    → Meets (rounds 0).response o
    → (rounds 0).aborted ≡ ab
    → (0 < left → Explained left (λ j. rounds (suc j)) rest)
    → Explained (suc left) rounds (attempted o ab left rest)
explain_attempt left rounds (settled res) ab rest m b x =
    at_once left rounds (some res) (result 0 res m)
explain_attempt left rounds (failed false) ab rest m b x = at_once left rounds none (refused 0 m)
explain_attempt zero rounds (failed true) ab rest m b x =
    at_once zero rounds none (exhausted 0 m refl)
explain_attempt (suc left) rounds (failed true) true rest m b x =
    at_once (suc left) rounds none (interrupted 0 m b)
explain_attempt (suc left) rounds (failed true) false rest m b x =
    let y = x (omega arith) in
    record {
      bounded = omega (arith, y.bounded);
      before = λ j. earlier y j;
      ended = later_Ended (suc left) rounds rest y.ended;
    }
  where
    earlier :
        Explained (suc left) (λ j. rounds (suc j)) rest
        → (j : ℕ) → suc j < suc rest.1
        → IsRetried (rounds j)
    earlier y zero h = record { fails = m; waits = b }
    earlier y (suc j) h = y.before j (omega (arith, h))

explain : (left : ℕ) (rounds : ℕ → Round) → 0 < left → Explained left rounds (attempts left rounds)
unfolding attempts
explain zero rounds h = absurd (omega (arith, h))
explain (suc left) rounds h =
    explain_attempt left rounds (authorize_once (rounds 0).response) (rounds 0).aborted
      (attempts left (λ j. rounds (suc j))) (authorize_once-Meets (rounds 0).response) refl
      (explain left (λ j. rounds (suc j)))

-- The client calls at most four times, and calls again only after a transient response (no connection,
-- no body, 429 or 5xx) whose wait was not aborted. It ends with the approval or the decline of its
-- last response, which is a 2xx; or with an error, and then the last response is fatal (another status,
-- or a 2xx whose body does not decode), or transient with the wait aborted, or transient and the
-- fourth one.
pub authorize-bounded :
    (rounds : ℕ → Round)
    → ((authorize rounds).1 ≤ 4)
      × ((j : ℕ) → suc j < (authorize rounds).1 → IsRetried (rounds j))
      × Ended 4 rounds (authorize rounds)
unfolding authorize
authorize-bounded rounds =
    let x = explain max_attempts rounds (omega arith) in (x.bounded, x.before, x.ended)
