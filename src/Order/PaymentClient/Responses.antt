-- ===== src/Order/PaymentClient/Responses.antt =====
-- What the payment client should make of a response, and that it does so,
-- services/order/internal/infra/payment/client.go.
use event_driven_order_fulfi.Common.{
  ℕ, ◌≤◌, ◌<◌, ◌≡◌, ◌≢◌, refl, Bool, true, false, none, some, [], ◌⊎◌, inl, inr, Option, arith,
}
use event_driven_order_fulfi.Platform.{Text}
use event_driven_order_fulfi.Order.Saga.{PaymentResult}
use event_driven_order_fulfi.Order.PaymentClient.{
  CaptureResponse, Response, unreachable, unreadable, answer, Once, settled, failed, result_of,
  decoded, authorize_once,
}

-- A response that may be another one next time: no connection, no body, status 429 or 5xx.
pub data IsTransient : Response → Type 0 where
  no_connection : IsTransient unreachable
  no_body : IsTransient unreadable
  server_error :
      (status : ℕ) (body : Option CaptureResponse) → 500 ≤ status → IsTransient (answer status body)
  too_many : (body : Option CaptureResponse) → IsTransient (answer 429 body)

-- A response that says nothing of the payment and will not change: any other status outside of 2xx,
-- or a body that does not decode.
pub data IsFatal : Response → Type 0 where
  refused :
      (status : ℕ) (body : Option CaptureResponse)
      → (status < 200) ⊎ (300 ≤ status)
      → status < 500
      → status ≢ 429
      → IsFatal (answer status body)
  garbled : (status : ℕ) → 200 ≤ status → status < 300 → IsFatal (answer status none)

-- A 2xx response that approves or declines the payment, and the result that it stands for.
pub data Gives : Response → PaymentResult → Type 0 where
  approval :
      (status : ℕ) (reference reason : Text)
      → 200 ≤ status
      → status < 300
      → Gives
          (answer status (
            some (record {
              approved = true;
              provider_reference = reference;
              decline_reason = reason;
            })))
          (record { approved = true; reference = reference; decline = [] })
  decline :
      (status : ℕ) (reference reason : Text)
      → 200 ≤ status
      → status < 300
      → Gives
          (answer status (
            some (record {
              approved = false;
              provider_reference = reference;
              decline_reason = reason;
            })))
          (record { approved = false; reference = []; decline = reason })

-- What a verdict on a response promises.
abbrev pub Meets : Response → Once → Type 0
Meets r (settled res) = Gives r res
Meets r (failed true) = IsTransient r
Meets r (failed false) = IsFatal r

read_body :
    (status : ℕ) (body : Option CaptureResponse)
    → 200 ≤ status
    → status < 300
    → authorize_once (answer status body) ≡ decoded body
unfolding authorize_once
read_body status body low high = ground (arith, low, high)

pub authorize_once-IsTransient : (r : Response) → IsTransient r → authorize_once r ≡ failed true
unfolding authorize_once
authorize_once-IsTransient _ no_connection = refl
authorize_once-IsTransient _ no_body = refl
authorize_once-IsTransient _ (server_error status body h) = ground (arith, h)
authorize_once-IsTransient _ (too_many body) = refl

pub authorize_once-Gives :
    (r : Response) (res : PaymentResult) → Gives r res → authorize_once r ≡ settled res
authorize_once-Gives _ _ (approval status reference reason low high) = read_body status _ low high
authorize_once-Gives _ _ (decline status reference reason low high) = read_body status _ low high

out_of_range :
    (status : ℕ) (body : Option CaptureResponse)
    → (status < 200) ⊎ (300 ≤ status)
    → status < 500
    → status ≢ 429
    → authorize_once (answer status body) ≡ failed false
unfolding authorize_once
out_of_range status body (inl out) below busy = ground (arith, out)
out_of_range status body (inr out) below busy = ground (arith, out, below, busy)

decoded-Meets :
    (status : ℕ) (body : Option CaptureResponse)
    → 200 ≤ status
    → status < 300
    → Meets (answer status body) (decoded body)
decoded-Meets status none low high = garbled status low high
decoded-Meets status (some out) low high =
    given out.approved out.provider_reference out.decline_reason
  where
    given :
        (ok_ : Bool) (reference reason : Text)
        → let out : CaptureResponse = record {
          approved = ok_;
          provider_reference = reference;
          decline_reason = reason;
        } in
          Gives (answer status (some out)) (result_of out)
    given true reference reason = approval status reference reason low high
    given false reference reason = decline status reference reason low high

status-Meets :
    (status : ℕ) (body : Option CaptureResponse)
    → (500 ≤ status)
      ⊎ (status ≡ 429)
      ⊎ ((status < 500) × (status ≢ 429) × ((status < 200) ⊎ (300 ≤ status)))
      ⊎ ((200 ≤ status) × (status < 300))
    → Meets (answer status body) (authorize_once (answer status body))
status-Meets status body (inl h) =
    rw (authorize_once-IsTransient _ (server_error status body h)) (server_error status body h)
status-Meets status body (inr (inl h)) = rw h (too_many_Meets body)
  where
    too_many_Meets :
        (b : Option CaptureResponse) → Meets (answer 429 b) (authorize_once (answer 429 b))
    too_many_Meets b = rw (authorize_once-IsTransient _ (too_many b)) (too_many b)
status-Meets status body (inr (inr (inl (below, busy, out)))) =
    rw (out_of_range status body out below busy) (refused status body out below busy)
status-Meets status body (inr (inr (inr (low, high)))) =
    rw (read_body status body low high) (decoded-Meets status body low high)

statuses :
    (status : ℕ)
    → (500 ≤ status)
      ⊎ (status ≡ 429)
      ⊎ ((status < 500) × (status ≢ 429) × ((status < 200) ⊎ (300 ≤ status)))
      ⊎ ((200 ≤ status) × (status < 300))
statuses status = ground arith

pub authorize_once-Meets : (r : Response) → Meets r (authorize_once r)
authorize_once-Meets unreachable = rw (authorize_once-IsTransient _ no_connection) no_connection
authorize_once-Meets unreadable = rw (authorize_once-IsTransient _ no_body) no_body
authorize_once-Meets (answer status body) = status-Meets status body (statuses status)
