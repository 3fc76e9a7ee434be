-- ===== src/Order/PaymentClient.antt =====
-- The order service's client of the payment service and its stub:
-- services/order/internal/infra/payment/{client,stub}.go. `net/http` and `encoding/json` answer from
-- outside: one `Response` stands for one call of `http.Client.Do` with the reading of its body and
-- the decoding of it. The waits between attempts are not modelled, except that one can be aborted.
pub mod Responses
pub mod Attempts
use event_driven_order_fulfi.Common.{
  ℕ, zero, suc, ◌+◌, ◌≡◌, Bool, true, false, ◌||◌, ◌&&◌, not, Option, none, some, List, [], ◌∷◌,
  ltb, leb, nat_beq, if◌then◌else◌,
}
use event_driven_order_fulfi.Common.Text.{txt, text_beq, trim_space}
use event_driven_order_fulfi.Platform.{Text}
use event_driven_order_fulfi.Order.Saga.{PaymentResult}

-- The fields of `captureResponse` that the client reads.
pub record CaptureResponse : Type 0 where
  pub approved : Bool
  pub provider_reference : Text
  pub decline_reason : Text

pub data Response : Type 0 where
  unreachable unreadable : Response
  -- A status, and the body if it decodes.
  answer : ℕ → Option CaptureResponse → Response

-- What one call gives: a result, or a failure and whether it is worth another attempt.
pub data Once : Type 0 where
  settled : PaymentResult → Once
  failed : Bool → Once

abbrev pub result_of : CaptureResponse → PaymentResult
result_of out =
    if out.approved
    then record { approved = true; reference = out.provider_reference; decline = [] }
    else record { approved = false; reference = []; decline = out.decline_reason }

abbrev decoded : Option CaptureResponse → Once
decoded none = failed false
decoded (some out) = settled (result_of out)

-- `authorizeOnce`
unfoldable pub authorize_once : Response → Once
authorize_once unreachable = failed true
authorize_once unreadable = failed true
authorize_once (answer status body) =
    if leb 500 status || nat_beq status 429
    then failed true
    else if ltb status 200 || leb 300 status
    then failed false
    else decoded body

abbrev pub max_attempts : ℕ
max_attempts = 4

-- What the outside does at one attempt: the response, and whether the context is cancelled during
-- the wait after it.
pub record Round : Type 0 where
  pub response : Response
  pub aborted : Bool

-- The result, or none for an error, and the number of calls made.
abbrev pub Authorized : Type 0
Authorized = Option PaymentResult × ℕ

-- The body of the loop; `left` attempts follow this one.
abbrev pub attempted : Once → Bool → ℕ → Authorized → Authorized
attempted (settled result) aborted left rest = (some result, 1)
attempted (failed false) aborted left rest = (none, 1)
attempted (failed true) aborted zero rest = (none, 1)
attempted (failed true) true (suc left) rest = (none, 1)
attempted (failed true) false (suc left) rest = (rest.0, suc rest.1)

-- The loop, with `left` attempts to go; `rounds 0` is the next one.
unfoldable pub attempts : ℕ → (ℕ → Round) → Authorized
attempts zero rounds = (none, 0)
attempts (suc left) rounds =
    attempted (authorize_once (rounds 0).response) (rounds 0).aborted left
      (attempts left (λ j. rounds (suc j)))

-- `Client.Authorize`
unfoldable pub authorize : (ℕ → Round) → Authorized
authorize rounds = attempts max_attempts rounds
