-- ===== src/Order/Http.antt =====
-- The HTTP interface of the order service: handlers.go, dto.go and `classify` of apierrors.go in
-- services/order/internal/presentation/http. The strict decoding of a body and the check of a token
-- come from outside: a malformed body is `none`, and so is a request without a principal. Messages
-- and correlation ids of error bodies are left out.
use event_driven_order_fulfi.Common.{ℕ, Option, none, some, List, [], ◌∷◌, Outcome, ok, err}
use event_driven_order_fulfi.Common.Int.{ℤ}
use event_driven_order_fulfi.Common.Text.{txt}
use event_driven_order_fulfi.Common.Session.{Session}
use event_driven_order_fulfi.Platform.{Platform, Text, Time, Uuid}
use event_driven_order_fulfi.Order.Values.{
  Error, Status, validation, invalid_identifier, not_found, concurrency, invalid_transition,
  storage,
}
use event_driven_order_fulfi.Order.Store.{Db}
use event_driven_order_fulfi.Order.Commands.{
  PlaceOrderLine, PlaceOrderCommand, PlaceOrderResult, handle_place,
}
use event_driven_order_fulfi.Order.Projection.{OrderView, handle_get_order}

unfoldable pub classify : Error → ℕ × Text
classify validation = (400, txt "VALIDATION_ERROR")
classify invalid_identifier = (400, txt "VALIDATION_ERROR")
classify not_found = (404, txt "NOT_FOUND")
classify concurrency = (409, txt "CONFLICT")
classify invalid_transition = (500, txt "INTERNAL")
classify storage = (500, txt "INTERNAL")

-- `itemDTO`, `addressDTO` and `placeOrderRequest`
pub record Item : Type 0 where
  pub sku : Text
  pub quantity : ℤ
  pub unit_price_minor : ℤ
  pub currency : Text

pub record AddressDto : Type 0 where
  pub line1 : Text
  pub line2 : Text
  pub city : Text
  pub region : Text
  pub postal_code : Text
  pub country : Text

pub record PlaceOrderRequest : Type 0 where
  pub customer_id : Text
  pub items : List Item
  pub ship_to : AddressDto

pub data Response : Type 0 where
  accepted : Text → Status → Response
  view : OrderView → Response
  refusal : ℕ → Text → Response

-- `writeError`
unfoldable pub respond_error : ℕ × Text → Response
respond_error (status, code) = refusal status code

unfoldable pub to_command_lines : List Item → List PlaceOrderLine
to_command_lines [] = []
to_command_lines (it ∷ rest) =
    record {
      sku = it.sku;
      quantity = it.quantity;
      unit_price_minor = it.unit_price_minor;
      currency = it.currency;
    }
    ∷ to_command_lines rest

-- The customer of the token, or else of the body.
unfoldable pub customer_of : Option Text → Text → Text
customer_of none body = body
customer_of (some principal) body = principal

unfoldable pub command_of : Text → Option Text → PlaceOrderRequest → PlaceOrderCommand
unfolding to_command_lines customer_of
command_of key principal req = record {
  customer_id = customer_of principal req.customer_id;
  idempotency_key = key;
  lines = to_command_lines req.items;
  ship = record {
    line1 = req.ship_to.line1;
    line2 = req.ship_to.line2;
    city = req.ship_to.city;
    region = req.ship_to.region;
    postal_code = req.ship_to.postal_code;
    country = req.ship_to.country;
  };
}

unfoldable pub answer_place : Outcome Error PlaceOrderResult × Session Db → Response × Session Db
unfolding classify respond_error
answer_place (ok r, s) = (accepted r.order_id r.status, s)
answer_place (err e, s) = (respond_error (classify e), s)

unfoldable pub answer_get : Outcome Error OrderView × Session Db → Response × Session Db
unfolding classify respond_error
answer_get (ok v, s) = (view v, s)
answer_get (err e, s) = (respond_error (classify e), s)

module _ ⦃p : Platform⦄ where
  -- `Handlers.PlaceOrder`, given the key of the header, the principal and the decoded body.
  unfoldable pub respond_place_order :
      Uuid
      → Time
      → Text
      → Option Text
      → Option PlaceOrderRequest
      → Session Db
      → Response × Session Db
  unfolding command_of answer_place
  respond_place_order id now [] principal body s = (respond_error (classify validation), s)
  respond_place_order id now (k ∷ key) principal none s = (respond_error (classify validation), s)
  respond_place_order id now (k ∷ key) principal (some req) s =
      answer_place (handle_place id now (command_of (k ∷ key) principal req) s)

  -- `Handlers.GetOrder`
  unfoldable pub respond_get_order : Text → Session Db → Response × Session Db
  unfolding answer_get
  respond_get_order id s = answer_get (handle_get_order id s)
