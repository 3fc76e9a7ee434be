-- ===== src/Fulfillment/Http.antt =====
-- The HTTP interface of the fulfillment service: handlers.go, dto.go and `classify` of apierrors.go
-- in services/fulfillment/internal/presentation/http. Messages and correlation ids of error bodies
-- are left out. A body that is not JSON is `none`.
use event_driven_order_fulfi.Common.{ℕ, Option, some, Outcome, ok, err, or_fail}
use event_driven_order_fulfi.Common.Text.{txt}
use event_driven_order_fulfi.Common.Json.{Json, get, as_fields, as_text, ◌>>=◌}
use event_driven_order_fulfi.Common.Session.{Session, Action, lift}
use event_driven_order_fulfi.Common.Session
use event_driven_order_fulfi.Platform.{Platform, Text, Time, Uuid}
use event_driven_order_fulfi.Fulfillment.Shipment.{
  Error, validation, invalid_identifier, shipment_not_found, shipment_exists, concurrency,
  invalid_transition, unavailable, Shipment, status_text,
}
use event_driven_order_fulfi.Fulfillment.Store.{World, get_by_order_id}
use event_driven_order_fulfi.Fulfillment.Service.{Service, dispatch_order, deliver_order}

unfoldable pub classify : Error → ℕ × Text
classify validation = (400, txt "VALIDATION_ERROR")
classify invalid_identifier = (400, txt "VALIDATION_ERROR")
classify shipment_not_found = (404, txt "NOT_FOUND")
classify shipment_exists = (409, txt "CONFLICT")
classify concurrency = (409, txt "CONFLICT")
classify invalid_transition = (409, txt "INVALID_STATE")
classify unavailable = (500, txt "INTERNAL")

pub record DispatchRequest : Type 0 where
  pub carrier : Text
  pub tracking_code : Text

unfoldable pub decode_dispatch : Json → Option DispatchRequest
decode_dispatch raw = do
  f ← as_fields raw
  carrier ← as_text (get (txt "carrier") f)
  tracking_code ← as_text (get (txt "trackingCode") f)
  some (record { carrier = carrier; tracking_code = tracking_code })

-- `shipmentResponse`
pub record ShipmentResponse : Type 0 where
  pub shipment_id : Text
  pub order_id : Text
  pub status : Text
  pub carrier : Text
  pub tracking_code : Text
  pub failure_reason : Text
  pub version : ℕ

pub data Response : Type 0 where
  shipment : ShipmentResponse → Response
  refusal : ℕ → Text → Response

-- `writeError`, or the shipment with status 200.
unfoldable pub respond_error : ℕ × Text → Response
respond_error (status, code) = refusal status code

module _ ⦃p : Platform⦄ where
  unfoldable pub to_shipment_response : Shipment → ShipmentResponse
  to_shipment_response s = record {
    shipment_id = p.uuid_string s.id;
    order_id = p.uuid_string s.order_id;
    status = status_text s.status;
    carrier = s.carrier;
    tracking_code = s.tracking_code;
    failure_reason = s.failure_reason;
    version = s.version;
  }

  unfoldable pub respond : Outcome Error Shipment → Response
  unfolding to_shipment_response classify respond_error
  respond (ok s) = shipment (to_shipment_response s)
  respond (err e) = respond_error (classify e)

  unfoldable pub parse_order_id : Text → Outcome Error Uuid
  parse_order_id path = or_fail (p.uuid_parse path) invalid_identifier

  -- A handler: the answer and the session behind it.
  abbrev pub answering : Service Shipment → Session World → Response × Session World
  answering m s = let (r, s') = m s in (respond r, s')

  unfoldable pub handle_get_shipment : Text → Session World → Response × Session World
  unfolding respond parse_order_id
  handle_get_shipment path =
      answering (Session.◌>>=◌ (lift (parse_order_id path)) λ o. get_by_order_id o)

  unfoldable pub handle_dispatch :
      Text → Option Json → Time → Session World → Response × Session World
  unfolding respond parse_order_id decode_dispatch
  handle_dispatch path body now = answering (
      Session.◌>>=◌ (lift (parse_order_id path)) λ o.
        Session.◌>>=◌ (lift (or_fail (body >>= decode_dispatch) validation))
          λ b. dispatch_order o b.carrier b.tracking_code now)

  unfoldable pub handle_deliver : Text → Time → Session World → Response × Session World
  unfolding respond parse_order_id
  handle_deliver path now =
      answering (Session.◌>>=◌ (lift (parse_order_id path)) λ o. deliver_order o now)
