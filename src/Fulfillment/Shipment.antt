-- ===== src/Fulfillment/Shipment.antt =====
-- The shipment aggregate: services/fulfillment/internal/domain/fulfillment/{shipment,status,errors}.go.
pub mod Lifecycle
use event_driven_order_fulfi.Common.{
  ℕ, ◌≡◌, [], Bool, true, false, not, nat_beq, if◌then◌else◌, Outcome, ok, err,
}
use event_driven_order_fulfi.Common.Text.{txt, text_beq}
use event_driven_order_fulfi.Platform.{Text, Time, Uuid, nil_uuid}

-- The sentinels of errors.go; `unavailable` is any error that wraps none of them.
pub data Error : Type 0 where
  validation invalid_identifier shipment_not_found shipment_exists concurrency : Error
  invalid_transition unavailable : Error

pub data ShipmentStatus : Type 0 where
  created dispatched delivered failed : ShipmentStatus

unfoldable pub status_beq : ShipmentStatus → ShipmentStatus → Bool
status_beq created s = elim s [ created ↦ true | _ ↦ false ]
status_beq dispatched s = elim s [ dispatched ↦ true | _ ↦ false ]
status_beq delivered s = elim s [ delivered ↦ true | _ ↦ false ]
status_beq failed s = elim s [ failed ↦ true | _ ↦ false ]

-- The column and the JSON value of a status.
unfoldable pub status_text : ShipmentStatus → Text
status_text created = txt "CREATED"
status_text dispatched = txt "DISPATCHED"
status_text delivered = txt "DELIVERED"
status_text failed = txt "FAILED"

pub record Shipment : Type 0 where
  pub id : Uuid
  pub order_id : Uuid
  pub status : ShipmentStatus
  pub carrier : Text
  pub tracking_code : Text
  pub failure_reason : Text
  pub version : ℕ
  pub created_at : Time
  pub updated_at : Time

-- `id` is the generated one.
unfoldable pub create : Uuid → Uuid → Time → Outcome Error Shipment
create id order_id now =
    if nat_beq order_id nil_uuid
    then err validation
    else ok (record {
      id = id;
      order_id = order_id;
      status = created;
      carrier = [];
      tracking_code = [];
      failure_reason = [];
      version = 0;
      created_at = now;
      updated_at = now;
    })

-- The transitions give whether the shipment changed, and the shipment.
unfoldable pub dispatch : Text → Text → Time → Shipment → Outcome Error (Bool × Shipment)
unfolding status_beq
dispatch carrier tracking_code now s =
    if status_beq s.status dispatched
    then ok (false, s)
    else if not (status_beq s.status created)
    then err invalid_transition
    else if text_beq carrier []
    then err validation
    else ok (
      true,
      record s {
        status = dispatched;
        carrier = carrier;
        tracking_code = tracking_code;
        updated_at = now;
      },
    )

unfoldable pub deliver : Time → Shipment → Outcome Error (Bool × Shipment)
unfolding status_beq
deliver now s =
    if status_beq s.status delivered
    then ok (false, s)
    else if not (status_beq s.status dispatched)
    then err invalid_transition
    else ok (true, record s { status = delivered; updated_at = now })

unfoldable pub fail : Text → Time → Shipment → Outcome Error (Bool × Shipment)
unfolding status_beq
fail reason now s =
    if status_beq s.status failed
    then ok (false, s)
    else if status_beq s.status delivered
    then err invalid_transition
    else ok (true, record s { status = failed; failure_reason = reason; updated_at = now })
