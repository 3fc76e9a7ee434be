-- ===== src/Fulfillment/Service.antt =====
-- The fulfillment use cases, services/fulfillment/internal/app/service.go. The clock's reading and
-- the generated id of a shipment are arguments.
pub mod Lifecycle
pub mod Acknowledged
pub mod Delivery
use event_driven_order_fulfi.Common.{
  ◌≡◌, Bool, true, false, List, [], ◌∷◌, if◌then◌else◌, Outcome, ok, err,
}
use event_driven_order_fulfi.Common.Session.{Session, Action, pure, raise, lift, ◌>>=◌, ◌>>◌}
use event_driven_order_fulfi.Contracts.{
  EventType, shipment_created, shipment_dispatched, shipment_delivered,
}
use event_driven_order_fulfi.Platform.{Platform, Text, Time, Uuid}
use event_driven_order_fulfi.Fulfillment.Contracts.{
  marshal_shipment_created, marshal_shipment_dispatched, marshal_shipment_delivered,
}
use event_driven_order_fulfi.Fulfillment.Shipment.{
  Error, shipment_not_found, shipment_exists, Shipment, created, status_beq, status_text, create,
  dispatch, deliver,
}
use event_driven_order_fulfi.Fulfillment.Store.{
  Event, World, get_by_order_id, insert, update, publish,
}

abbrev pub Service : Type 0 → Type 0
Service A = Action World Error A

-- `if errors.Is(err, e) { return k }`, for a step that gives the shipment.
abbrev pub branch_on :
    (Error → Bool)
    → Outcome Error Shipment × Session World
    → Service Shipment
    → Outcome Error Shipment × Session World
branch_on is (ok a, s) k = (ok a, s)
branch_on is (err e, s) k = if is e then k s else (err e, s)

unfoldable pub unless_error :
    (Error → Bool) → Service Shipment → Service Shipment → Service Shipment
unless_error is m k s = branch_on is (m s) k

unfoldable pub is_not_found : Error → Bool
is_not_found shipment_not_found = true
is_not_found _ = false

unfoldable pub is_exists : Error → Bool
is_exists shipment_exists = true
is_exists _ = false

module _ ⦃p : Platform⦄ where
  abbrev pub created_event : Shipment → Event
  created_event s = record {
    event_type = shipment_created;
    key = p.uuid_string s.order_id;
    payload = marshal_shipment_created (record {
      shipment_id = p.uuid_string s.id;
      order_id = p.uuid_string s.order_id;
      status = status_text s.status;
      created_at = p.format_millis s.created_at;
    });
  }

  abbrev pub dispatched_event : Uuid → Shipment → Event
  dispatched_event i s = record {
    event_type = shipment_dispatched;
    key = p.uuid_string i;
    payload = marshal_shipment_dispatched (record {
      shipment_id = p.uuid_string s.id;
      order_id = p.uuid_string s.order_id;
      carrier = s.carrier;
      tracking_code = s.tracking_code;
      dispatched_at = p.format_millis s.updated_at;
    });
  }

  abbrev pub delivered_event : Uuid → Shipment → Event
  delivered_event i s = record {
    event_type = shipment_delivered;
    key = p.uuid_string i;
    payload = marshal_shipment_delivered (record {
      shipment_id = p.uuid_string s.id;
      order_id = p.uuid_string s.order_id;
      delivered_at = p.format_millis s.updated_at;
    });
  }

  -- `CreateForOrder`: the insertion, and the winner of a race.
  unfoldable pub insert_or_load : Uuid → Shipment → Service Shipment
  unfolding unless_error is_exists
  insert_or_load order_id s = unless_error is_exists (insert s >> pure s) (get_by_order_id order_id)

  unfoldable pub open_shipment : Uuid → Uuid → Time → Service Shipment
  open_shipment id order_id now = do s ← lift (create id order_id now); insert_or_load order_id s

  -- `CreateForOrder`: the announcement of a shipment that is still created.
  unfoldable pub announce : Shipment → Service Shipment
  unfolding status_beq
  announce s = if status_beq s.status created then publish (created_event s) >> pure s else pure s

  unfoldable pub create_for_order : Uuid → Uuid → Time → Service Shipment
  unfolding unless_error is_not_found open_shipment
  create_for_order id order_id now = do
    s ← unless_error is_not_found (get_by_order_id order_id) (open_shipment id order_id now)
    announce s

  -- A transition that changed the shipment is stored, then announced.
  unfoldable pub conclude : (Shipment → Event) → Bool × Shipment → Service Shipment
  conclude event (false, s) = pure s
  conclude event (true, s) = do update s; publish (event s); pure s

  -- `Dispatch`
  unfoldable pub dispatch_order : Uuid → Text → Text → Time → Service Shipment
  unfolding conclude
  dispatch_order order_id carrier tracking_code now = do
    s ← get_by_order_id order_id
    moved ← lift (dispatch carrier tracking_code now s)
    conclude (dispatched_event order_id) moved

  -- `Deliver`
  unfoldable pub deliver_order : Uuid → Time → Service Shipment
  unfolding conclude
  deliver_order order_id now = do
    s ← get_by_order_id order_id
    moved ← lift (deliver now s)
    conclude (delivered_event order_id) moved
