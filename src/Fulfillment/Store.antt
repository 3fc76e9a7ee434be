-- ===== src/Fulfillment/Store.antt =====
-- The fulfillment service's table and its repository,
-- services/fulfillment/internal/infra/postgres/shipment_repository.go, and the topic that it writes,
-- services/fulfillment/internal/infra/kafka/publisher.go, as one world: each statement and each
-- publication is served, refused, or served with its reply lost. `order_id` is unique and keys the
-- table. Trace headers are left out.
pub mod Newer
pub mod Guarantee
use event_driven_order_fulfi.Common.{
  ℕ, ◌+◌, ◌≡◌, Bool, true, false, ◌||◌, ◌&&◌, Option, none, some, List, [], ◌∷◌, ◌++◌, nat_beq,
  nat_key, if◌then◌else◌, Outcome, ok, err, or_fail,
}
use event_driven_order_fulfi.Common.Json.{Json}
use event_driven_order_fulfi.Common.Table.{Table, lookup, has, put}
use event_driven_order_fulfi.Common.Session.{Action, pure, raise, lift, read, exec, ◌>>=◌, ◌>>◌}
use event_driven_order_fulfi.Contracts.{EventType}
use event_driven_order_fulfi.Platform.{Text, Uuid}
use event_driven_order_fulfi.Fulfillment.Shipment.{
  Error, shipment_not_found, shipment_exists, concurrency, unavailable, Shipment,
}

-- `app.Event`
pub record Event : Type 0 where
  pub event_type : EventType
  pub key : Text
  pub payload : Json

-- The table, and the events on the topic, the latest first.
pub record World : Type 0 where
  pub shipments : Table Uuid Shipment
  pub topic : List Event

-- `GetByOrderID`
unfoldable pub get_by_order_id : Uuid → Action World Error Shipment
get_by_order_id i = do
  found ← read unavailable (λ w. lookup i w.shipments)
  lift (or_fail found shipment_not_found)

-- Whether a row has the primary key.
unfoldable pub has_id : Uuid → Table Uuid Shipment → Bool
has_id i [] = false
has_id i ((o, r) ∷ rows) = nat_beq r.id i || has_id i rows

-- INSERT INTO shipments; `false` is a unique violation.
unfoldable pub insert_row : Shipment → World → Bool × World
unfolding has_id
insert_row s w =
    if has s.order_id w.shipments || has_id s.id w.shipments
    then (false, w)
    else (true, record w { shipments = put s.order_id s w.shipments })

-- `Insert`
unfoldable pub insert : Shipment → Action World Error (Unit {0})
unfolding insert_row
insert s = do
  inserted ← exec unavailable (insert_row s)
  if inserted then pure tt else raise shipment_exists

-- What UPDATE shipments SET … WHERE id = $6 AND version = $7 makes of a row.
unfoldable pub matches : Shipment → Shipment → Bool
matches s r = nat_beq r.id s.id && nat_beq r.version s.version

unfoldable pub update_row : Shipment → Shipment → Shipment
unfolding matches
update_row s r =
    if matches s r
    then record r {
      status = s.status;
      carrier = s.carrier;
      tracking_code = s.tracking_code;
      failure_reason = s.failure_reason;
      version = r.version + 1;
      updated_at = s.updated_at;
    }
    else r

unfoldable pub update_rows : Shipment → Table Uuid Shipment → Table Uuid Shipment
unfolding update_row
update_rows s [] = []
update_rows s ((o, r) ∷ rows) = (o, update_row s r) ∷ update_rows s rows

-- Whether `RowsAffected` is positive.
unfoldable pub affects : Shipment → Table Uuid Shipment → Bool
unfolding matches
affects s [] = false
affects s ((o, r) ∷ rows) = matches s r || affects s rows

abbrev pub written : Shipment → World → Bool × World
written s w = (affects s w.shipments, record w { shipments = update_rows s w.shipments })

-- `Update`
unfoldable pub update : Shipment → Action World Error (Unit {0})
unfolding affects update_rows
update s = do
  affected ← exec unavailable (written s)
  if affected then pure tt else raise concurrency

-- `Publisher.Publish` of one event
unfoldable pub publish : Event → Action World Error (Unit {0})
publish e = exec unavailable (λ w. (tt, record w { topic = e ∷ w.topic }))
