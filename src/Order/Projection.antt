-- ===== src/Order/Projection.antt =====
-- The read model of orders: services/order/internal/app/projection/service.go over the table of
-- services/order/internal/infra/postgres/projection_repository.go, and the query of one order,
-- services/order/internal/app/query/get_order.go. The database reads a UUID as `uuid.Parse` does. A
-- body that is not JSON is `none`.
pub mod Shape
pub mod Effects
pub mod Redelivery
pub mod Following
use event_driven_order_fulfi.Common.{
  ℕ, ◌+◌, ◌≡◌, Bool, true, false, Option, none, some, List, [], ◌∷◌, leb, nat_key, if◌then◌else◌,
  Outcome, ok, err, or_fail,
}
use event_driven_order_fulfi.Common.Int.{ℤ}
use event_driven_order_fulfi.Common.Json.{Json}
use event_driven_order_fulfi.Common.Json
use event_driven_order_fulfi.Common.Table.{Table, lookup, put}
use event_driven_order_fulfi.Common.Session.{
  Session, Action, pure, raise, lift, read, exec, ◌>>=◌, ◌>>◌,
}
use event_driven_order_fulfi.Contracts.{EventType, order_placed, order_confirmed, order_cancelled}
use event_driven_order_fulfi.Contracts.OrderEvents.{
  OrderPlacedV1, unmarshal_order_placed, unmarshal_order_confirmed, unmarshal_order_cancelled,
}
use event_driven_order_fulfi.Consumer.{Failure, permanent, transient}
use event_driven_order_fulfi.Platform.{Platform, Text, Time}
use event_driven_order_fulfi.Order.Values.{
  Error, not_found, storage, OrderId, Status, pending, confirmed, cancelled, parse_order_id,
}
use event_driven_order_fulfi.Order.Aggregate.{Order}
use event_driven_order_fulfi.Order.Store.{Db, Projection, load}

-- ON CONFLICT (order_id) DO UPDATE … WHERE EXCLUDED.version >= order_projections.version
unfoldable pub upsert_row : Projection → Table OrderId Projection → Table OrderId Projection
upsert_row r t = elim (lookup r.order_id t) [
  | none ↦ put r.order_id r t
  | some old ↦ if leb old.version r.version then put r.order_id r t else t
]

-- UPDATE order_projections SET status = $2 WHERE order_id = $1
unfoldable pub set_status : OrderId → Status → Table OrderId Projection → Table OrderId Projection
set_status i st t = elim (lookup i t) [ none ↦ t | some old ↦ put i (record old { status = st }) t ]

-- Whether the statement has run, or a UUID could not be read, in which case it fails.
abbrev pub statement : Option (Table OrderId Projection → Table OrderId Projection) → Db → Bool × Db
statement none d = (false, d)
statement (some f) d = (true, record d { projections = f d.projections })

abbrev pub run_statement :
    Option (Table OrderId Projection → Table OrderId Projection) → Action Db Failure (Unit {0})
run_statement f = do done ← exec transient (statement f); if done then pure tt else raise transient

module _ ⦃p : Platform⦄ where
  -- The row that `applyOrderPlaced` asks for, with its UUIDs read.
  unfoldable pub placed_row : OrderPlacedV1 → Time → Option Projection
  placed_row ev at = Json.◌>>=◌ (p.uuid_parse ev.order_id) λ i.
      Json.◌>>=◌ (p.uuid_parse ev.customer_id) λ c. some (record {
        order_id = i;
        customer_id = c;
        status = pending;
        total_minor = ev.total_minor;
        currency = ev.currency;
        version = 1;
        placed_at = at;
      })

  -- `UpsertOrderPlaced`
  unfoldable pub upsert_order_placed : OrderPlacedV1 → Time → Action Db Failure (Unit {0})
  unfolding upsert_row placed_row
  upsert_order_placed ev at = run_statement (Json.◌>>=◌ (placed_row ev at) λ r. some (upsert_row r))

  -- `UpdateStatus`
  unfoldable pub update_status : Text → Status → Action Db Failure (Unit {0})
  unfolding set_status
  update_status order_id st =
      run_statement (Json.◌>>=◌ (p.uuid_parse order_id) λ i. some (set_status i st))

  unfoldable pub apply_order_placed : Option Json → Action Db Failure (Unit {0})
  unfolding upsert_order_placed
  apply_order_placed payload = do
    ev ← lift (or_fail (Json.◌>>=◌ payload unmarshal_order_placed) permanent)
    at ← lift (or_fail (p.parse_millis ev.placed_at) permanent)
    upsert_order_placed ev at

  unfoldable pub apply_order_confirmed : Option Json → Action Db Failure (Unit {0})
  unfolding update_status
  apply_order_confirmed payload = do
    ev ← lift (or_fail (Json.◌>>=◌ payload unmarshal_order_confirmed) permanent)
    update_status ev.order_id confirmed

  unfoldable pub apply_order_cancelled : Option Json → Action Db Failure (Unit {0})
  unfolding update_status
  apply_order_cancelled payload = do
    ev ← lift (or_fail (Json.◌>>=◌ payload unmarshal_order_cancelled) permanent)
    update_status ev.order_id cancelled

  -- `Service.Apply`
  unfoldable pub apply : EventType → Option Json → Action Db Failure (Unit {0})
  unfolding apply_order_placed apply_order_confirmed apply_order_cancelled
  apply order_placed payload = apply_order_placed payload
  apply order_confirmed payload = apply_order_confirmed payload
  apply order_cancelled payload = apply_order_cancelled payload
  apply _ payload = pure tt

  -- `GetOrder`
  unfoldable pub get_order : OrderId → Action Db Error Projection
  get_order i = do
    found ← read storage (λ d. lookup i d.projections)
    lift (or_fail found not_found)

-- `OrderView`
pub record OrderView : Type 0 where
  pub order_id : Text
  pub customer_id : Text
  pub status : Status
  pub total_minor : ℤ
  pub currency : Text
  pub version : ℕ

module _ ⦃p : Platform⦄ where
  abbrev pub view_of_row : Projection → OrderView
  view_of_row r = record {
    order_id = p.uuid_string r.order_id;
    customer_id = p.uuid_string r.customer_id;
    status = r.status;
    total_minor = r.total_minor;
    currency = r.currency;
    version = r.version;
  }

  abbrev pub view_of_order : Order → OrderView
  view_of_order agg = record {
    order_id = p.uuid_string agg.id;
    customer_id = p.uuid_string agg.customer_id;
    status = agg.status;
    total_minor = agg.total.minor_units;
    currency = agg.total.currency;
    version = agg.version;
  }

  unfoldable pub load_view : OrderId → Action Db Error OrderView
  load_view i = do agg ← load i; pure (view_of_order agg)

  or_load : OrderId → Outcome Error Projection × Session Db → Outcome Error OrderView × Session Db
  or_load i (ok r, s) = (ok (view_of_row r), s)
  or_load i (err not_found, s) = load_view i s
  or_load i (err e, s) = (err e, s)

  -- `GetOrderHandler.Handle`
  unfoldable pub handle_get_order : Text → Action Db Error OrderView
  unfolding get_order or_load load_view
  handle_get_order id = do i ← lift (parse_order_id id); λ s. or_load i (get_order i s)
