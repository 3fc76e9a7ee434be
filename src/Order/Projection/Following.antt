-- ===== src/Order/Projection/Following.antt =====
-- The read model follows the aggregate: services/order/internal/app/projection/service.go and
-- services/order/internal/app/query/get_order.go against
-- services/order/internal/domain/order/order.go.
use event_driven_order_fulfi.Common.{
  ◌*◌, ◌/◌, ◌≡◌, refl, ◌∙◌, ap, true, Option, some, List, [], ◌∷◌, map, All, nat_key, ==_refl, ok,
}
use event_driven_order_fulfi.Common.Int.{int64_bound}
use event_driven_order_fulfi.Common.Json.{Json, fits}
use event_driven_order_fulfi.Common.Table.{lookup}
use event_driven_order_fulfi.Common.Session.{quiet, read, arrive}
use event_driven_order_fulfi.Contracts.{EventType, order_placed, order_confirmed, order_cancelled}
use event_driven_order_fulfi.Contracts.OrderEvents.{
  OrderPlacedV1, marshal_order_confirmed, marshal_order_cancelled,
}
use event_driven_order_fulfi.Contracts.OrderEvents.RoundTrip.{
  FitsWire, unmarshal-marshal_order_placed, unmarshal-marshal_order_confirmed,
  unmarshal-marshal_order_cancelled,
}
use event_driven_order_fulfi.Platform.{Platform, Text, Time}
use event_driven_order_fulfi.Order.Values.{OrderId, pending, confirmed, cancelled, parse_order_id}
use event_driven_order_fulfi.Order.Aggregate.{
  Order, OrderPlaced, DomainEvent, placed, confirmed_at, cancelled_at, new_order, apply, replay,
}
use event_driven_order_fulfi.Order.Store.{Db, Projection, OutboxMessage}
use event_driven_order_fulfi.Order.Commands.{contract_items, placed_message, lifecycle_outbox}
use event_driven_order_fulfi.Order.Projection.{
  placed_row, get_order, or_load, handle_get_order, view_of_order, view_of_row,
}
use event_driven_order_fulfi.Order.Projection.Shape.{
  Shape, become, set, act, followed_by, act-followed_by, IsFirst, at_order,
}
use event_driven_order_fulfi.Order.Projection.Effects.{shape_of}
use event_driven_order_fulfi.Order.Projection.Redelivery.{project, shape_of_all, project-Projected}

-- A message of the outbox as the projector reads it.
abbrev pub delivered : OutboxMessage → EventType × Option Json
delivered m = (m.event_type, some m.payload)

-- An event of the order's life behind its placement.
abbrev pub Concerns : OrderId → DomainEvent → Type 0
Concerns o (placed ev) = ⊥
Concerns o (confirmed_at i t) = i ≡ o
Concerns o (cancelled_at i r t) = i ≡ o

replay-kept :
    (changes : List DomainEvent) (o : OrderId) (agg : Order)
    → All (Concerns o) changes
    → ((replay agg changes).id ≡ agg.id)
      × ((replay agg changes).customer_id ≡ agg.customer_id)
      × ((replay agg changes).total ≡ agg.total)
unfolding replay apply
replay-kept [] o agg h = (refl, refl, refl)
replay-kept (placed ev ∷ changes) o agg h = absurd h.0
replay-kept (confirmed_at i t ∷ changes) o agg h = replay-kept changes o _ h.1
replay-kept (cancelled_at i r t ∷ changes) o agg h = replay-kept changes o _ h.1

at_own_order : (i o : OrderId) (s : Shape) → i ≡ o → at_order i o s ≡ s
at_own_order i o s e = rw (e, ==_refl o) refl

module _ ⦃p : Platform⦄ where
  shape_of_confirmed :
      (i o : OrderId) (t : Time)
      → i ≡ o
      → shape_of order_confirmed
          (some (
            marshal_order_confirmed
              (record { order_id = p.uuid_string i; confirmed_at = p.format_millis t })))
          o
        ≡ set confirmed
  unfolding shape_of
  shape_of_confirmed i o t e =
      rw (unmarshal-marshal_order_confirmed _, p.parse-string i)
        (at_own_order i o (set confirmed) e)

  shape_of_cancelled :
      (i o : OrderId) (r : Text) (t : Time)
      → i ≡ o
      → shape_of order_cancelled
          (some (
            marshal_order_cancelled (record {
              order_id = p.uuid_string i;
              reason = r;
              cancelled_at = p.format_millis t;
            })))
          o
        ≡ set cancelled
  unfolding shape_of
  shape_of_cancelled i o r t e =
      rw (unmarshal-marshal_order_cancelled _, p.parse-string i)
        (at_own_order i o (set cancelled) e)

  lifecycle_act :
      (changes : List DomainEvent) (o : OrderId) (agg : Order) (r : Projection)
      → All (Concerns o) changes
      → r.status ≡ agg.status
      → act (shape_of_all (map delivered (lifecycle_outbox changes)) o) (some r)
        ≡ some (record r { status = (replay agg changes).status })
  unfolding lifecycle_outbox shape_of_all replay apply
  lifecycle_act [] o agg r h e = rw (← e) refl
  lifecycle_act (placed ev ∷ changes) o agg r h e = absurd h.0
  lifecycle_act (confirmed_at i t ∷ changes) o agg r h e =
      let next =
        act-followed_by (set confirmed) (shape_of_all (map delivered (lifecycle_outbox changes)) o)
          (some r) in
      rw (shape_of_confirmed i o t h.0, next)
        (lifecycle_act changes o _ (record r { status = confirmed }) h.1 refl)
  lifecycle_act (cancelled_at i reason t ∷ changes) o agg r h e =
      let next =
        act-followed_by (set cancelled) (shape_of_all (map delivered (lifecycle_outbox changes)) o)
          (some r) in
      rw (shape_of_cancelled i o reason t h.0, next)
        (lifecycle_act changes o _ (record r { status = cancelled }) h.1 refl)

  -- The row of a placement, with its time to the millisecond.
  abbrev pub first_row : OrderPlaced → Projection
  first_row ev = record {
    order_id = ev.order_id;
    customer_id = ev.customer_id;
    status = pending;
    total_minor = ev.total.minor_units;
    currency = ev.total.currency;
    version = 1;
    placed_at = ev.placed_at / 1000000 * 1000000;
  }

  -- The numbers of a placement are within their Go types.
  abbrev pub Fits : OrderPlaced → Type 0
  Fits ev = All FitsWire (contract_items ev.items) × (fits int64_bound ev.total.minor_units ≡ true)

  abbrev placed_wire : OrderPlaced → OrderPlacedV1
  placed_wire ev = record {
    order_id = p.uuid_string ev.order_id;
    customer_id = p.uuid_string ev.customer_id;
    items = contract_items ev.items;
    ship_to = ev.ship_to;
    total_minor = ev.total.minor_units;
    currency = ev.total.currency;
    placed_at = p.format_millis ev.placed_at;
  }

  shape_of_placed :
      (ev : OrderPlaced)
      → Fits ev
      → shape_of order_placed (some (placed_message ev).payload) ev.order_id ≡ become (first_row ev)
  unfolding shape_of placed_message placed_row
  shape_of_placed ev (lines, total) =
      rw
        (
          unmarshal-marshal_order_placed (placed_wire ev) lines total,
          p.parse-format ev.placed_at,
          p.parse-string ev.order_id,
          p.parse-string ev.customer_id,
        )
        (at_own_order ev.order_id ev.order_id (become (first_row ev)) refl)

  -- What the order service publishes of a placement and the transitions behind it.
  abbrev pub published : OrderPlaced → List DomainEvent → List (EventType × Option Json)
  published ev changes = delivered (placed_message ev) ∷ map delivered (lifecycle_outbox changes)

  -- The aggregate that only the placement has been replayed to.
  abbrev placed_order : OrderPlaced → Order
  placed_order ev = record {
    id = ev.order_id;
    customer_id = ev.customer_id;
    items = ev.items;
    ship_to = ev.ship_to;
    total = ev.total;
    status = pending;
    version = 1;
    changes = [];
  }

  abbrev pub history_of : OrderPlaced → List DomainEvent → Order
  history_of ev changes = replay new_order (placed ev ∷ changes)

  published_act :
      (ev : OrderPlaced) (changes : List DomainEvent) (x : Option Projection)
      → Fits ev
      → All (Concerns ev.order_id) changes
      → act (shape_of_all (published ev changes) ev.order_id) x
        ≡ some (record (first_row ev) { status = (history_of ev changes).status })
  unfolding shape_of_all replay apply placed_message shape_of
  published_act ev changes x f h =
      let rest = shape_of_all (map delivered (lifecycle_outbox changes)) ev.order_id in
      ap (λ s. act (followed_by s rest) x) (shape_of_placed ev f)
      ∙ act-followed_by (become (first_row ev)) rest x
      ∙ lifecycle_act changes ev.order_id (placed_order ev) (first_row ev) h refl

  get_order_found :
      (o : OrderId) (d : Db) (r : Projection)
      → lookup o d.projections ≡ some r
      → (handle_get_order (p.uuid_string o) (quiet d)).0 ≡ ok (view_of_row r)
  unfolding handle_get_order parse_order_id get_order read arrive or_load
  get_order_found o d r h = rw (p.parse-string o, h) refl

  same_view :
      (ev : OrderPlaced) (changes : List DomainEvent)
      → All (Concerns ev.order_id) changes
      → view_of_row (record (first_row ev) { status = (history_of ev changes).status })
        ≡ record (view_of_order (history_of ev changes)) { version = 1 }
  unfolding replay apply
  same_view ev changes h =
      let (i, c, t) = replay-kept changes ev.order_id (placed_order ev) h in rw (i, c, t) refl

  -- Where everything answers and all rows stand at version 1: after the events of an order's life, as
  -- the order service publishes them, a query of the order shows the aggregate that the same history
  -- replays to, its ids, status, total and currency, always at version 1; the placement's numbers
  -- must be within their Go types.
  pub query_follows_aggregate :
      (ev : OrderPlaced) (changes : List DomainEvent) (d : Db)
      → Fits ev
      → All (Concerns ev.order_id) changes
      → IsFirst d.projections
      → (handle_get_order (p.uuid_string ev.order_id) (project (published ev changes) (quiet d))).0
        ≡ ok (record (view_of_order (history_of ev changes)) { version = 1 })
  query_follows_aggregate ev changes d f h first =
      let it = project-Projected (published ev changes) d first in
      let row =
        it.changed.rows ev.order_id
        ∙ published_act ev changes (lookup ev.order_id d.projections) f h in
      rw it.changed.at
        (get_order_found ev.order_id it.changed.db _ row ∙ ap (λ v. ok v) (same_view ev changes h))
