-- ===== src/Order/Store.antt =====
-- The order service's database (services/order/internal/infra/postgres/migrations) and its event
-- store, services/order/internal/infra/postgres/order_repository.go. Columns that nothing reads
-- back (generated event ids, trace ids, time stamps of rows) are left out.
pub mod Queries
pub mod Loading
pub mod Saving
pub mod ReadBack
use event_driven_order_fulfi.Common.{
  ℕ, suc, ◌+◌, ◌≡◌, Bool, true, false, ◌&&◌, Option, none, some, List, [], ◌∷◌, ◌++◌, nat_beq, ltb,
  if◌then◌else◌, Outcome, ok, err, or_fail,
}
use event_driven_order_fulfi.Common
use event_driven_order_fulfi.Common.Json.{Json}
use event_driven_order_fulfi.Common.Table.{Table}
use event_driven_order_fulfi.Common.Session.{
  Action, Session, pure, raise, lift, read, write, begin, commit, rolled_back, ◌>>=◌, ◌>>◌,
}
use event_driven_order_fulfi.Contracts.{EventType}
use event_driven_order_fulfi.Platform.{Platform, Text, Time, Uuid}
use event_driven_order_fulfi.Order.Values.{
  Error, storage, not_found, concurrency, OrderId, CustomerId, Status,
}
use event_driven_order_fulfi.Order.Aggregate.{
  Order, DomainEvent, placed, confirmed_at, cancelled_at, rehydrate,
}
use event_driven_order_fulfi.Order.Codec.{encode_event, decode_event}

-- A row of `order_events`.
pub record EventRow : Type 0 where
  pub order_id : OrderId
  pub version : ℕ
  pub event_type : EventType
  pub payload : Json

-- `app.OutboxMessage`. Every message of the service goes to one topic with one header; these and the
-- generated event id are left out, so messages are compared without them.
pub record OutboxMessage : Type 0 where
  pub aggregate_id : OrderId
  pub event_type : EventType
  pub payload : Json

-- A row of `outbox`; `published` tells whether `published_at` is set.
pub record OutboxRow : Type 0 where
  pub id : ℕ
  pub message : OutboxMessage
  pub published : Bool

-- `app.OrderProjection`, a row of `order_projections`.
pub record Projection : Type 0 where
  pub order_id : OrderId
  pub customer_id : CustomerId
  pub status : Status
  pub total_minor : Common.Int.ℤ
  pub currency : Text
  pub version : ℕ
  pub placed_at : Time

-- `next_id` is the identity sequence of the outbox.
pub record Db : Type 0 where
  pub events : List EventRow
  pub outbox : List OutboxRow
  pub next_id : ℕ
  pub keys : Table Text OrderId
  pub projections : Table OrderId Projection

-- `AggregateID`
unfoldable pub aggregate_id : DomainEvent → OrderId
aggregate_id (placed ev) = ev.order_id
aggregate_id (confirmed_at i t) = i
aggregate_id (cancelled_at i r t) = i

-- WHERE order_id = $1
unfoldable pub rows_of : OrderId → List EventRow → List EventRow
rows_of i [] = []
rows_of i (r ∷ rows) = let rest = rows_of i rows in if nat_beq r.order_id i then r ∷ rest else rest

insert_by_version : EventRow → List EventRow → List EventRow
insert_by_version r [] = r ∷ []
insert_by_version r (s ∷ rows) =
    let rest = insert_by_version r rows in
    if ltb s.version r.version then s ∷ rest else r ∷ s ∷ rows

-- ORDER BY version ASC
unfoldable pub by_version : List EventRow → List EventRow
unfolding insert_by_version
by_version [] = []
by_version (r ∷ rows) = insert_by_version r (by_version rows)

-- The unique constraint on (order_id, version).
unfoldable pub is_taken : OrderId → ℕ → List EventRow → Bool
is_taken i v [] = false
is_taken i v (r ∷ rows) =
    if nat_beq r.order_id i && nat_beq r.version v then true else is_taken i v rows

-- INSERT INTO order_events; `false` is a unique violation.
unfoldable pub insert_event : EventRow → Db → Bool × Db
unfolding is_taken
insert_event r d =
    if is_taken r.order_id r.version d.events
    then (false, d)
    else (true, record d { events = d.events ++ r ∷ [] })

-- INSERT INTO outbox. Its event ids are generated and left out, and so is their unique constraint.
unfoldable pub insert_outbox : OutboxMessage → Db → Unit {0} × Db
insert_outbox m d = (
  tt,
  record d {
    outbox = d.outbox ++ record { id = d.next_id; message = m; published = false } ∷ [];
    next_id = suc d.next_id;
  },
)

module _ ⦃p : Platform⦄ where
  unfoldable pub event_row : ℕ → DomainEvent → EventRow
  event_row v e = record {
    order_id = aggregate_id e;
    version = v;
    event_type = (encode_event e).0;
    payload = (encode_event e).1;
  }

  -- The loop of `Load` over the rows.
  unfoldable pub decode_rows : List EventRow → Outcome Error (List DomainEvent)
  decode_rows [] = ok []
  decode_rows (r ∷ rows) =
      Common.◌>>=◌ (decode_event r.event_type r.payload)
        λ e. Common.◌>>=◌ (decode_rows rows) λ history. ok (e ∷ history)

  -- What `Load` makes of the rows it reads; `rehydrate` refuses an empty history itself.
  unfoldable pub fold_rows : List EventRow → Outcome Error Order
  unfolding decode_rows
  fold_rows rows = Common.◌>>=◌ (decode_rows rows) rehydrate

  unfoldable pub load : OrderId → Action Db Error Order
  load i = do rows ← read storage (λ d. by_version (rows_of i d.events)); lift (fold_rows rows)

  -- The loop of `Save` over the staged events; `v` is the version before the first of them.
  unfoldable pub insert_events : ℕ → List DomainEvent → Action Db Error (Unit {0})
  unfolding event_row insert_event
  insert_events v [] = pure tt
  insert_events v (e ∷ changes) = do
    inserted ← write storage (insert_event (event_row (v + 1) e))
    if inserted then insert_events (v + 1) changes else raise concurrency

  -- The loop of `Save` over the outbox messages.
  unfoldable pub insert_messages : List OutboxMessage → Action Db Error (Unit {0})
  unfolding insert_outbox
  insert_messages [] = pure tt
  insert_messages (m ∷ rest) = do write storage (insert_outbox m); insert_messages rest

  unfoldable pub save_changes :
      List DomainEvent → ℕ → List OutboxMessage → Action Db Error (Unit {0})
  unfolding insert_events insert_messages
  save_changes [] expected outbox = pure tt
  save_changes (e ∷ changes) expected outbox = rolled_back (do
    begin storage
    insert_events expected (e ∷ changes)
    insert_messages outbox
    commit storage >> pure tt)

  unfoldable pub save : Order → ℕ → List OutboxMessage → Action Db Error (Unit {0})
  unfolding save_changes
  save agg expected outbox = save_changes agg.changes expected outbox
