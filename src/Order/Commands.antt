-- ===== src/Order/Commands.antt =====
-- The use cases that change orders, services/order/internal/app/command/place_order.go and
-- confirm_cancel.go, with the idempotency store,
-- services/order/internal/infra/postgres/idempotency.go. Logging and tracing are left out. The
-- generated order id and the clock's reading are arguments of each call.
pub mod Idempotency
pub mod Decisions
use event_driven_order_fulfi.Common.{
  ℕ, ◌-◌, ◌≡◌, Bool, true, false, Option, none, some, List, [], ◌∷◌, ◌++◌, length, Outcome, ok, err,
  if◌then◌else◌,
}
use event_driven_order_fulfi.Common
use event_driven_order_fulfi.Common.Int.{ℤ}
use event_driven_order_fulfi.Common.Text.{text_key}
use event_driven_order_fulfi.Common.Table.{Table, lookup, has, put}
use event_driven_order_fulfi.Common.Session.{Action, pure, raise, lift, read, exec, ◌>>=◌, ◌>>◌}
use event_driven_order_fulfi.Contracts.{EventType, order_placed, order_confirmed, order_cancelled}
use event_driven_order_fulfi.Contracts.OrderEvents.{
  marshal_order_placed, marshal_order_confirmed, marshal_order_cancelled, LineItemV1,
}
use event_driven_order_fulfi.Platform.{Platform, Text, Time}
use event_driven_order_fulfi.Order.Values.{
  Error, storage, validation, OrderId, LineItem, Status, pending, new_sku, new_quantity, new_money,
  new_address, new_idempotency_key, parse_order_id, parse_customer_id,
}
use event_driven_order_fulfi.Order.Aggregate.{
  OrderPlaced, DomainEvent, placed, confirmed_at, cancelled_at, Order, place_order, confirm, cancel,
}
use event_driven_order_fulfi.Order.Store.{Db, OutboxMessage, load, save}

pub record PlaceOrderLine : Type 0 where
  pub sku : Text
  pub quantity : ℤ
  pub unit_price_minor : ℤ
  pub currency : Text

pub record ShipTo : Type 0 where
  pub line1 : Text
  pub line2 : Text
  pub city : Text
  pub region : Text
  pub postal_code : Text
  pub country : Text

pub record PlaceOrderCommand : Type 0 where
  pub customer_id : Text
  pub idempotency_key : Text
  pub lines : List PlaceOrderLine
  pub ship : ShipTo

pub record PlaceOrderResult : Type 0 where
  pub order_id : Text
  pub status : Status
  pub idempotent : Bool

-- INSERT INTO idempotency_keys … ON CONFLICT DO NOTHING; whether a row was added.
unfoldable pub insert_key : Text → OrderId → Db → Bool × Db
insert_key key i d =
    if has key d.keys then (false, d) else (true, record d { keys = put key i d.keys })

-- The second query of `Reserve`, after a conflict.
existing_order : Text → Action Db Error (Option OrderId)
existing_order key = read storage (λ d. lookup key d.keys) >>= λ found. elim found [
  | none ↦ raise storage
  | some i ↦ pure (some i)
]

-- `IdempotencyStore.Reserve`: the order id that already holds the key, if one does.
unfoldable pub reserve : Text → OrderId → Action Db Error (Option OrderId)
unfolding insert_key existing_order
reserve key i = exec storage (insert_key key i) >>= λ inserted.
    if inserted then pure none else existing_order key

-- The items of the integration event.
unfoldable pub contract_items : List LineItem → List LineItemV1
contract_items [] = []
contract_items (it ∷ rest) =
    record { sku = it.sku; quantity = it.quantity; unit_price_minor = it.unit_price.minor_units }
    ∷ contract_items rest

module _ ⦃p : Platform⦄ where
  -- The loop of `buildLineItems`.
  unfoldable pub build_items : List PlaceOrderLine → Outcome Error (List LineItem)
  build_items [] = ok []
  build_items (l ∷ lines) = Common.◌>>=◌ (new_sku l.sku) λ sku.
      Common.◌>>=◌ (new_quantity l.quantity) λ qty.
        Common.◌>>=◌ (new_money l.currency l.unit_price_minor) λ price.
          Common.◌>>=◌ (build_items lines)
            λ items. ok (record { sku = sku; quantity = qty; unit_price = price } ∷ items)

  unfoldable pub build_line_items : List PlaceOrderLine → Outcome Error (List LineItem)
  unfolding build_items
  build_line_items [] = err validation
  build_line_items (l ∷ lines) = build_items (l ∷ lines)

  unfoldable pub placed_message : OrderPlaced → OutboxMessage
  unfolding contract_items
  placed_message ev = record {
    aggregate_id = ev.order_id;
    event_type = order_placed;
    payload = marshal_order_placed (record {
      order_id = p.uuid_string ev.order_id;
      customer_id = p.uuid_string ev.customer_id;
      items = contract_items ev.items;
      ship_to = ev.ship_to;
      total_minor = ev.total.minor_units;
      currency = ev.total.currency;
      placed_at = p.format_millis ev.placed_at;
    });
  }

  -- `toOutbox`: placements only.
  unfoldable pub to_outbox : List DomainEvent → List OutboxMessage
  unfolding placed_message
  to_outbox [] = []
  to_outbox (placed ev ∷ changes) = placed_message ev ∷ to_outbox changes
  to_outbox (confirmed_at i t ∷ changes) = to_outbox changes
  to_outbox (cancelled_at i r t ∷ changes) = to_outbox changes

  -- `lifecycleOutbox`: confirmations and cancellations only.
  unfoldable pub lifecycle_outbox : List DomainEvent → List OutboxMessage
  lifecycle_outbox [] = []
  lifecycle_outbox (placed ev ∷ changes) = lifecycle_outbox changes
  lifecycle_outbox (confirmed_at i t ∷ changes) =
      record {
        aggregate_id = i;
        event_type = order_confirmed;
        payload =
            marshal_order_confirmed
              (record { order_id = p.uuid_string i; confirmed_at = p.format_millis t });
      }
      ∷ lifecycle_outbox changes
  lifecycle_outbox (cancelled_at i r t ∷ changes) =
      record {
        aggregate_id = i;
        event_type = order_cancelled;
        payload =
            marshal_order_cancelled
              (record { order_id = p.uuid_string i; reason = r; cancelled_at = p.format_millis t });
      }
      ∷ lifecycle_outbox changes

  -- The part of `PlaceOrderHandler.Handle` behind a new idempotency key.
  unfoldable pub persist_placed : Outcome Error Order → Action Db Error PlaceOrderResult
  unfolding to_outbox
  persist_placed placement = do
    agg ← lift placement
    save agg 0 (to_outbox agg.changes)
    pure (record { order_id = p.uuid_string agg.id; status = agg.status; idempotent = false })

  -- `PlaceOrderHandler.Handle`; `fresh` is the generated order id.
  unfoldable pub handle_place :
      OrderId → Time → PlaceOrderCommand → Action Db Error PlaceOrderResult
  handle_place fresh now cmd = do
    key ← lift (new_idempotency_key cmd.idempotency_key)
    customer ← lift (parse_customer_id cmd.customer_id)
    items ← lift (build_line_items cmd.lines)
    ship ← lift (
        new_address cmd.ship.line1 cmd.ship.line2 cmd.ship.city cmd.ship.region cmd.ship.postal_code
          cmd.ship.country)
    found ← reserve key fresh
    elim found [
      | some existing ↦
          pure (record { order_id = p.uuid_string existing; status = pending; idempotent = true })
      | none ↦ persist_placed (place_order fresh customer items ship now)
    ]

  -- Saving what a transition has staged; nothing is written if it staged nothing.
  unfoldable pub persist_staged : List DomainEvent → Order → Action Db Error (Unit {0})
  unfolding lifecycle_outbox
  persist_staged [] agg = pure tt
  persist_staged (e ∷ changes) agg =
      save agg (agg.version - length (e ∷ changes)) (lifecycle_outbox (e ∷ changes))

  -- `ConfirmOrderHandler.Handle`
  unfoldable pub handle_confirm : Time → Text → Action Db Error (Unit {0})
  unfolding persist_staged
  handle_confirm now order_id = do
    oid ← lift (parse_order_id order_id)
    loaded ← load oid
    agg ← lift (confirm now loaded)
    persist_staged agg.changes agg

  -- `CancelOrderHandler.Handle`
  unfoldable pub handle_cancel : Text → Time → Text → Action Db Error (Unit {0})
  unfolding persist_staged
  handle_cancel reason now order_id = do
    oid ← lift (parse_order_id order_id)
    loaded ← load oid
    agg ← lift (cancel reason now loaded)
    persist_staged agg.changes agg
