-- ===== src/Lib.antt =====
-- Event-driven order fulfilment: the Go services of services/, as functions over explicit states.
--
-- The order service accepts orders, keeps each as a history of events, and stages integration events
-- in an outbox in the same transaction. A saga consumes the placements: it reserves stock at the
-- inventory service, takes the payment at the payment service, and then commits the stock and confirms
-- the order, or releases the stock and cancels the order. Other services project, ship and notify.
--
-- What models what:
--   Common        lists, tests, machine integers (int64 with its wrap-around), texts as code points,
--                 tables, JSON values, and Common/Session: a database connection as a monad. Every
--                 statement takes one turn of a schedule given from outside: other sessions commit,
--                 and then the statement is served, refused, or served with its reply lost.
--   Platform      what comes from outside the repository: UUIDs, letter case, time layouts, with the
--                 documented laws that the proofs use.
--   Contracts     services/order/internal/contracts/order_events.go: the events on the wire.
--   Order/Values, Order/Aggregate
--                 services/order/internal/domain/order: NewMoney is new_money, PlaceOrder place_order,
--                 Rehydrate rehydrate, and so on.
--   Order/Codec, Order/Store
--                 services/order/internal/infra/postgres/codec.go and order_repository.go: encodeEvent,
--                 decodeEvent, OrderRepository.Load and OrderRepository.Save.
--   Order/Commands
--                 services/order/internal/app/command, and infra/postgres/idempotency.go.
--   Order/Saga    services/order/internal/app/saga and infra/postgres/saga_repository.go. The ports are
--                 parameters that answer in any way, given the calls before; Order/Saga/Journal says
--                 which calls are in order.
--   Order/PaymentClient, Order/InventoryClient
--                 services/order/internal/infra/payment/client.go and infra/inventory/client.go;
--                 Order/PaymentClient/Responses says what each response of the payment service is worth.
--   Order/Projection
--                 services/order/internal/app/projection and app/query, over
--                 infra/postgres/projection_repository.go: Apply, UpsertOrderPlaced, UpdateStatus, and
--                 GetOrderHandler.Handle as handle_get_order.
--   Order/Relay   services/order/internal/infra/postgres/relay_store.go and worker/relay: DrainBatch is
--                 drain_batch, and the loop of Run is cycles.
--   Consumer      the loop that the workers of all services share, with dead letters and offsets:
--                 Run is run, its body process; Consumer/Delivery has the interface of a handler.
--   Order/Http    services/order/internal/presentation/http: PlaceOrder is respond_place_order, GetOrder
--                 respond_get_order.
--   Order/Projector, Order/Orchestrator, Notification/Consumer
--                 what the workers of these services do with a message, for that loop.
--   Fulfillment/Shipment, Fulfillment/Store, Fulfillment/Service, Fulfillment/Http, Fulfillment/Consumer
--                 services/fulfillment/internal: the domain, the repository, the use cases (Dispatch is
--                 dispatch_order, Deliver is deliver_order), the HTTP handlers, and handleConfirmed.
--   Notification  services/notification/internal: Render renders the texts, Dispatcher has Handle as
--                 handle, over RecordIfNew (record_if_new) and a Sender that may fail (send).
--   Inventory/Stock, Inventory/Http
--                 services/inventory/internal/domain/inventory, and the answers of
--                 services/inventory/internal/presentation/http.
--   Inventory/Store
--                 services/inventory/internal/infra/postgres/inventory_repository.go: Reserve is
--                 Holding.reserve, Release and Commit are Transitions.release and commit_stock.
--   Inventory/Requests, Inventory/Service
--                 services/inventory/internal/app: the checks of a command's lines, and the use cases.
--   Examples      concrete inputs at which the theorems apply.
--
-- Bounds: the payment client has at most four attempts, and a transaction of the inventory at most
-- five, as in the source. The endless loops of the workers are given by the number of their rounds,
-- over which the theorems quantify; no other loop of the source needs fuel, the loops over lists are
-- recursive on them. UUIDs and times are natural numbers; error texts are dropped and the sentinels
-- kept. A version is a natural number; its int64 is not exceeded.
--
-- Where other sessions or other services run beside an operation, Common/Session/Protocol and
-- Common/Session/Transaction say what they may do: keep an invariant, and move along an order.
--
-- Not modelled: the payment service (Java), HTTP routing and middleware, configuration, logging,
-- metrics and tracing, and the wiring of the processes.
pub mod Common
pub mod Platform
pub mod Contracts
pub mod Order
pub mod Inventory
pub mod Consumer
pub mod Fulfillment
pub mod Notification
pub mod Examples
