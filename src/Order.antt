-- ===== src/Order.antt =====
-- The order service, services/order/internal: its domain, use cases, stores and workers.
pub mod Values
pub mod Aggregate
pub mod Codec
pub mod Store
pub mod Commands
pub mod Saga
pub mod Projection
pub mod Relay
pub mod PaymentClient
pub mod InventoryClient
pub mod Http
pub mod Projector
pub mod Orchestrator
