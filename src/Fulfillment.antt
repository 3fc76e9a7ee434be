-- ===== src/Fulfillment.antt =====
-- The fulfillment service, services/fulfillment: one shipment for each confirmed order.
pub mod Contracts
pub mod Shipment
pub mod Store
pub mod Service
pub mod Http
pub mod Consumer
