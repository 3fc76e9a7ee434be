-- ===== src/Inventory.antt =====
-- The inventory service, services/inventory/internal.
pub mod Stock
pub mod Store
pub mod Requests
pub mod Service
pub mod Http
