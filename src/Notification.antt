-- ===== src/Notification.antt =====
-- The notification service, services/notification: one message for each event of an order's life.
pub mod Contracts
pub mod Render
pub mod Dispatcher
pub mod Consumer
