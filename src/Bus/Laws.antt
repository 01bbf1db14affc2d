-- ===== src/Bus/Laws.antt =====
-- Subscriptions and deliveries of the bus.
pub mod Delivery
pub mod Subscription
pub mod Clock
