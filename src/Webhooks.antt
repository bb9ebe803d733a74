-- ===== src/Webhooks.antt =====
-- Webhooks: their records (src/services/webhooks.ts) and the dispatches that deliver an event to them
-- (src/services/webhook-dispatches.ts).
pub mod Records
pub mod Events
pub mod Delivery
pub mod Dispatches
pub mod Attempts
