-- ===== src/Webhook.antt =====
-- Webhook deliveries: src/services/fp-webhook.service.ts.
pub mod Inbox
pub mod Delivery
pub mod Retries
mod Tests
