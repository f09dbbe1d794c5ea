-- ===== src/Messaging.antt =====
-- The WhatsApp message pipeline: the durable inbox and its worker, the sending account, the outbox
-- and its worker, and the relay of domain events.
pub mod Inbox
pub mod Accounts
pub mod Outbox
pub mod Events
