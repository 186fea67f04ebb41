-- ===== src/Outbox.antt =====
-- The outbox of outbox/src: messages on their way to the inboxes of their recipients.
pub mod Store
pub mod Node
pub mod Delivery
pub mod Retries
pub mod Requests
