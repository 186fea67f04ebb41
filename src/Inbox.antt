-- ===== src/Inbox.antt =====
-- The inbox of inbox/src: messages that arrive while the client is away, and what becomes of them.
pub mod Store
pub mod Frame
pub mod Node
pub mod Delivery
pub mod Rounds
pub mod Requests
pub mod Quiet
pub mod Told
pub mod Invariant
pub mod Events
pub mod Serving
pub mod Arrivals
pub mod Keeping
