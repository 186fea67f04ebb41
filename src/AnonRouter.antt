-- ===== src/AnonRouter.antt =====
-- The anonymity router (anonrouter/src): one module for each of its files.
pub mod Cell
pub mod Guard
pub mod Tft
pub mod Garlic
pub mod Node
pub mod Tunnel
pub mod Channel
pub mod Handshake
pub mod Router
