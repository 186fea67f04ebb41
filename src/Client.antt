-- ===== src/Client.antt =====
-- The client of client/src: the conversations that it keeps.
pub mod RatchetManager
