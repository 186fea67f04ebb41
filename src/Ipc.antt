-- ===== src/Ipc.antt =====
-- common/src/ipc: the values, messages and frames that the programs exchange over local sockets.
pub mod Value
pub mod Codec
pub mod Framing
