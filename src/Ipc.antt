-- ===== src/Ipc.antt =====
-- The remote calls between the parts of the system, src/ipc.
pub mod Socket
pub mod Rpc
