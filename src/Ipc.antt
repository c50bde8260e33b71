-- ===== src/Ipc.antt =====
-- Package ipc: the protocol between the service and its clients.
pub mod Frame
