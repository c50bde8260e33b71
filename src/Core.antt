-- ===== src/Core.antt =====
-- Package core: what the service tells its clients of its core.
pub mod Activation
