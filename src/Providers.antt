-- ===== src/Providers.antt =====
-- crates/providers/src: the clients of the model servers.
pub mod Sse
