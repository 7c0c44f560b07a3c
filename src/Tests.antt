-- ===== src/Tests.antt =====
-- Runs of the modelled code on concrete inputs.
pub mod Permissions
pub mod Sessions
pub mod Logs
pub mod Streams
pub mod Redactions
pub mod Retries
pub mod Chains
pub mod Spills
pub mod Turns
