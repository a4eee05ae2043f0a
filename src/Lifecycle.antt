-- ===== src/Lifecycle.antt =====
-- crates/transport-conformance/src/lifecycle_provider.rs: the deterministic provider of mailboxes that
-- rotate, behind the contracts of crates/session-transport.
pub mod Provider
pub mod Generations
pub mod Deliveries
pub mod Compromise
pub mod Acknowledged
