-- ===== src/Registry.antt =====
-- crates/session-core/src/lib.rs: the inviter's registry of invitations.
pub mod Types
pub mod Issue
pub mod Reserve
pub mod Calls
pub mod Capacity
pub mod Transitions
pub mod Reservations
pub mod Time
