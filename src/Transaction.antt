-- ===== src/Transaction.antt =====
-- crates/session-inviter-transaction/src/lib.rs: the inviter's join transaction and its outbox.
pub mod Types
pub mod Commit
pub mod Seed
pub mod Delivery
pub mod Port
pub mod Calls
pub mod Atomic
pub mod Records
pub mod Bounds
pub mod Recovery
pub mod Likeness
pub mod SingleUse
pub mod Leases
pub mod Attempts
pub mod Next
pub mod Delivered
pub mod Stale
