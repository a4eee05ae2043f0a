-- ===== src/Tests.antt =====
-- Concrete inputs, and the theorems at them.
pub mod Instances
mod Protocol
mod Registry
mod Protection
mod Admission
mod Receive
mod Lifecycle
mod Transaction
mod Outbox
mod Transport
