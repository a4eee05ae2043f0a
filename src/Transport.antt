-- ===== src/Transport.antt =====
-- crates/session-transport: the contracts between the owner of the outbox, the coordinator and the
-- adapters, and the local mailbox.
pub mod OutboxPort
pub mod Contract
pub mod Dispatch
pub mod Coordinator
pub mod Mailbox
