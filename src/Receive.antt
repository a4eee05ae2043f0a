-- ===== src/Receive.antt =====
-- crates/session-transport and crates/transport-conformance: mailbox generations, receive checkpoints
-- and pages, and the owner of durable receive progress.
pub mod Binding
pub mod Rotation
pub mod Page
pub mod Checkpoint
pub mod State
pub mod Commit
pub mod Leasing
pub mod Stored
pub mod Backed
pub mod Inbox
pub mod Recovery
pub mod Revisions
pub mod Bounds
pub mod Calls
