-- ===== src/Admission.antt =====
-- crates/admission-capability and crates/session-admission: admission to a session by capability.
pub mod Contract
pub mod Types
pub mod Verify
pub mod Approval
pub mod Addition
pub mod Calls
pub mod Replay
pub mod Settled
pub mod Rejected
