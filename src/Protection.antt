-- ===== src/Protection.antt =====
-- crates/session-crypto-hpke/src/lib.rs: the one-shot protection of a join request under an invitation.
pub mod Provider
pub mod Invitations
pub mod Requests
pub mod RoundTrip
pub mod Restored
