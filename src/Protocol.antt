-- ===== src/Protocol.antt =====
-- crates/session-protocol: the versioned wire objects and their canonical encodings.
pub mod Error
pub mod Cbor
pub mod Parser
pub mod Envelope
pub mod Endpoint
pub mod Signature
pub mod Claims
pub mod Invitation
pub mod InvitationV2
pub mod ProtectedJoin
pub mod JoinRequest
