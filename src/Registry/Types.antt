-- ===== src/Registry/Types.antt =====
-- crates/session-core/src/lib.rs: the types of the registry.
use Prim.Native.Nat.{ℕ}
use session_chat.Prelude.{Bool, true, false}
use session_chat.Prelude.Bytes.{Bytes}
use session_chat.Prelude.Map.{Map}
use session_chat.Protocol.Error.{WireError}

pub record InvitationPolicy : Type 0 where
  pub maximum_lifetime : ℕ
  pub maximum_future_skew : ℕ
  pub maximum_live : ℕ

-- The view that a caller gets.
pub data InvitationLifecycle : Type 0 where
  is_available is_reserved is_consumed : InvitationLifecycle

pub data StoredInvitationLifecycle : Type 0 where
  available : StoredInvitationLifecycle
  reserved : (join_request_id : Bytes) → StoredInvitationLifecycle
  consumed : StoredInvitationLifecycle

pub data InvitationSchema : Type 0 where
  v1 v2 : InvitationSchema

-- `==` on schemas.
abbrev pub is_schema : InvitationSchema → InvitationSchema → Bool
is_schema v1 v1 = true
is_schema v2 v2 = true
is_schema _ _ = false

pub record InvitationReservation : Type 0 where
  pub invitation_id : Bytes
  pub join_request_id : Bytes
  pub record_signature : Bytes
  pub schema : InvitationSchema

pub record InvitationRecord : Type 0 where
  pub schema : InvitationSchema
  pub expires_at : ℕ
  pub inviter_verifying_key : Bytes
  pub signature : Bytes
  pub lifecycle : StoredInvitationLifecycle

pub record InvitationRegistry : Type 0 where
  pub policy : InvitationPolicy
  pub records : Map InvitationRecord

pub data InvitationLifecycleError : Type 0 where
  protocol : WireError → InvitationLifecycleError
  invalid_maximum_lifetime invalid_capacity : InvitationLifecycleError
  issued_too_far_in_future : (issued_at latest_allowed : ℕ) → InvitationLifecycleError
  expired : (expires_at now : ℕ) → InvitationLifecycleError
  lifetime_exceeds_policy : (actual maximum : ℕ) → InvitationLifecycleError
  duplicate_invitation_id : InvitationLifecycleError
  capacity_exceeded : (maximum : ℕ) → InvitationLifecycleError
  unknown_invitation descriptor_mismatch zero_join_request_id : InvitationLifecycleError
  already_reserved already_consumed reservation_mismatch not_reserved : InvitationLifecycleError
