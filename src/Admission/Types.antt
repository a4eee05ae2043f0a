-- ===== src/Admission/Types.antt =====
-- crates/admission-capability/src/lib.rs: the types, and the creation of policy and verifier.
use session_chat.Prelude.{ℕ, List, [], ◌||◌, ◌==◌, if◌then◌else◌}
use session_chat.Prelude.Outcome.{Result, ok, err}
use session_chat.Prelude.Bytes.{Bytes}
use session_chat.Protection.Requests.{OpenedCapabilityJoinRequest}
use session_chat.Registry.Types.{InvitationReservation}
use session_chat.Admission.Contract.{ApprovalContext}

pub record CapabilityAdmissionPolicy : Type 0 where
  pub maximum_request_lifetime : ℕ
  pub maximum_future_skew : ℕ
  pub maximum_pending_requests : ℕ

pub data CapabilityAdmissionError : Type 0 where
  invalid_policy rejected replay capacity_exceeded reservation_mismatch : CapabilityAdmissionError

unfoldable pub policy_new :
    (maximum_request_lifetime maximum_future_skew maximum_pending_requests : ℕ)
    → Result CapabilityAdmissionError CapabilityAdmissionPolicy
policy_new lifetime skew pending =
    if lifetime == 0 || pending == 0
    then err invalid_policy
    else ok (record {
      maximum_request_lifetime = lifetime;
      maximum_future_skew = skew;
      maximum_pending_requests = pending;
    })

pub record ReplayGeneration : Type 0 where
  pub invitation_id : Bytes
  pub join_challenge : Bytes
  pub invitation_key_id : Bytes
  pub intended_verifier : Bytes

pub record ReplayReservation : Type 0 where
  pub generation : ReplayGeneration
  pub join_request_id : Bytes
  pub request_nonce : Bytes
  pub reservation_id : ℕ

pub record PendingReplay : Type 0 where
  pub generation : ReplayGeneration
  pub join_request_id : Bytes
  pub request_nonce : Bytes
  pub expires_at : ℕ
  pub reservation_id : ℕ

pub record CapabilityAdmissionVerifier : Type 0 where
  pub policy : CapabilityAdmissionPolicy
  pub pending : List PendingReplay
  pub next_reservation_id : ℕ

unfoldable pub new : CapabilityAdmissionPolicy → CapabilityAdmissionVerifier
new policy = record { policy = policy; pending = []; next_reservation_id = 1 }

-- crates/session-crypto-mls/src/lib.rs: what the validation of a KeyPackage gives. The parsed MLS
-- message is the one of `key_package`, the bytes that were validated.
pub record ValidatedKeyPackage : Type 0 where
  pub key_package : Bytes
  pub reference : Bytes
  pub credential_identity : Bytes
  pub leaf_signature_key : Bytes

pub record VerifiedCapabilityAdmission : Type 0 where
  pub opened : OpenedCapabilityJoinRequest
  pub validated : ValidatedKeyPackage
  pub reservation : ReplayReservation

pub record PendingCapabilityApproval : Type 0 where
  pub verified : VerifiedCapabilityAdmission
  pub invitation_reservation : InvitationReservation
  pub approval_context : ApprovalContext

pub record ApprovedCapabilityAdmission : Type 0 where
  pub verified : VerifiedCapabilityAdmission
  pub invitation_reservation : InvitationReservation

pub data CapabilityApprovalOutcome : Type 0 where
  approved : ApprovedCapabilityAdmission → CapabilityApprovalOutcome
  was_rejected : CapabilityApprovalOutcome
