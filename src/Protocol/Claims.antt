-- ===== src/Protocol/Claims.antt =====
-- crates/session-protocol/src/invitation.rs: the claims of an invitation, and its fixed numbers.
use Prim.Native.Nat.{ℕ}
use session_chat.Prelude.{leb, if◌then◌else◌}
use session_chat.Prelude.Outcome.{Result, ok, err}
use session_chat.Prelude.Bytes.{Bytes, all_zero}
use session_chat.Protocol.Error.{
  WireError, zero_invitation_id, zero_join_challenge, zero_secret_capability,
  zero_invitation_key_id, zero_hpke_public_key, invalid_invitation_time_range,
}

pub record CapabilityInvitationClaims : Type 0 where
  pub invitation_id : Bytes
  pub issued_at : ℕ
  pub expires_at : ℕ
  pub join_challenge : Bytes
  pub capability : Bytes

pub record CapabilityInvitationV2Claims : Type 0 where
  pub base : CapabilityInvitationClaims
  pub invitation_key_id : Bytes
  pub hpke_recipient_public_key : Bytes

-- `SecretCapability::new`; the wrapper is its bytes here.
unfoldable pub secret_capability_new : Bytes → Result WireError Bytes
secret_capability_new bytes = if all_zero bytes then err zero_secret_capability else ok bytes

unfoldable pub claims_new :
    Bytes → ℕ → ℕ → Bytes → Bytes → Result WireError CapabilityInvitationClaims
claims_new id issued_at expires_at challenge capability =
    if all_zero id
    then err zero_invitation_id
    else if all_zero challenge
    then err zero_join_challenge
    else if leb expires_at issued_at
    then err (invalid_invitation_time_range issued_at expires_at)
    else ok (record {
      invitation_id = id;
      issued_at = issued_at;
      expires_at = expires_at;
      join_challenge = challenge;
      capability = capability;
    })

unfoldable pub claims_v2_new :
    CapabilityInvitationClaims → Bytes → Bytes → Result WireError CapabilityInvitationV2Claims
claims_v2_new base key_id public_key =
    if all_zero key_id
    then err zero_invitation_key_id
    else if all_zero public_key
    then err zero_hpke_public_key
    else ok
        (record { base = base; invitation_key_id = key_id; hpke_recipient_public_key = public_key })

-- `SignatureSuite::Ed25519`, `AdmissionMode::SecretCapability` and the other enums of one variant.
abbrev pub ed25519_suite : ℕ
ed25519_suite = 1

abbrev pub secret_capability_mode : ℕ
secret_capability_mode = 1

abbrev pub single_use : ℕ
single_use = 1

abbrev pub hpke_suite : ℕ
hpke_suite = 1

abbrev pub join_request_schema_v1 : ℕ
join_request_schema_v1 = 1

abbrev pub application_protocol_v1 : ℕ
application_protocol_v1 = 1

abbrev pub max_signed_invitation_bytes : ℕ
max_signed_invitation_bytes = 512
