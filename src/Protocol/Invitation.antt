-- ===== src/Protocol/Invitation.antt =====
-- crates/session-protocol/src/invitation.rs: the signed capability invitation, version 1.
pub mod Canonical
use Prim.Native.Nat.{ℕ}
use Prim.Native.Char.{Char, code}
use Prim.Native.String
use Prim.Native.String.{String}
use session_chat.Prelude.{List, [], ◌∷◌, ◌++◌, ltb, leb, if◌then◌else◌, length}
use session_chat.Prelude.Outcome.{Result, ok, err}
use session_chat.Prelude.Bytes.{Bytes, same, codes}
use session_chat.Protocol.Error.{
  WireError, wire_object_too_large, unsupported_version, unsupported_object_type,
  unsupported_signature_suite, unsupported_admission_mode, unsupported_invitation_use_policy,
  unsupported_invitation_encryption_suite, unsupported_join_request_schema,
  unsupported_application_protocol_version, unsupported_transport_profile,
  invalid_invitation_id_length, invalid_join_challenge_length, invalid_secret_capability_length,
  invalid_verifying_key_length, invalid_signature_length, invalid_invitation_key_id_length,
  invalid_hpke_public_key_length, invalid_verifying_key, invalid_signature,
  non_deterministic_encoding, signed_capability_invitation, object_type_number, protocol_version,
}
use session_chat.Protocol.Cbor.{Cbor, written}
use session_chat.Protocol.Signature.{Ed25519}
use session_chat.Protocol.Endpoint.{local_memory}
use session_chat.Protocol.Claims.{
  CapabilityInvitationClaims, CapabilityInvitationV2Claims, claims_new, claims_v2_new,
  secret_capability_new, ed25519_suite, secret_capability_mode, single_use, hpke_suite,
  join_request_schema_v1, application_protocol_v1, max_signed_invitation_bytes,
}
use session_chat.Protocol.Parser.{
  Parser, ◌>>=◌, ◌>>◌, return, check, lift, run, u64, require_array, require_value, decode_fixed,
  reject_trailing,
}

pub record SignedCapabilityInvitation : Type 0 where
  pub claims : CapabilityInvitationClaims
  pub inviter_verifying_key : Bytes
  pub signature : Bytes

abbrev pub signature_domain : Bytes
signature_domain = codes "session-chat/signed-invitation/v1" ++ 0 ∷ []

abbrev pub unsigned_invitation_fields : ℕ
unsigned_invitation_fields = 11

abbrev pub signed_invitation_fields : ℕ
signed_invitation_fields = 12

module _ (c : Cbor) where
  -- What `encode_fields` appends, in its order.
  abbrev pub fields : ℕ → CapabilityInvitationClaims → Bytes → List Bytes
  fields field_count claims key =
      c.put_array field_count
      ∷ c.put_u16 protocol_version
      ∷ c.put_u16 (object_type_number signed_capability_invitation)
      ∷ c.put_u16 ed25519_suite
      ∷ c.put_bytes claims.invitation_id
      ∷ c.put_u64 claims.issued_at
      ∷ c.put_u64 claims.expires_at
      ∷ c.put_u16 secret_capability_mode
      ∷ c.put_u16 single_use
      ∷ c.put_bytes claims.join_challenge
      ∷ c.put_bytes claims.capability
      ∷ c.put_bytes key
      ∷ []

  unfoldable pub signing_input : CapabilityInvitationClaims → Bytes → Bytes
  signing_input claims key =
      signature_domain ++ written (fields unsigned_invitation_fields claims key)

  unfoldable pub encoded : SignedCapabilityInvitation → Bytes
  encoded i = written (
      fields signed_invitation_fields i.claims i.inviter_verifying_key
      ++ c.put_bytes i.signature ∷ [])

  unfoldable pub encode_canonical : SignedCapabilityInvitation → Result WireError Bytes
  encode_canonical i =
      if ltb max_signed_invitation_bytes (length (encoded i))
      then err (wire_object_too_large (length (encoded i)) max_signed_invitation_bytes)
      else ok (encoded i)

  -- The reads, and the checks of the claims.
  unfoldable pub decode_unverified : Parser SignedCapabilityInvitation
  decode_unverified = do
    require_array c signed_invitation_fields
    require_value c protocol_version unsupported_version
    require_value c (object_type_number signed_capability_invitation) unsupported_object_type
    require_value c ed25519_suite unsupported_signature_suite
    id ← decode_fixed c 16 invalid_invitation_id_length
    issued_at ← u64 c
    expires_at ← u64 c
    require_value c secret_capability_mode unsupported_admission_mode
    require_value c single_use unsupported_invitation_use_policy
    challenge ← decode_fixed c 32 invalid_join_challenge_length
    capability ← decode_fixed c 32 invalid_secret_capability_length
    key ← decode_fixed c 32 invalid_verifying_key_length
    signature ← decode_fixed c 64 invalid_signature_length
    reject_trailing
    secret ← lift (secret_capability_new capability)
    claims ← lift (claims_new id issued_at expires_at challenge secret)
    return (record { claims = claims; inviter_verifying_key = key; signature = signature })

module _ (c : Cbor) (s : Ed25519) where
  -- `signing_input` cannot fail here: the encoder writes to memory.
  unfoldable pub sign :
      CapabilityInvitationClaims → Bytes → Result WireError SignedCapabilityInvitation
  sign claims signing_key =
      let key = s.verifying_key signing_key in
      ok (record {
        claims = claims;
        inviter_verifying_key = key;
        signature = s.sign signing_key (signing_input c claims key);
      })

  unfoldable pub decode_and_verify : Bytes → Result WireError SignedCapabilityInvitation
  decode_and_verify bytes =
      run
        (do
          check (leb (length bytes) max_signed_invitation_bytes)
              (wire_object_too_large (length bytes) max_signed_invitation_bytes)
          invitation ← decode_unverified c
          canonical ← lift (encode_canonical c invitation)
          check (same canonical bytes) non_deterministic_encoding
          check (s.is_key invitation.inviter_verifying_key) invalid_verifying_key
          check
              (s.verify_strict invitation.inviter_verifying_key
                (signing_input c invitation.claims invitation.inviter_verifying_key)
                invitation.signature)
              invalid_signature
          return invitation)
        bytes
