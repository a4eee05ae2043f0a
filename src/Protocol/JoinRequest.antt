-- ===== src/Protocol/JoinRequest.antt =====
-- crates/session-protocol/src/protected_join.rs: the capability join request inside the encryption.
pub mod Canonical
use Prim.Native.Nat.{ℕ}
use session_chat.Prelude.{
  List, [], ◌∷◌, ◌++◌, ◌||◌, ltb, leb, if◌then◌else◌, length, is_empty, not, Bool,
}
use session_chat.Prelude.Outcome.{Result, ok, err}
use session_chat.Prelude.Bytes.{Bytes, same, all_zero}
use session_chat.Protocol.Error.{
  WireError, wire_object_too_large, unsupported_version, unsupported_object_type,
  unsupported_admission_proof_version, unsupported_mls_protocol_version,
  unsupported_mls_ciphersuite, unsupported_credential_type,
  unsupported_application_protocol_version, unsupported_transport_profile,
  invalid_invitation_id_length, invalid_join_challenge_length, invalid_invitation_key_id_length,
  invalid_verifying_key_length, invalid_join_request_id_length, invalid_request_nonce_length,
  invalid_key_package_reference_length, invalid_credential_identity_length,
  invalid_leaf_signature_key_length, zero_invitation_id, zero_join_challenge,
  zero_invitation_key_id, invalid_verifying_key, zero_join_request_id, zero_request_nonce,
  invalid_join_request_time_range, empty_key_package, key_package_too_large,
  zero_credential_identity, zero_leaf_signature_key, invalid_leaf_signature_key,
  response_endpoint_outlives_request, non_deterministic_encoding,
}
use session_chat.Protocol.Cbor.{Cbor, written}
use session_chat.Protocol.Signature.{Ed25519}
use session_chat.Protocol.Claims.{application_protocol_v1}
use session_chat.Protocol.Endpoint
use session_chat.Protocol.Endpoint.{
  LocalWelcomeDepositEndpoint, capability_join_request, nested_type_number, local_memory,
}
use session_chat.Protocol.Parser.{
  Parser, ◌>>=◌, ◌>>◌, return, check, lift, run, u64, byte_string, require_array, require_value,
  decode_fixed, reject_trailing,
}

pub record InvitationJoinBinding : Type 0 where
  pub invitation_id : Bytes
  pub join_challenge : Bytes
  pub invitation_key_id : Bytes
  pub intended_verifier : Bytes

pub record JoinRequestBinding : Type 0 where
  pub join_request_id : Bytes
  pub issued_at : ℕ
  pub expires_at : ℕ
  pub request_nonce : Bytes

pub record MlsKeyPackageBinding : Type 0 where
  pub key_package_reference : Bytes
  pub key_package : Bytes
  pub credential_identity : Bytes
  pub leaf_signature_key : Bytes

pub record CapabilityJoinRequest : Type 0 where
  pub invitation : InvitationJoinBinding
  pub request : JoinRequestBinding
  pub mls : MlsKeyPackageBinding
  pub response_endpoint : LocalWelcomeDepositEndpoint

-- The enums of one variant.
abbrev pub hpke_psk_capability : ℕ
hpke_psk_capability = 1

abbrev pub mls_10 : ℕ
mls_10 = 1

abbrev pub suite_1 : ℕ
suite_1 = 1

abbrev pub basic_credential : ℕ
basic_credential = 1

abbrev pub max_capability_join_request_bytes : ℕ
max_capability_join_request_bytes = 24576

abbrev pub max_join_key_package_bytes : ℕ
max_join_key_package_bytes = 16384

abbrev pub capability_join_request_version : ℕ
capability_join_request_version = 1

abbrev pub capability_join_request_fields : ℕ
capability_join_request_fields = 21

module _ (s : Ed25519) where
  -- `VerifyingKey::from_bytes` fails, or `is_weak` holds.
  abbrev pub is_bad_key : Bytes → Bool
  is_bad_key key = not (s.is_key key) || s.is_weak key

  unfoldable pub invitation_binding_new :
      Bytes → Bytes → Bytes → Bytes → Result WireError InvitationJoinBinding
  invitation_binding_new id challenge key_id verifier =
      if all_zero id
      then err zero_invitation_id
      else if all_zero challenge
      then err zero_join_challenge
      else if all_zero key_id
      then err zero_invitation_key_id
      else if is_bad_key verifier
      then err invalid_verifying_key
      else ok (record {
        invitation_id = id;
        join_challenge = challenge;
        invitation_key_id = key_id;
        intended_verifier = verifier;
      })

  unfoldable pub key_package_binding_new :
      Bytes → Bytes → Bytes → Bytes → Result WireError MlsKeyPackageBinding
  key_package_binding_new reference key_package identity leaf_key =
      if is_empty key_package
      then err empty_key_package
      else if ltb max_join_key_package_bytes (length key_package)
      then err (key_package_too_large (length key_package) max_join_key_package_bytes)
      else if all_zero identity
      then err zero_credential_identity
      else if all_zero leaf_key
      then err zero_leaf_signature_key
      else if is_bad_key leaf_key
      then err invalid_leaf_signature_key
      else ok (record {
        key_package_reference = reference;
        key_package = key_package;
        credential_identity = identity;
        leaf_signature_key = leaf_key;
      })

unfoldable pub request_binding_new : Bytes → ℕ → ℕ → Bytes → Result WireError JoinRequestBinding
request_binding_new id issued_at expires_at nonce =
    if all_zero id
    then err zero_join_request_id
    else if all_zero nonce
    then err zero_request_nonce
    else if leb expires_at issued_at
    then err (invalid_join_request_time_range issued_at expires_at)
    else ok (record {
      join_request_id = id;
      issued_at = issued_at;
      expires_at = expires_at;
      request_nonce = nonce;
    })

unfoldable pub new :
    InvitationJoinBinding
    → JoinRequestBinding
    → MlsKeyPackageBinding
    → LocalWelcomeDepositEndpoint
    → Result WireError CapabilityJoinRequest
new invitation request mls endpoint =
    if ltb request.expires_at endpoint.expires_at
    then err response_endpoint_outlives_request
    else ok (record {
      invitation = invitation;
      request = request;
      mls = mls;
      response_endpoint = endpoint;
    })

module _ (c : Cbor) where
  unfoldable pub encoded : CapabilityJoinRequest → Bytes
  encoded r = written (
      c.put_array capability_join_request_fields
      ∷ c.put_u16 capability_join_request_version
      ∷ c.put_u16 (nested_type_number capability_join_request)
      ∷ c.put_u16 hpke_psk_capability
      ∷ c.put_bytes r.invitation.invitation_id
      ∷ c.put_bytes r.invitation.join_challenge
      ∷ c.put_bytes r.invitation.invitation_key_id
      ∷ c.put_bytes r.invitation.intended_verifier
      ∷ c.put_bytes r.request.join_request_id
      ∷ c.put_u64 r.request.issued_at
      ∷ c.put_u64 r.request.expires_at
      ∷ c.put_bytes r.request.request_nonce
      ∷ c.put_u16 mls_10
      ∷ c.put_u16 suite_1
      ∷ c.put_bytes r.mls.key_package_reference
      ∷ c.put_bytes r.mls.key_package
      ∷ c.put_u16 basic_credential
      ∷ c.put_bytes r.mls.credential_identity
      ∷ c.put_bytes r.mls.leaf_signature_key
      ∷ c.put_u16 application_protocol_v1
      ∷ c.put_u16 local_memory
      ∷ Endpoint.encode_into c r.response_endpoint
      ∷ [])

  unfoldable pub encode_canonical : CapabilityJoinRequest → Result WireError Bytes
  encode_canonical r =
      if ltb max_capability_join_request_bytes (length (encoded r))
      then err (wire_object_too_large (length (encoded r)) max_capability_join_request_bytes)
      else ok (encoded r)

module _ (c : Cbor) (s : Ed25519) where
  unfoldable pub decode_fields : Parser CapabilityJoinRequest
  decode_fields = do
    require_array c capability_join_request_fields
    require_value c capability_join_request_version unsupported_version
    require_value c (nested_type_number capability_join_request) unsupported_object_type
    require_value c hpke_psk_capability unsupported_admission_proof_version
    invitation_id ← decode_fixed c 16 invalid_invitation_id_length
    challenge ← decode_fixed c 32 invalid_join_challenge_length
    key_id ← decode_fixed c 16 invalid_invitation_key_id_length
    verifier ← decode_fixed c 32 invalid_verifying_key_length
    request_id ← decode_fixed c 16 invalid_join_request_id_length
    issued_at ← u64 c
    expires_at ← u64 c
    nonce ← decode_fixed c 32 invalid_request_nonce_length
    require_value c mls_10 unsupported_mls_protocol_version
    require_value c suite_1 unsupported_mls_ciphersuite
    reference ← decode_fixed c 32 invalid_key_package_reference_length
    key_package ← byte_string c
    check (not (is_empty key_package)) empty_key_package
    check (leb (length key_package) max_join_key_package_bytes)
        (key_package_too_large (length key_package) max_join_key_package_bytes)
    require_value c basic_credential unsupported_credential_type
    identity ← decode_fixed c 32 invalid_credential_identity_length
    leaf_key ← decode_fixed c 32 invalid_leaf_signature_key_length
    require_value c application_protocol_v1 unsupported_application_protocol_version
    require_value c local_memory unsupported_transport_profile
    endpoint ← Endpoint.decode_from c
    reject_trailing
    invitation ← lift (invitation_binding_new s invitation_id challenge key_id verifier)
    request ← lift (request_binding_new request_id issued_at expires_at nonce)
    mls ← lift (key_package_binding_new s reference key_package identity leaf_key)
    lift (new invitation request mls endpoint)

  unfoldable pub decode_canonical : Bytes → Result WireError CapabilityJoinRequest
  decode_canonical bytes =
      run
        (do
          check (leb (length bytes) max_capability_join_request_bytes)
              (wire_object_too_large (length bytes) max_capability_join_request_bytes)
          request ← decode_fields
          reencoded ← lift (encode_canonical c request)
          check (same reencoded bytes) non_deterministic_encoding
          return request)
        bytes
