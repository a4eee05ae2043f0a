-- ===== src/Protocol/JoinRequest/Canonical.antt =====
-- The canonical encoding of a capability join request.
use Prim.Native.Nat.{ℕ, ◌≤◌, ◌<◌}
use session_chat.Prelude.{
  ◌≡◌, arith, length, length-append, append_nil, is_empty, u64_max, le→leb, le→ltb, gt→leb, false,
  [], inl, inr,
}
use session_chat.Prelude.Outcome.{ok, Result-cases}
use session_chat.Prelude.Bytes.{Bytes, same_refl, all_zero}
use session_chat.Protocol.Cbor.{Cbor, IsCbor}
use session_chat.Protocol.Signature.{Ed25519}
use session_chat.Protocol.Parser.Laws
use session_chat.Protocol.Endpoint.{LocalWelcomeDepositEndpoint}
use session_chat.Protocol.Endpoint.Canonical.{
  IsEndpoint, length-encode_into, decode_from-encode_into,
}
use session_chat.Protocol.JoinRequest.{
  CapabilityJoinRequest, InvitationJoinBinding, JoinRequestBinding, MlsKeyPackageBinding,
  is_bad_key, invitation_binding_new, request_binding_new, key_package_binding_new, new, encoded,
  encode_canonical, decode_fields, decode_canonical,
}

-- What the types of the fields and the constructors guarantee.
pub record IsInvitationBinding (s : Ed25519) (b : InvitationJoinBinding) : Type 0 where
  pub id_length : length b.invitation_id ≡ 16
  pub challenge_length : length b.join_challenge ≡ 32
  pub key_id_length : length b.invitation_key_id ≡ 16
  pub verifier_length : length b.intended_verifier ≡ 32
  pub id_nonzero : all_zero b.invitation_id ≡ false
  pub challenge_nonzero : all_zero b.join_challenge ≡ false
  pub key_id_nonzero : all_zero b.invitation_key_id ≡ false
  pub good_verifier : is_bad_key s b.intended_verifier ≡ false

pub record IsRequestBinding (b : JoinRequestBinding) : Type 0 where
  pub id_length : length b.join_request_id ≡ 16
  pub nonce_length : length b.request_nonce ≡ 32
  pub expiry_word : b.expires_at ≤ u64_max
  pub id_nonzero : all_zero b.join_request_id ≡ false
  pub nonce_nonzero : all_zero b.request_nonce ≡ false
  pub lifetime : b.issued_at < b.expires_at

pub record IsKeyPackageBinding (s : Ed25519) (b : MlsKeyPackageBinding) : Type 0 where
  pub reference_length : length b.key_package_reference ≡ 32
  pub identity_length : length b.credential_identity ≡ 32
  pub leaf_key_length : length b.leaf_signature_key ≡ 32
  pub package_length : length b.key_package ≤ 16384
  pub package_nonempty : is_empty b.key_package ≡ false
  pub identity_nonzero : all_zero b.credential_identity ≡ false
  pub leaf_key_nonzero : all_zero b.leaf_signature_key ≡ false
  pub good_leaf_key : is_bad_key s b.leaf_signature_key ≡ false

pub record IsJoinRequest (s : Ed25519) (r : CapabilityJoinRequest) : Type 0 where
  pub valid_invitation : IsInvitationBinding s r.invitation
  pub valid_request : IsRequestBinding r.request
  pub valid_mls : IsKeyPackageBinding s r.mls
  pub valid_endpoint : IsEndpoint r.response_endpoint
  pub endpoint_within : r.response_endpoint.expires_at ≤ r.request.expires_at

module _ (c : Cbor) (laws : IsCbor c) (s : Ed25519) where
  length-encoded : (r : CapabilityJoinRequest) → IsJoinRequest s r → length (encoded c r) ≤ 24576
  unfolding encoded
  length-encoded r h = simp (length-append) (
      omega (
        arith,
        laws.array_size 21,
        laws.u16_size 1,
        laws.u16_size 4,
        laws.bytes_size r.invitation.invitation_id,
        h.valid_invitation.id_length,
        laws.bytes_size r.invitation.join_challenge,
        h.valid_invitation.challenge_length,
        laws.bytes_size r.invitation.invitation_key_id,
        h.valid_invitation.key_id_length,
        laws.bytes_size r.invitation.intended_verifier,
        h.valid_invitation.verifier_length,
        laws.bytes_size r.request.join_request_id,
        h.valid_request.id_length,
        laws.u64_size r.request.issued_at,
        laws.u64_size r.request.expires_at,
        laws.bytes_size r.request.request_nonce,
        h.valid_request.nonce_length,
        laws.bytes_size r.mls.key_package_reference,
        h.valid_mls.reference_length,
        laws.bytes_size r.mls.key_package,
        h.valid_mls.package_length,
        laws.bytes_size r.mls.credential_identity,
        h.valid_mls.identity_length,
        laws.bytes_size r.mls.leaf_signature_key,
        h.valid_mls.leaf_key_length,
        length-encode_into c laws r.response_endpoint h.valid_endpoint,
      ))

  pub encode_canonical-ok :
      (r : CapabilityJoinRequest) → IsJoinRequest s r → encode_canonical c r ≡ ok (encoded c r)
  unfolding encode_canonical
  encode_canonical-ok r h = rw (le→ltb _ _ (length-encoded r h))

  decode_fields-encoded :
      (r : CapabilityJoinRequest) → IsJoinRequest s r → decode_fields c s (encoded c r) ≡ ok (r, [])
  unfolding decode_fields encoded invitation_binding_new request_binding_new key_package_binding_new
      new
  decode_fields-encoded r h = simp (
    append_nil,
    Laws.require_array-put c laws 21 _ (omega arith),
    Laws.require_value-put c laws 1 _ _ (omega arith),
    Laws.require_value-put c laws 4 _ _ (omega arith),
    Laws.decode_fixed-put c laws 16 _ r.invitation.invitation_id _ h.valid_invitation.id_length
        (omega arith),
    Laws.decode_fixed-put c laws 32 _ r.invitation.join_challenge _
        h.valid_invitation.challenge_length (omega arith),
    Laws.decode_fixed-put c laws 16 _ r.invitation.invitation_key_id _
        h.valid_invitation.key_id_length (omega arith),
    Laws.decode_fixed-put c laws 32 _ r.invitation.intended_verifier _
        h.valid_invitation.verifier_length (omega arith),
    Laws.decode_fixed-put c laws 16 _ r.request.join_request_id _ h.valid_request.id_length
        (omega arith),
    Laws.u64-put c laws r.request.issued_at _
        (omega (arith, h.valid_request.lifetime, h.valid_request.expiry_word)),
    Laws.u64-put c laws r.request.expires_at _ h.valid_request.expiry_word,
    Laws.decode_fixed-put c laws 32 _ r.request.request_nonce _ h.valid_request.nonce_length
        (omega arith),
    Laws.decode_fixed-put c laws 32 _ r.mls.key_package_reference _ h.valid_mls.reference_length
        (omega arith),
    Laws.byte_string-put c laws r.mls.key_package _ (omega (arith, h.valid_mls.package_length)),
    Laws.decode_fixed-put c laws 32 _ r.mls.credential_identity _ h.valid_mls.identity_length
        (omega arith),
    Laws.decode_fixed-put c laws 32 _ r.mls.leaf_signature_key _ h.valid_mls.leaf_key_length
        (omega arith),
    decode_from-encode_into c laws r.response_endpoint h.valid_endpoint,
    h.valid_mls.package_nonempty,
    le→leb _ _ h.valid_mls.package_length,
    le→ltb _ _ h.valid_mls.package_length,
    h.valid_invitation.id_nonzero,
    h.valid_invitation.challenge_nonzero,
    h.valid_invitation.key_id_nonzero,
    h.valid_invitation.good_verifier,
    h.valid_request.id_nonzero,
    h.valid_request.nonce_nonzero,
    gt→leb _ _ h.valid_request.lifetime,
    h.valid_mls.identity_nonzero,
    h.valid_mls.leaf_key_nonzero,
    h.valid_mls.good_leaf_key,
    le→ltb _ _ h.endpoint_within,
  )

  -- With an encoding that keeps its laws, a join request made by its constructors fits the bound, and
  -- what it is encoded to decodes to it.
  pub join_request_decode-encode :
      (r : CapabilityJoinRequest)
      → IsJoinRequest s r
      → (bytes : Bytes) × (encode_canonical c r ≡ ok bytes) × (decode_canonical c s bytes ≡ ok r)
  unfolding decode_canonical
  join_request_decode-encode r h = (
    encoded c r,
    encode_canonical-ok r h,
    simp (
      le→leb _ _ (length-encoded r h),
      decode_fields-encoded r h,
      encode_canonical-ok r h,
      same_refl (encoded c r),
    ),
  )

-- What each constructor has checked, when it succeeds.
module _ (s : Ed25519) where
  invitation_binding_new-ok :
      (id challenge key_id verifier : Bytes) (b : InvitationJoinBinding)
      → invitation_binding_new s id challenge key_id verifier ≡ ok b
      → is_bad_key s b.intended_verifier ≡ false
  unfolding invitation_binding_new
  invitation_binding_new-ok id challenge key_id verifier b h = ground arith

  key_package_binding_new-ok :
      (reference key_package identity leaf_key : Bytes) (b : MlsKeyPackageBinding)
      → key_package_binding_new s reference key_package identity leaf_key ≡ ok b
      → is_bad_key s b.leaf_signature_key ≡ false
  unfolding key_package_binding_new
  key_package_binding_new-ok reference key_package identity leaf_key b h = ground arith

request_binding_new-ok :
    (id nonce : Bytes) (issued_at expires_at : ℕ) (b : JoinRequestBinding)
    → request_binding_new id issued_at expires_at nonce ≡ ok b
    → b.issued_at < b.expires_at
unfolding request_binding_new
request_binding_new-ok id nonce issued_at expires_at b h = ground arith

new-ok :
    (b : InvitationJoinBinding) (q : JoinRequestBinding) (m : MlsKeyPackageBinding)
    (e : LocalWelcomeDepositEndpoint) (r : CapabilityJoinRequest)
    → new b q m e ≡ ok r
    → (r ≡ record { invitation = b; request = q; mls = m; response_endpoint = e })
      × (e.expires_at ≤ q.expires_at)
unfolding new
new-ok b q m e r h = ground arith

module _ (c : Cbor) (s : Ed25519) where
  decode_fields-ok :
      (bytes rest : Bytes) (r : CapabilityJoinRequest)
      → decode_fields c s bytes ≡ ok (r, rest)
      → (r.request.issued_at < r.request.expires_at)
        × (r.response_endpoint.expires_at ≤ r.request.expires_at)
        × (is_bad_key s r.invitation.intended_verifier ≡ false)
        × (is_bad_key s r.mls.leaf_signature_key ≡ false)
  unfolding decode_fields
  decode_fields-ok bytes rest r h = grind (
    arith,
    invitation_binding_new-ok s,
    key_package_binding_new-ok s,
    request_binding_new-ok,
    new-ok,
  )

  -- What decodes is the one encoding of its request, whose lifetime is positive, whose response
  -- endpoint does not outlive it, and whose two keys are keys and not weak.
  pub join_request_encode-decode :
      (bytes : Bytes) (r : CapabilityJoinRequest)
      → decode_canonical c s bytes ≡ ok r
      → (encode_canonical c r ≡ ok bytes)
        × (r.request.issued_at < r.request.expires_at)
        × (r.response_endpoint.expires_at ≤ r.request.expires_at)
        × (is_bad_key s r.invitation.intended_verifier ≡ false)
        × (is_bad_key s r.mls.leaf_signature_key ≡ false)
  unfolding decode_canonical
  join_request_encode-decode bytes r h = elim (Result-cases (decode_fields c s bytes)) [
    | inl (e, q) ↦ absurd (ground (arith, q))
    | inr ((read, rest), q) ↦ ground (arith, q, decode_fields-ok bytes rest read q)
  ]
