-- ===== src/Protocol/Invitation/Canonical.antt =====
-- Signing, encoding and decoding an invitation of version 1.
use Prim.Native.Nat.{◌≤◌, ◌<◌}
use session_chat.Prelude.{
  ◌≡◌, refl, arith, length, length-append, u64_max, le→leb, le→ltb, gt→leb, true, false, [],
}
use session_chat.Prelude.Outcome.{ok}
use session_chat.Prelude.Bytes.{Bytes, same_refl, all_zero}
use session_chat.Protocol.Cbor.{Cbor, IsCbor}
use session_chat.Protocol.Signature.{Ed25519, IsEd25519}
use session_chat.Protocol.Claims.{CapabilityInvitationClaims, secret_capability_new, claims_new}
use session_chat.Protocol.Parser.Laws
use session_chat.Protocol.Invitation.{
  SignedCapabilityInvitation, signing_input, encoded, encode_canonical, decode_unverified, sign,
  decode_and_verify,
}

-- What the types of the fields and the constructors guarantee.
pub record IsClaims (k : CapabilityInvitationClaims) : Type 0 where
  pub id_length : length k.invitation_id ≡ 16
  pub challenge_length : length k.join_challenge ≡ 32
  pub capability_length : length k.capability ≡ 32
  pub expiry_word : k.expires_at ≤ u64_max
  pub lifetime : k.issued_at < k.expires_at
  pub id_nonzero : all_zero k.invitation_id ≡ false
  pub challenge_nonzero : all_zero k.join_challenge ≡ false
  pub capability_nonzero : all_zero k.capability ≡ false

record IsInvitation (i : SignedCapabilityInvitation) : Type 0 where
  valid : IsClaims i.claims
  key_length : length i.inviter_verifying_key ≡ 32
  signature_length : length i.signature ≡ 64

module _ (c : Cbor) (laws : IsCbor c) where
  length-encoded : (i : SignedCapabilityInvitation) → IsInvitation i → length (encoded c i) ≤ 512
  unfolding encoded
  length-encoded i h = grind (
    arith, length-append, laws.array_size, laws.u16_size, laws.u64_size, laws.bytes_size,
    h.valid.id_length,
  )

  encode_canonical-ok :
      (i : SignedCapabilityInvitation) → IsInvitation i → encode_canonical c i ≡ ok (encoded c i)
  unfolding encode_canonical
  encode_canonical-ok i h = rw (le→ltb _ _ (length-encoded i h))

  decode_unverified-encoded :
      (i : SignedCapabilityInvitation)
      → IsInvitation i
      → decode_unverified c (encoded c i) ≡ ok (i, [])
  unfolding decode_unverified encoded secret_capability_new claims_new
  decode_unverified-encoded i h = simp (
    Laws.require_array-put c laws 12 _ (omega arith),
    Laws.require_value-put c laws 2 _ _ (omega arith),
    Laws.require_value-put c laws 1 _ _ (omega arith),
    Laws.decode_fixed-put c laws 16 _ i.claims.invitation_id _ h.valid.id_length (omega arith),
    Laws.u64-put c laws i.claims.issued_at _ (omega (arith, h.valid.lifetime, h.valid.expiry_word)),
    Laws.u64-put c laws i.claims.expires_at _ h.valid.expiry_word,
    Laws.decode_fixed-put c laws 32 _ i.claims.join_challenge _ h.valid.challenge_length
        (omega arith),
    Laws.decode_fixed-put c laws 32 _ i.claims.capability _ h.valid.capability_length (omega arith),
    Laws.decode_fixed-put c laws 32 _ i.inviter_verifying_key _ h.key_length (omega arith),
    Laws.decode_fixed-put c laws 64 _ i.signature _ h.signature_length (omega arith),
    h.valid.id_nonzero,
    h.valid.challenge_nonzero,
    h.valid.capability_nonzero,
    gt→leb _ _ h.valid.lifetime,
  )

module _ (c : Cbor) (laws : IsCbor c) (s : Ed25519) (ed : IsEd25519 s) where
  -- With an encoding and signatures that keep their laws, an invitation signed over valid claims
  -- encodes, and its encoding decodes, verified, to it.
  pub invitation_decode-sign :
      (k : CapabilityInvitationClaims) (signing_key : Bytes)
      → IsClaims k
      → (i : SignedCapabilityInvitation) × (bytes : Bytes) × (sign c s k signing_key ≡ ok i)
        × (i.claims ≡ k)
        × (encode_canonical c i ≡ ok bytes)
        × (decode_and_verify c s bytes ≡ ok i)
  unfolding sign decode_and_verify
  invitation_decode-sign k signing_key valid = (
    i,
    encoded c i,
    refl,
    refl,
    encode_canonical-ok c laws i h,
    simp (
      le→leb _ _ (length-encoded c laws i h),
      decode_unverified-encoded c laws i h,
      encode_canonical-ok c laws i h,
      same_refl (encoded c i),
      ed.own_key,
      ed.own_signature,
    ),
  )
    where
      i : SignedCapabilityInvitation
      i = record {
        claims = k;
        inviter_verifying_key = s.verifying_key signing_key;
        signature = s.sign signing_key (signing_input c k (s.verifying_key signing_key));
      }

      h : IsInvitation i
      h = record {
        valid = valid;
        key_length = ed.key_size signing_key;
        signature_length = ed.signature_size signing_key _;
      }

module _ (c : Cbor) (s : Ed25519) where
  -- What decodes is the one encoding of its invitation, whose signature verifies under the key that
  -- it names, with a positive lifetime and a nonzero identifier and capability.
  pub invitation_encode-decode :
      (bytes : Bytes) (i : SignedCapabilityInvitation)
      → decode_and_verify c s bytes ≡ ok i
      → (encode_canonical c i ≡ ok bytes)
        × (s.verify_strict i.inviter_verifying_key
              (signing_input c i.claims i.inviter_verifying_key)
              i.signature
            ≡ true)
        × (i.claims.issued_at < i.claims.expires_at)
        × (all_zero i.claims.invitation_id ≡ false)
        × (all_zero i.claims.capability ≡ false)
  unfolding decode_and_verify decode_unverified secret_capability_new claims_new
  invitation_encode-decode bytes i h = ground arith
