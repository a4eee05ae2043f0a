-- ===== src/Protocol/InvitationV2/Canonical.antt =====
-- Signing, encoding and decoding an invitation of version 2.
use Prim.Native.Nat.{◌≤◌, ◌<◌}
use session_chat.Prelude.{
  ◌≡◌, refl, arith, length, length-append, le→leb, le→ltb, gt→leb, true, false, [],
}
use session_chat.Prelude.Outcome.{ok}
use session_chat.Prelude.Bytes.{Bytes, same_refl, all_zero}
use session_chat.Protocol.Cbor.{Cbor, IsCbor}
use session_chat.Protocol.Signature.{Ed25519, IsEd25519}
use session_chat.Protocol.Claims.{
  CapabilityInvitationV2Claims, secret_capability_new, claims_new, claims_v2_new,
}
use session_chat.Protocol.Invitation.Canonical.{IsClaims}
use session_chat.Protocol.Parser.Laws
use session_chat.Protocol.InvitationV2.{
  SignedCapabilityInvitationV2, signing_input, encoded, encode_canonical, decode_unverified, sign,
  decode_and_verify,
}

-- What the types of the fields and the constructors guarantee.
pub record IsClaimsV2 (k : CapabilityInvitationV2Claims) : Type 0 where
  pub valid_base : IsClaims k.base
  pub key_id_length : length k.invitation_key_id ≡ 16
  pub public_key_length : length k.hpke_recipient_public_key ≡ 32
  pub key_id_nonzero : all_zero k.invitation_key_id ≡ false
  pub public_key_nonzero : all_zero k.hpke_recipient_public_key ≡ false

record IsInvitation (i : SignedCapabilityInvitationV2) : Type 0 where
  valid : IsClaimsV2 i.claims
  key_length : length i.inviter_verifying_key ≡ 32
  signature_length : length i.signature ≡ 64

module _ (c : Cbor) (laws : IsCbor c) where
  length-encoded : (i : SignedCapabilityInvitationV2) → IsInvitation i → length (encoded c i) ≤ 512
  unfolding encoded
  length-encoded i h = grind (
    arith, length-append, laws.array_size, laws.u16_size, laws.u64_size, laws.bytes_size,
    h.valid.valid_base.id_length,
  )

  encode_canonical-ok :
      (i : SignedCapabilityInvitationV2) → IsInvitation i → encode_canonical c i ≡ ok (encoded c i)
  unfolding encode_canonical
  encode_canonical-ok i h = rw (le→ltb _ _ (length-encoded i h))

  decode_unverified-encoded :
      (i : SignedCapabilityInvitationV2)
      → IsInvitation i
      → decode_unverified c (encoded c i) ≡ ok (i, [])
  unfolding decode_unverified encoded secret_capability_new claims_new claims_v2_new
  decode_unverified-encoded i h = simp (
    Laws.require_array-put c laws 18 _ (omega arith),
    Laws.require_value-put c laws 2 _ _ (omega arith),
    Laws.require_value-put c laws 1 _ _ (omega arith),
    Laws.decode_fixed-put c laws 16 _ i.claims.base.invitation_id _ h.valid.valid_base.id_length
        (omega arith),
    Laws.u64-put c laws i.claims.base.issued_at _
        (omega (arith, h.valid.valid_base.lifetime, h.valid.valid_base.expiry_word)),
    Laws.u64-put c laws i.claims.base.expires_at _ h.valid.valid_base.expiry_word,
    Laws.decode_fixed-put c laws 32 _ i.claims.base.join_challenge _
        h.valid.valid_base.challenge_length (omega arith),
    Laws.decode_fixed-put c laws 32 _ i.claims.base.capability _
        h.valid.valid_base.capability_length (omega arith),
    Laws.decode_fixed-put c laws 32 _ i.inviter_verifying_key _ h.key_length (omega arith),
    Laws.decode_fixed-put c laws 16 _ i.claims.invitation_key_id _ h.valid.key_id_length
        (omega arith),
    Laws.decode_fixed-put c laws 32 _ i.claims.hpke_recipient_public_key _ h.valid.public_key_length
        (omega arith),
    Laws.decode_fixed-put c laws 64 _ i.signature _ h.signature_length (omega arith),
    h.valid.valid_base.id_nonzero,
    h.valid.valid_base.challenge_nonzero,
    h.valid.valid_base.capability_nonzero,
    gt→leb _ _ h.valid.valid_base.lifetime,
    h.valid.key_id_nonzero,
    h.valid.public_key_nonzero,
  )

module _ (c : Cbor) (laws : IsCbor c) (s : Ed25519) (ed : IsEd25519 s) where
  -- With an encoding and signatures that keep their laws, an invitation signed over valid claims
  -- encodes, and its encoding decodes, verified, to it.
  pub invitation_v2_decode-sign :
      (k : CapabilityInvitationV2Claims) (signing_key : Bytes)
      → IsClaimsV2 k
      → (i : SignedCapabilityInvitationV2) × (bytes : Bytes) × (sign c s k signing_key ≡ ok i)
        × (i.claims ≡ k)
        × (encode_canonical c i ≡ ok bytes)
        × (decode_and_verify c s bytes ≡ ok i)
  unfolding sign decode_and_verify
  invitation_v2_decode-sign k signing_key valid = (
    i,
    encoded c i,
    refl,
    refl,
    encode_canonical-ok c laws i h,
    simp (
      le→leb _ _ (length-encoded c laws i h),
      decode_unverified-encoded c laws i h,
      encode_canonical-ok c laws i h,
      same_refl (encoded c i),
      ed.own_key,
      ed.own_signature,
    ),
  )
    where
      i : SignedCapabilityInvitationV2
      i = record {
        claims = k;
        inviter_verifying_key = s.verifying_key signing_key;
        signature = s.sign signing_key (signing_input c k (s.verifying_key signing_key));
      }

      h : IsInvitation i
      h = record {
        valid = valid;
        key_length = ed.key_size signing_key;
        signature_length = ed.signature_size signing_key _;
      }

module _ (c : Cbor) (s : Ed25519) where
  -- What decodes is the one encoding of its invitation, whose signature verifies under the key that
  -- it names, with a positive lifetime and a nonzero identifier and capability.
  pub invitation_v2_encode-decode :
      (bytes : Bytes) (i : SignedCapabilityInvitationV2)
      → decode_and_verify c s bytes ≡ ok i
      → (encode_canonical c i ≡ ok bytes)
        × (s.verify_strict i.inviter_verifying_key
              (signing_input c i.claims i.inviter_verifying_key)
              i.signature
            ≡ true)
        × (i.claims.base.issued_at < i.claims.base.expires_at)
        × (all_zero i.claims.base.invitation_id ≡ false)
        × (all_zero i.claims.base.capability ≡ false)
  unfolding decode_and_verify decode_unverified secret_capability_new claims_new claims_v2_new
  invitation_v2_encode-decode bytes i h = ground arith
