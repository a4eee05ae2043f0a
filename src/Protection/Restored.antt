-- ===== src/Protection/Restored.antt =====
-- A generated invitation comes back from protected storage as it was.
use session_chat.Prelude.{ℕ, ◌≡◌, ◌≤◌, arith, Option, some, inl, inr, length, u64_max, Option-cases}
use session_chat.Prelude.Outcome.{ok, Result-cases}
use session_chat.Prelude.Bytes.{Bytes, same_refl}
use session_chat.Protocol.Cbor.{Cbor, IsCbor}
use session_chat.Protocol.Signature.{Ed25519, IsEd25519}
use session_chat.Protocol.Claims.{claims_new, claims_v2_new, secret_capability_new}
use session_chat.Protocol.InvitationV2.{
  SignedCapabilityInvitationV2, sign, encode_canonical, decode_and_verify,
}
use session_chat.Protocol.InvitationV2.Canonical.{IsClaimsV2, invitation_v2_decode-sign}
use session_chat.Protection.Provider.{Hpke, IsHpke}
use session_chat.Protection.Invitations.{
  Draws, GeneratedInvitationHpkeKey, GeneratedCapabilityInvitationV2, fixed_key,
  private_key_from_bytes, generate_invitation_key, x25519_public_key,
  generate_capability_invitation, restore_capability_invitation,
}

abbrev HasLength : ℕ → Option Bytes → Type 0
HasLength n draw = (b : Bytes) → draw ≡ some b → length b ≡ n

-- The random source fills the arrays that it is given.
pub record IsFilled (d : Draws) : Type 0 where
  pub id_length : HasLength 16 d.invitation_id
  pub challenge_length : HasLength 32 d.join_challenge
  pub key_id_length : HasLength 16 d.invitation_key_id
  pub capability_length : HasLength 32 d.capability

module _ {Sender Receiver : Type 0} (h : Hpke Sender Receiver) (hpke : IsHpke h) where
  generate_invitation_key-ok :
      (random : Bytes) (k : GeneratedInvitationHpkeKey)
      → generate_invitation_key h random ≡ ok k
      → (h.public_key k.private_key ≡ some k.public_key) × (length k.public_key ≡ 32)
  unfolding generate_invitation_key fixed_key private_key_from_bytes
  generate_invitation_key-ok random k e = elim (Option-cases (h.generate random)) [
    | inl q ↦ absurd (ground (arith, q))
    | inr ((private_key, public), q) ↦ ground (arith, q, hpke.generated random private_key public q)
  ]

module _ (c : Cbor) (s : Ed25519) {Sender Receiver : Type 0} (h : Hpke Sender Receiver) (d : Draws)
    (issued_at expires_at : ℕ) (g : GeneratedCapabilityInvitationV2)
    (made : generate_capability_invitation c s h d issued_at expires_at ≡ ok g) where
  generated_signed : (seed : Bytes) × (sign c s g.invitation.claims seed ≡ ok g.invitation)
  unfolding generate_capability_invitation sign secret_capability_new claims_new claims_v2_new
  generated_signed = elim (Option-cases d.signing_seed) [
    | inl q ↦ absurd (ground (arith, made, q))
    | inr (seed, q) ↦ (seed, ground (arith, made, q))
  ]

  generated_key :
      (k : GeneratedInvitationHpkeKey) × (generate_invitation_key h d.key_seed ≡ ok k)
      × (k.private_key ≡ g.private_key)
      × (k.public_key ≡ g.invitation.claims.hpke_recipient_public_key)
  unfolding generate_capability_invitation sign secret_capability_new claims_new claims_v2_new
  generated_key = elim (Result-cases (generate_invitation_key h d.key_seed)) [
    | inl (f, q) ↦ absurd (ground (arith, made, q))
    | inr (k, q) ↦ (k, q, ground (arith, made, q), ground (arith, made, q))
  ]

  generated-IsClaimsV2 :
      IsFilled d
      → expires_at ≤ u64_max
      → length g.invitation.claims.hpke_recipient_public_key ≡ 32
      → IsClaimsV2 g.invitation.claims
  unfolding generate_capability_invitation sign secret_capability_new claims_new claims_v2_new
  generated-IsClaimsV2 f word size =
      grind (arith, made, f.id_length, f.challenge_length, f.key_id_length, f.capability_length)

module _ (c : Cbor) (laws : IsCbor c) (s : Ed25519) (ed : IsEd25519 s) {Sender Receiver : Type 0}
    (h : Hpke Sender Receiver) (hpke : IsHpke h) where
  encode_canonical-le :
      (i : SignedCapabilityInvitationV2) (bytes : Bytes)
      → encode_canonical c i ≡ ok bytes
      → length bytes ≤ 512
  unfolding encode_canonical
  encode_canonical-le i bytes e = ground arith

  restore-ok :
      (bytes : Bytes) (g : GeneratedCapabilityInvitationV2) {public : Bytes}
      → decode_and_verify c s bytes ≡ ok g.invitation
      → encode_canonical c g.invitation ≡ ok bytes
      → h.public_key g.private_key ≡ some public
      → length public ≡ 32
      → public ≡ g.invitation.claims.hpke_recipient_public_key
      → restore_capability_invitation c s h bytes g.private_key ≡ ok g
  unfolding restore_capability_invitation x25519_public_key fixed_key
  restore-ok bytes g {public} decoded encoded own size agrees =
      ground
        (arith, encode_canonical-le g.invitation bytes encoded, same_refl bytes, same_refl public)

  -- With third-party code that keeps its laws, a generated invitation encodes, and its canonical
  -- encoding restores, with its private key, to the generated invitation and key.
  pub restore-generate :
      (d : Draws) (issued_at expires_at : ℕ) (g : GeneratedCapabilityInvitationV2)
      → IsFilled d
      → expires_at ≤ u64_max
      → generate_capability_invitation c s h d issued_at expires_at ≡ ok g
      → (bytes : Bytes) × (encode_canonical c g.invitation ≡ ok bytes)
        × (restore_capability_invitation c s h bytes g.private_key ≡ ok g)
  restore-generate d issued_at expires_at g filled word made =
      let key = generated_key c s h d issued_at expires_at g made in
      let key_facts = generate_invitation_key-ok h hpke d.key_seed key.0 key.1 in
      let seed = generated_signed c s h d issued_at expires_at g made in
      let valid =
        generated-IsClaimsV2 c s h d issued_at expires_at g made filled word
          (ground (arith, key_facts, key.3)) in
      let i = invitation_v2_decode-sign c laws s ed g.invitation.claims seed.0 valid in
      let same : i.0 ≡ g.invitation = ground (arith, seed.1, i.2) in
      (
        i.1,
        ground (arith, same, i.4),
        restore-ok i.1 g (ground (arith, same, i.5)) (ground (arith, same, i.4))
            (ground (arith, key_facts, key.2)) key_facts.1 key.3,
      )
