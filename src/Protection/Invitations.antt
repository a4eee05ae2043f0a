-- ===== src/Protection/Invitations.antt =====
-- crates/session-crypto-hpke/src/lib.rs: the generation of an invitation with its private key, its
-- projection into protected storage, and its restoration from there.
use session_chat.Prelude.{ℕ, Option, if◌then◌else◌, ltb, ◌==◌, length, not}
use session_chat.Prelude.Outcome.{Result, ok, err, ◌>>=◌, ◌>>◌, reject_if, ok_or, map_err}
use session_chat.Prelude.Bytes.{Bytes, same, all_zero}
use session_chat.Protocol.Cbor.{Cbor}
use session_chat.Protocol.Signature.{Ed25519}
use session_chat.Protocol.Claims.{
  claims_new, claims_v2_new, secret_capability_new, max_signed_invitation_bytes,
}
use session_chat.Protocol.InvitationV2.{
  SignedCapabilityInvitationV2, sign, encode_canonical, decode_and_verify,
}
use session_chat.Protection.Provider.{
  Hpke, JoinProtectionError, input_too_large, rejected, protocol_error,
}

pub record GeneratedInvitationHpkeKey : Type 0 where
  pub private_key : Bytes
  pub public_key : Bytes

pub record GeneratedCapabilityInvitationV2 : Type 0 where
  pub invitation : SignedCapabilityInvitationV2
  pub private_key : Bytes

-- `fixed_key`: a slice as an array of 32 bytes.
unfoldable pub fixed_key : Bytes → Result JoinProtectionError Bytes
fixed_key bytes = if length bytes == 32 then ok bytes else err rejected

-- `InvitationHpkePrivateKey::from_bytes`, and that of the stored key; the wrappers are their bytes.
unfoldable pub private_key_from_bytes : Bytes → Result JoinProtectionError Bytes
private_key_from_bytes bytes = if all_zero bytes then err rejected else ok bytes

-- What the random source gives, in the order of the calls.
pub record Draws : Type 0 where
  pub invitation_id : Option Bytes
  pub join_challenge : Option Bytes
  pub invitation_key_id : Option Bytes
  pub capability : Option Bytes
  pub signing_seed : Option Bytes
  pub key_seed : Bytes

module _ {Sender Receiver : Type 0} (h : Hpke Sender Receiver) where
  unfoldable pub generate_invitation_key :
      Bytes → Result JoinProtectionError GeneratedInvitationHpkeKey
  generate_invitation_key random = do
    reject_if (not h.available) rejected
    pair ← ok_or (h.generate random) rejected
    private_bytes ← fixed_key pair.0
    public ← fixed_key pair.1
    reject_if (all_zero public) rejected
    private_key ← private_key_from_bytes private_bytes
    ok (record { private_key = private_key; public_key = public })

  unfoldable pub x25519_public_key : Bytes → Result JoinProtectionError Bytes
  x25519_public_key private_key =
      ok_or (h.public_key private_key) rejected >>= λ public. fixed_key public

module _ (c : Cbor) (s : Ed25519) {Sender Receiver : Type 0} (h : Hpke Sender Receiver) where
  unfoldable pub generate_capability_invitation :
      Draws
      → (issued_at expires_at : ℕ) → Result JoinProtectionError GeneratedCapabilityInvitationV2
  generate_capability_invitation draws issued_at expires_at = do
    reject_if (not h.available) rejected
    id ← ok_or draws.invitation_id rejected
    challenge ← ok_or draws.join_challenge rejected
    key_id ← ok_or draws.invitation_key_id rejected
    capability ← ok_or draws.capability rejected
    seed ← ok_or draws.signing_seed rejected
    generated ← generate_invitation_key h draws.key_seed
    secret ← map_err protocol_error (secret_capability_new capability)
    base ← map_err protocol_error (claims_new id issued_at expires_at challenge secret)
    claims ← map_err protocol_error (claims_v2_new base key_id generated.public_key)
    invitation ← map_err protocol_error (sign c s claims seed)
    ok (record { invitation = invitation; private_key = generated.private_key })

  unfoldable pub restore_capability_invitation :
      (canonical private_key : Bytes) → Result JoinProtectionError GeneratedCapabilityInvitationV2
  restore_capability_invitation canonical private_key = do
    reject_if (ltb max_signed_invitation_bytes (length canonical)) input_too_large
    invitation ← map_err protocol_error (decode_and_verify c s canonical)
    reencoded ← map_err protocol_error (encode_canonical c invitation)
    reject_if (not (same reencoded canonical)) rejected
    public ← x25519_public_key h private_key
    reject_if (not (same public invitation.claims.hpke_recipient_public_key)) rejected
    ok (record { invitation = invitation; private_key = private_key })

pub data InvitationOpeningContextPersistenceError {ℓ} (E : Type ℓ) : Type ℓ where
  protection : JoinProtectionError → InvitationOpeningContextPersistenceError E
  storage : E → InvitationOpeningContextPersistenceError E

-- A sink is a protected store that takes the canonical invitation and the private key in one call.
module _ (c : Cbor) {Store E : Type 0}
    (sink : Store
      → SignedCapabilityInvitationV2
      → (canonical private_key : Bytes) → Store × Result E (Unit {0})) where
  unfoldable pub persist_checks :
      GeneratedCapabilityInvitationV2 → Result (InvitationOpeningContextPersistenceError E) Bytes
  persist_checks g = do
    canonical ← map_err (λ e. protection (protocol_error e)) (encode_canonical c g.invitation)
    reject_if (ltb max_signed_invitation_bytes (length canonical)) (protection input_too_large)
    ok canonical

  unfoldable pub persist_opening_context :
      Store
      → GeneratedCapabilityInvitationV2
      → Store × Result (InvitationOpeningContextPersistenceError E) (Unit {0})
  persist_opening_context store g = elim (persist_checks g) [
    | err e ↦ (store, err e)
    | ok canonical ↦ (
      (sink store g.invitation canonical g.private_key).0,
      map_err storage (sink store g.invitation canonical g.private_key).1,
    )
  ]
