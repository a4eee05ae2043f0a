-- ===== src/Tests/Protocol.antt =====
-- The wire objects at concrete values.
use session_chat.Prelude.{◌≡◌, ◌<◌, refl, arith, ◌∷◌, [], true, false}
use session_chat.Prelude.Outcome.{ok}
use session_chat.Prelude.Bytes.{Bytes, all_zero}
use session_chat.Protocol.Envelope.{OpaqueEnvelope}
use session_chat.Protocol.Envelope.Canonical.{IsEnvelope}
use session_chat.Protocol.Endpoint
use session_chat.Protocol.Endpoint.{LocalWelcomeDepositEndpoint}
use session_chat.Protocol.Endpoint.Canonical.{endpoint_decode-encode, IsEndpoint}
use session_chat.Protocol.Claims.{CapabilityInvitationClaims, CapabilityInvitationV2Claims}
use session_chat.Protocol.Invitation
use session_chat.Protocol.Invitation.{SignedCapabilityInvitation}
use session_chat.Protocol.Invitation.Canonical.{invitation_decode-sign, IsClaims}
use session_chat.Protocol.InvitationV2
use session_chat.Protocol.InvitationV2.{SignedCapabilityInvitationV2}
use session_chat.Protocol.InvitationV2.Canonical.{
  invitation_v2_decode-sign, invitation_v2_encode-decode, IsClaimsV2,
}
use session_chat.Tests.Instances.{
  repeat, plain_cbor, plain_cbor-IsCbor, one_signature, one_signature-IsEd25519,
}

abbrev envelope : OpaqueEnvelope
envelope = record { envelope_id = repeat 16 3; expires_at = 900; ciphertext = 8 ∷ 9 ∷ [] }

envelope-IsEnvelope : IsEnvelope envelope
envelope-IsEnvelope = record {
  id_length = refl;
  expiry_word = omega arith;
  ciphertext_bound = omega arith;
}

abbrev endpoint : LocalWelcomeDepositEndpoint
endpoint = record {
  transport_instance_id = repeat 16 1;
  mailbox_id = repeat 16 2;
  deposit_capability = repeat 32 5;
  expires_at = 1000;
}

endpoint-IsEndpoint : IsEndpoint endpoint
endpoint-IsEndpoint = record {
  instance_length = refl;
  mailbox_length = refl;
  capability_length = refl;
  expiry_word = omega arith;
  instance_nonzero = unfold all_zero in refl;
  mailbox_nonzero = unfold all_zero in refl;
  capability_nonzero = unfold all_zero in refl;
}

endpoint_round :
    (bytes : Bytes) × (Endpoint.encode_canonical plain_cbor endpoint ≡ ok bytes)
    × (Endpoint.decode_canonical plain_cbor bytes ≡ ok endpoint)
endpoint_round = endpoint_decode-encode plain_cbor plain_cbor-IsCbor endpoint endpoint-IsEndpoint

abbrev claims : CapabilityInvitationClaims
claims = record {
  invitation_id = repeat 16 4;
  issued_at = 10;
  expires_at = 500;
  join_challenge = repeat 32 6;
  capability = repeat 32 5;
}

claims-IsClaims : IsClaims claims
claims-IsClaims = record {
  id_length = refl;
  challenge_length = refl;
  capability_length = refl;
  expiry_word = omega arith;
  lifetime = omega arith;
  id_nonzero = unfold all_zero in refl;
  challenge_nonzero = unfold all_zero in refl;
  capability_nonzero = unfold all_zero in refl;
}

invitation_round :
    (i : SignedCapabilityInvitation) × (bytes : Bytes) × (Invitation.sign plain_cbor one_signature
        claims
        (repeat 32 1)
      ≡ ok i)
    × (i.claims ≡ claims)
    × (Invitation.encode_canonical plain_cbor i ≡ ok bytes)
    × (Invitation.decode_and_verify plain_cbor one_signature bytes ≡ ok i)
invitation_round =
    invitation_decode-sign plain_cbor plain_cbor-IsCbor one_signature one_signature-IsEd25519 claims
      (repeat 32 1) claims-IsClaims

abbrev signed : SignedCapabilityInvitation
signed = invitation_round.0

abbrev claims_v2 : CapabilityInvitationV2Claims
claims_v2 = record {
  base = claims;
  invitation_key_id = repeat 16 8;
  hpke_recipient_public_key = repeat 32 3;
}

claims_v2-IsClaimsV2 : IsClaimsV2 claims_v2
claims_v2-IsClaimsV2 = record {
  valid_base = claims-IsClaims;
  key_id_length = refl;
  public_key_length = refl;
  key_id_nonzero = unfold all_zero in refl;
  public_key_nonzero = unfold all_zero in refl;
}

invitation_v2_decode-sign_example :
    (i : SignedCapabilityInvitationV2) × (bytes : Bytes) × (InvitationV2.sign plain_cbor
        one_signature claims_v2
        (repeat 32 1)
      ≡ ok i)
    × (i.claims ≡ claims_v2)
    × (InvitationV2.encode_canonical plain_cbor i ≡ ok bytes)
    × (InvitationV2.decode_and_verify plain_cbor one_signature bytes ≡ ok i)
invitation_v2_decode-sign_example =
    invitation_v2_decode-sign plain_cbor plain_cbor-IsCbor one_signature one_signature-IsEd25519
      claims_v2 (repeat 32 1) claims_v2-IsClaimsV2

invitation_v2_round :
    (i : SignedCapabilityInvitationV2) × (bytes : Bytes) × (InvitationV2.sign plain_cbor
        one_signature claims_v2
        (repeat 32 1)
      ≡ ok i)
    × (i.claims ≡ claims_v2)
    × (InvitationV2.encode_canonical plain_cbor i ≡ ok bytes)
    × (InvitationV2.decode_and_verify plain_cbor one_signature bytes ≡ ok i)
invitation_v2_round =
    invitation_v2_decode-sign plain_cbor plain_cbor-IsCbor one_signature one_signature-IsEd25519
      claims_v2 (repeat 32 1) claims_v2-IsClaimsV2

abbrev signed_v2 : SignedCapabilityInvitationV2
signed_v2 = invitation_v2_round.0

invitation_v2_encode-decode_example :
    (InvitationV2.encode_canonical plain_cbor signed_v2 ≡ ok invitation_v2_round.1)
    × (one_signature.verify_strict signed_v2.inviter_verifying_key
          (InvitationV2.signing_input plain_cbor signed_v2.claims signed_v2.inviter_verifying_key)
          signed_v2.signature
        ≡ true)
    × (signed_v2.claims.base.issued_at < signed_v2.claims.base.expires_at)
    × (all_zero signed_v2.claims.base.invitation_id ≡ false)
    × (all_zero signed_v2.claims.base.capability ≡ false)
invitation_v2_encode-decode_example =
    invitation_v2_encode-decode plain_cbor one_signature invitation_v2_round.1 invitation_v2_round.0
      invitation_v2_round.5
