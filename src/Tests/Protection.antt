-- ===== src/Tests/Protection.antt =====
-- A join request at concrete values, sealed and opened.
use session_chat.Prelude.{◌≡◌, ◌≤◌, refl, arith, ◌∷◌, [], some, all}
use session_chat.Prelude.Outcome.{ok}
use session_chat.Prelude.Bytes.{Bytes, all_zero, Bytes-discrete}
use session_chat.Protocol.Endpoint.{encode_into}
use session_chat.Protocol.Claims.{
  CapabilityInvitationV2Claims, claims_new, claims_v2_new, secret_capability_new,
}
use session_chat.Protocol.InvitationV2
use session_chat.Protocol.InvitationV2.{SignedCapabilityInvitationV2, signing_input}
use session_chat.Protocol.InvitationV2.Canonical.{IsClaimsV2}
use session_chat.Protocol.JoinRequest
use session_chat.Protocol.JoinRequest.{CapabilityJoinRequest}
use session_chat.Protocol.JoinRequest.Canonical.{IsJoinRequest, join_request_decode-encode}
use session_chat.Protocol.ProtectedJoin
use session_chat.Protocol.ProtectedJoin.{ProtectedJoinRequest}
use session_chat.Protection.Invitations.{
  Draws, GeneratedCapabilityInvitationV2, fixed_key, private_key_from_bytes,
  generate_invitation_key, generate_capability_invitation, restore_capability_invitation,
}
use session_chat.Protection.Requests.{
  OpenedCapabilityJoinRequest, validate_inner_context, seal_capability_request,
  open_capability_request,
}
use session_chat.Protection.RoundTrip.{open-seal, open-binds}
use session_chat.Protection.Restored.{IsFilled, restore-generate}
use session_chat.Tests.Instances.{
  repeat, short_cbor, short_cbor-IsCbor, short_cbor-IsCompact, one_signature,
  one_signature-IsEd25519, clear_hpke, clear_hpke-IsHpke,
}

abbrev claims : CapabilityInvitationV2Claims
claims = record {
  base = record {
    invitation_id = repeat 16 4;
    issued_at = 10;
    expires_at = 500;
    join_challenge = repeat 32 6;
    capability = repeat 32 5;
  };
  invitation_key_id = repeat 16 8;
  hpke_recipient_public_key = repeat 32 3;
}

claims-IsClaimsV2 : IsClaimsV2 claims
unfolding all_zero all
claims-IsClaimsV2 = record {
  valid_base = record {
    id_length = refl;
    challenge_length = refl;
    capability_length = refl;
    expiry_word = omega arith;
    lifetime = omega arith;
    id_nonzero = refl;
    challenge_nonzero = refl;
    capability_nonzero = refl;
  };
  key_id_length = refl;
  public_key_length = refl;
  key_id_nonzero = refl;
  public_key_nonzero = refl;
}

abbrev pub invitation : SignedCapabilityInvitationV2
invitation = record {
  claims = claims;
  inviter_verifying_key = repeat 32 7;
  signature = repeat 64 9;
}

abbrev pub request : CapabilityJoinRequest
request = record {
  invitation = record {
    invitation_id = repeat 16 4;
    join_challenge = repeat 32 6;
    invitation_key_id = repeat 16 8;
    intended_verifier = repeat 32 7;
  };
  request = record {
    join_request_id = repeat 16 2;
    issued_at = 20;
    expires_at = 400;
    request_nonce = repeat 32 1;
  };
  mls = record {
    key_package_reference = repeat 32 11;
    key_package = 12 ∷ 13 ∷ [];
    credential_identity = repeat 32 14;
    leaf_signature_key = repeat 32 7;
  };
  response_endpoint = record {
    transport_instance_id = repeat 16 1;
    mailbox_id = repeat 16 2;
    deposit_capability = repeat 32 5;
    expires_at = 300;
  };
}

request-IsJoinRequest : IsJoinRequest one_signature request
unfolding all_zero all Bytes-discrete
request-IsJoinRequest = record {
  valid_invitation = record {
    id_length = refl;
    challenge_length = refl;
    key_id_length = refl;
    verifier_length = refl;
    id_nonzero = refl;
    challenge_nonzero = refl;
    key_id_nonzero = refl;
    good_verifier = refl;
  };
  valid_request = record {
    id_length = refl;
    nonce_length = refl;
    expiry_word = omega arith;
    id_nonzero = refl;
    nonce_nonzero = refl;
    lifetime = omega arith;
  };
  valid_mls = record {
    reference_length = refl;
    identity_length = refl;
    leaf_key_length = refl;
    package_length = omega arith;
    package_nonempty = refl;
    identity_nonzero = refl;
    leaf_key_nonzero = refl;
    good_leaf_key = refl;
  };
  valid_endpoint = record {
    instance_length = refl;
    mailbox_length = refl;
    capability_length = refl;
    expiry_word = omega arith;
    instance_nonzero = refl;
    mailbox_nonzero = refl;
    capability_nonzero = refl;
  };
  endpoint_within = omega arith;
}

join_request_decode-encode_example :
    (bytes : Bytes) × (JoinRequest.encode_canonical short_cbor request ≡ ok bytes)
    × (JoinRequest.decode_canonical short_cbor one_signature bytes ≡ ok request)
join_request_decode-encode_example =
    join_request_decode-encode short_cbor short_cbor-IsCbor one_signature request
      request-IsJoinRequest

abbrev pub opened : OpenedCapabilityJoinRequest
opened = record { request = request; invitation_signature = repeat 64 9 }

abbrev sealed : ProtectedJoinRequest
unfolding JoinRequest.encoded encode_into
sealed = record {
  invitation_id = repeat 16 4;
  invitation_key_id = repeat 16 8;
  encapsulated_key = repeat 32 5;
  ciphertext = 9 ∷ JoinRequest.encoded short_cbor request;
}

seals : seal_capability_request short_cbor clear_hpke [] invitation request ≡ ok sealed
unfolding seal_capability_request validate_inner_context fixed_key ProtectedJoin.new
    JoinRequest.encode_canonical JoinRequest.encoded encode_into all_zero all Bytes-discrete
seals = refl

open-seal_example :
    (bytes : Bytes) × (ProtectedJoin.encode_canonical short_cbor sealed ≡ ok bytes)
    × (ProtectedJoin.decode_canonical short_cbor bytes ≡ ok sealed)
    × (open_capability_request short_cbor one_signature clear_hpke (repeat 32 3) invitation sealed
        ≡ ok opened)
open-seal_example =
    open-seal short_cbor short_cbor-IsCbor one_signature clear_hpke clear_hpke-IsHpke (repeat 32 3)
      invitation refl request request-IsJoinRequest short_cbor-IsCompact claims-IsClaimsV2 [] sealed
      seals

-- The same, for the opening that the next theorem is about.
travels :
    (bytes : Bytes) × (ProtectedJoin.encode_canonical short_cbor sealed ≡ ok bytes)
    × (ProtectedJoin.decode_canonical short_cbor bytes ≡ ok sealed)
    × (open_capability_request short_cbor one_signature clear_hpke (repeat 32 3) invitation sealed
        ≡ ok opened)
travels =
    open-seal short_cbor short_cbor-IsCbor one_signature clear_hpke clear_hpke-IsHpke (repeat 32 3)
      invitation refl request request-IsJoinRequest short_cbor-IsCompact claims-IsClaimsV2 [] sealed
      seals

open-binds_example :
    (opened.request.invitation ≡ record {
      invitation_id = repeat 16 4;
      join_challenge = repeat 32 6;
      invitation_key_id = repeat 16 8;
      intended_verifier = repeat 32 7;
    })
    × (opened.invitation_signature ≡ invitation.signature)
    × (10 ≤ 20)
    × (400 ≤ 500)
    × (sealed.invitation_id ≡ repeat 16 4)
    × (sealed.invitation_key_id ≡ repeat 16 8)
open-binds_example =
    open-binds short_cbor one_signature clear_hpke (repeat 32 3) invitation sealed opened travels.3

abbrev draws : Draws
draws = record {
  invitation_id = some (repeat 16 4);
  join_challenge = some (repeat 32 6);
  invitation_key_id = some (repeat 16 8);
  capability = some (repeat 32 5);
  signing_seed = some (repeat 32 2);
  key_seed = repeat 32 3;
}

draws-IsFilled : IsFilled draws
draws-IsFilled = record {
  id_length = λ b h. ground (arith, h);
  challenge_length = λ b h. ground (arith, h);
  key_id_length = λ b h. ground (arith, h);
  capability_length = λ b h. ground (arith, h);
}

abbrev generated : GeneratedCapabilityInvitationV2
generated = record {
  invitation = record invitation { signature = repeat 64 9 };
  private_key = repeat 32 3;
}

generates :
    generate_capability_invitation short_cbor one_signature clear_hpke draws 10 500 ≡ ok generated
unfolding generate_capability_invitation generate_invitation_key fixed_key private_key_from_bytes
    claims_new claims_v2_new secret_capability_new InvitationV2.sign all_zero all
generates = refl

restore-generate_example :
    (bytes : Bytes) × (InvitationV2.encode_canonical short_cbor generated.invitation ≡ ok bytes)
    × (restore_capability_invitation short_cbor one_signature clear_hpke bytes (repeat 32 3)
        ≡ ok generated)
restore-generate_example =
    restore-generate short_cbor short_cbor-IsCbor one_signature one_signature-IsEd25519 clear_hpke
      clear_hpke-IsHpke draws 10 500 generated draws-IsFilled (omega arith) generates
