-- ===== src/Protection/Requests.antt =====
-- crates/session-crypto-hpke/src/lib.rs: sealing and opening one capability join request.
use Prim.Native.Nat.{◌/◌, ◌%◌}
use session_chat.Prelude.{ℕ, [], ◌∷◌, ◌++◌, ◌||◌, ltb, not, Bool}
use session_chat.Prelude.Outcome.{Result, ok, ◌>>=◌, ◌>>◌, reject_if, ok_or, map_err}
use session_chat.Prelude.Bytes.{Bytes, same, codes}
use session_chat.Protocol.Cbor.{Cbor, written}
use session_chat.Protocol.Signature.{Ed25519}
use session_chat.Protocol.Endpoint.{local_memory}
use session_chat.Protocol.Claims.{hpke_suite, join_request_schema_v1, application_protocol_v1}
use session_chat.Protocol.InvitationV2.{SignedCapabilityInvitationV2, invitation_v2_version}
use session_chat.Protocol.JoinRequest
use session_chat.Protocol.JoinRequest.{CapabilityJoinRequest}
use session_chat.Protocol.ProtectedJoin
use session_chat.Protocol.ProtectedJoin.{ProtectedJoinRequest, aad_canonical}
use session_chat.Protection.Provider.{Hpke, JoinProtectionError, rejected, protocol_error}
use session_chat.Protection.Invitations.{fixed_key}

pub record OpenedCapabilityJoinRequest : Type 0 where
  pub request : CapabilityJoinRequest
  pub invitation_signature : Bytes

abbrev pub is_outside : SignedCapabilityInvitationV2 → CapabilityJoinRequest → Bool
is_outside i r =
    not (same r.invitation.invitation_id i.claims.base.invitation_id)
    || (not (same r.invitation.join_challenge i.claims.base.join_challenge)
        || (not (same r.invitation.invitation_key_id i.claims.invitation_key_id)
            || (not (same r.invitation.intended_verifier i.inviter_verifying_key)
                || (ltb r.request.issued_at i.claims.base.issued_at
                    || ltb i.claims.base.expires_at r.request.expires_at))))

unfoldable pub validate_inner_context :
    SignedCapabilityInvitationV2 → CapabilityJoinRequest → Result JoinProtectionError (Unit {0})
validate_inner_context i r = reject_if (is_outside i r) rejected

-- `value.to_be_bytes()` of a `u16`
abbrev pub u16_be : ℕ → Bytes
u16_be n = n / 256 ∷ n % 256 ∷ []

abbrev pub psk_id_domain : Bytes
psk_id_domain = codes "session-chat/invitation-capability-psk/v1" ++ 0 ∷ []

abbrev pub info_domain : Bytes
info_domain = codes "session-chat/join-request-hpke/v1" ++ 0 ∷ []

unfoldable pub psk_id : SignedCapabilityInvitationV2 → Bytes
psk_id i = written (
    psk_id_domain ∷ i.claims.base.invitation_id ∷ i.claims.base.join_challenge
    ∷ i.claims.invitation_key_id ∷ [])

unfoldable pub hpke_info : SignedCapabilityInvitationV2 → Bytes
hpke_info i = written (
    info_domain
    ∷ u16_be invitation_v2_version
    ∷ u16_be hpke_suite
    ∷ u16_be join_request_schema_v1
    ∷ u16_be application_protocol_v1
    ∷ u16_be local_memory
    ∷ i.claims.base.invitation_id
    ∷ i.claims.base.join_challenge
    ∷ i.claims.invitation_key_id
    ∷ i.claims.hpke_recipient_public_key
    ∷ i.inviter_verifying_key
    ∷ [])

module _ (c : Cbor) {Sender Receiver : Type 0} (h : Hpke Sender Receiver) where
  unfoldable pub seal_capability_request :
      (random : Bytes)
      → SignedCapabilityInvitationV2
      → CapabilityJoinRequest
      → Result JoinProtectionError ProtectedJoinRequest
  seal_capability_request random i r = do
    validate_inner_context i r
    reject_if (not h.available) rejected
    reject_if (not (h.public_key_validate i.claims.hpke_recipient_public_key)) rejected
    setup ←
        ok_or
          (h.setup_sender random i.claims.hpke_recipient_public_key (hpke_info i)
            i.claims.base.capability (psk_id i))
          rejected
    key ← fixed_key setup.0
    aad_source ←
        map_err protocol_error
          (ProtectedJoin.new i.claims.base.invitation_id i.claims.invitation_key_id key (0 ∷ []))
    plaintext ← map_err protocol_error (JoinRequest.encode_canonical c r)
    ciphertext ← ok_or (h.seal setup.1 (aad_canonical c aad_source) plaintext) rejected
    map_err protocol_error
        (ProtectedJoin.new i.claims.base.invitation_id i.claims.invitation_key_id key ciphertext)

module _ (c : Cbor) (s : Ed25519) {Sender Receiver : Type 0} (h : Hpke Sender Receiver) where
  unfoldable pub open_capability_request :
      (private_key : Bytes)
      → SignedCapabilityInvitationV2
      → ProtectedJoinRequest
      → Result JoinProtectionError OpenedCapabilityJoinRequest
  open_capability_request private_key i p = do
    reject_if
        (not (same p.invitation_id i.claims.base.invitation_id)
          || not (same p.invitation_key_id i.claims.invitation_key_id))
        rejected
    reject_if (not h.available) rejected
    reject_if (not (h.public_key_validate i.claims.hpke_recipient_public_key)) rejected
    receiver ←
        ok_or
          (h.setup_receiver p.encapsulated_key private_key i.claims.hpke_recipient_public_key
            (hpke_info i) i.claims.base.capability (psk_id i))
          rejected
    plaintext ← ok_or (h.unseal receiver (aad_canonical c p) p.ciphertext) rejected
    request ← map_err (λ e. rejected) (JoinRequest.decode_canonical c s plaintext)
    validate_inner_context i request
    ok (record { request = request; invitation_signature = i.signature })
