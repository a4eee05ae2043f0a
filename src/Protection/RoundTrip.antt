-- ===== src/Protection/RoundTrip.antt =====
-- A sealed request opens, under the same invitation, to the request; and only to one that belongs to
-- the invitation.
use session_chat.Prelude.{
  ◌≡◌, ◌≤◌, arith, some, inl, inr, false, true, is_empty, length, Option, Option-cases,
}
use session_chat.Prelude.Outcome.{ok, Result-cases}
use session_chat.Prelude.Bytes.{Bytes, same_refl}
use session_chat.Protocol.Cbor.{Cbor, IsCbor, IsCompact}
use session_chat.Protocol.Signature.{Ed25519}
use session_chat.Protocol.InvitationV2.{SignedCapabilityInvitationV2}
use session_chat.Protocol.InvitationV2.Canonical.{IsClaimsV2}
use session_chat.Protocol.JoinRequest
use session_chat.Protocol.JoinRequest.{CapabilityJoinRequest}
use session_chat.Protocol.JoinRequest.Canonical
use session_chat.Protocol.JoinRequest.Canonical.{IsJoinRequest}
use session_chat.Protocol.ProtectedJoin
use session_chat.Protocol.ProtectedJoin.{ProtectedJoinRequest, aad_canonical, encode_prefix}
use session_chat.Protocol.ProtectedJoin.Canonical.{IsProtected, protected_join_decode-encode}
use session_chat.Protection.Provider.{Hpke, IsHpke}
use session_chat.Protection.Invitations.{fixed_key}
use session_chat.Protection.Requests.{
  validate_inner_context, OpenedCapabilityJoinRequest, seal_capability_request,
  open_capability_request, hpke_info, psk_id, is_outside,
}

module _ (c : Cbor) (s : Ed25519) {Sender Receiver : Type 0} (h : Hpke Sender Receiver)
    (i : SignedCapabilityInvitationV2) (r : CapabilityJoinRequest) where
  abbrev setup : Bytes → Option (Bytes × Sender)
  setup random =
      h.setup_sender random i.claims.hpke_recipient_public_key (hpke_info i)
        i.claims.base.capability (psk_id i)

  -- What a successful sealing did.
  record IsSealed (random : Bytes) (p : ProtectedJoinRequest) : Type 0 where
    sender : Sender
    plaintext : Bytes
    inside : is_outside i r ≡ false
    is_available : h.available ≡ true
    valid_key : h.public_key_validate i.claims.hpke_recipient_public_key ≡ true
    set_up : setup random ≡ some (p.encapsulated_key, sender)
    encoded : JoinRequest.encode_canonical c r ≡ ok plaintext
    sealed : h.seal sender (aad_canonical c p) plaintext ≡ some p.ciphertext
    same_id : p.invitation_id ≡ i.claims.base.invitation_id
    same_key_id : p.invitation_key_id ≡ i.claims.invitation_key_id
    key_length : length p.encapsulated_key ≡ 32
    ciphertext_nonempty : is_empty p.ciphertext ≡ false
    ciphertext_length : length p.ciphertext ≤ 32693

  seal-IsSealed :
      (random : Bytes) (p : ProtectedJoinRequest)
      → seal_capability_request c h random i r ≡ ok p
      → IsSealed random p
  unfolding seal_capability_request validate_inner_context fixed_key aad_canonical encode_prefix
      ProtectedJoin.new
  seal-IsSealed random p e = elim (Option-cases (setup random)) [
    | inl q ↦ absurd (ground (arith, q))
    | inr ((key, sender), q) ↦ elim (Result-cases (JoinRequest.encode_canonical c r)) [
      | inl (f, k) ↦ absurd (ground (arith, q, k))
      | inr (plaintext, k) ↦ record {
        sender = sender;
        plaintext = plaintext;
        inside = ground (arith, q, k);
        is_available = ground (arith, q, k);
        valid_key = ground (arith, q, k);
        set_up = ground (arith, q, k);
        encoded = k;
        sealed = ground (arith, q, k);
        same_id = ground (arith, q, k);
        same_key_id = ground (arith, q, k);
        key_length = ground (arith, q, k);
        ciphertext_nonempty = ground (arith, q, k);
        ciphertext_length = ground (arith, q, k);
      }
    ]
  ]

  sealed-IsProtected :
      (random : Bytes) (p : ProtectedJoinRequest)
      → IsClaimsV2 i.claims
      → IsSealed random p
      → IsProtected p
  sealed-IsProtected random p k f = record {
    id_length = rw (f.same_id) k.valid_base.id_length;
    key_id_length = rw (f.same_key_id) k.key_id_length;
    key_length = f.key_length;
    id_nonzero = rw (f.same_id) k.valid_base.id_nonzero;
    key_id_nonzero = rw (f.same_key_id) k.key_id_nonzero;
    ciphertext_nonempty = f.ciphertext_nonempty;
    ciphertext_length = f.ciphertext_length;
  }

module _ (c : Cbor) (laws : IsCbor c) (s : Ed25519) {Sender Receiver : Type 0}
    (h : Hpke Sender Receiver) (hpke : IsHpke h) (private_key : Bytes)
    (i : SignedCapabilityInvitationV2)
    (own : h.public_key private_key ≡ some i.claims.hpke_recipient_public_key)
    (r : CapabilityJoinRequest) (valid : IsJoinRequest s r) where
  open-IsSealed :
      (random : Bytes) (p : ProtectedJoinRequest)
      → IsSealed c s h i r random p
      → open_capability_request c s h private_key i p
        ≡ ok (record { request = r; invitation_signature = i.signature })
  unfolding open_capability_request validate_inner_context
  open-IsSealed random p f =
      let decoded = Canonical.join_request_decode-encode c laws s r valid in
      let received = hpke.opens random private_key _ _ _ _ _ _ _ _ _ own f.set_up f.sealed in
      ground (
        arith,
        received.1,
        received.2,
        f.inside,
        f.is_available,
        f.valid_key,
        same_refl i.claims.base.invitation_id,
        same_refl i.claims.invitation_key_id,
        f.same_id,
        f.same_key_id,
        f.encoded,
        decoded.1,
        decoded.2,
      )

  -- With an encoding and an HPKE provider that keep their laws, a valid join request that is sealed
  -- under an invitation travels: the protected request encodes, its encoding decodes to it, and the
  -- holder of the invitation's private key opens it to the very request, with the signature of the
  -- invitation.
  pub open-seal :
      IsCompact c
      → IsClaimsV2 i.claims
      → (random : Bytes) (p : ProtectedJoinRequest) → seal_capability_request c h random i r ≡ ok p
      → (bytes : Bytes) × (ProtectedJoin.encode_canonical c p ≡ ok bytes)
        × (ProtectedJoin.decode_canonical c bytes ≡ ok p)
        × (open_capability_request c s h private_key i p
            ≡ ok (record { request = r; invitation_signature = i.signature }))
  open-seal compact k random p e =
      let f = seal-IsSealed c s h i r random p e in
      let wire =
        protected_join_decode-encode c laws compact p (sealed-IsProtected c s h i r random p k f) in
      (wire.0, wire.1, wire.2, open-IsSealed random p f)

module _ (c : Cbor) (s : Ed25519) {Sender Receiver : Type 0} (h : Hpke Sender Receiver) where
  -- Whatever provider opens it, an opened request repeats the invitation's identifier, challenge, key
  -- identifier and verifier, lies within the invitation's times, and carries its signature.
  pub open-binds :
      (private_key : Bytes) (i : SignedCapabilityInvitationV2) (p : ProtectedJoinRequest)
      (o : OpenedCapabilityJoinRequest)
      → open_capability_request c s h private_key i p ≡ ok o
      → (o.request.invitation ≡ record {
        invitation_id = i.claims.base.invitation_id;
        join_challenge = i.claims.base.join_challenge;
        invitation_key_id = i.claims.invitation_key_id;
        intended_verifier = i.inviter_verifying_key;
      })
        × (o.invitation_signature ≡ i.signature)
        × (i.claims.base.issued_at ≤ o.request.request.issued_at)
        × (o.request.request.expires_at ≤ i.claims.base.expires_at)
        × (p.invitation_id ≡ i.claims.base.invitation_id)
        × (p.invitation_key_id ≡ i.claims.invitation_key_id)
  unfolding open_capability_request validate_inner_context
  open-binds private_key i p o e = ground (arith)
