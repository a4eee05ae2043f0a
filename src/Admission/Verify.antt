-- ===== src/Admission/Verify.antt =====
-- crates/admission-capability/src/lib.rs: the verification of a request, and its replay reservation.
-- The validator of KeyPackages, MLS code of a third party behind its adapter, is a parameter.
use session_chat.Prelude.{
  ℕ, ◌-◌, [], ◌∷◌, ◌++◌, Bool, not, ◌&&◌, ◌||◌, Option, none, some, ltb, leb, ◌==◌, if◌then◌else◌,
  any, length, filter, count, position, remove_at, checked_add, saturating_add,
}
use session_chat.Prelude.Outcome.{Result, ok, err, ◌>>=◌, ◌>>◌, reject_if, ok_or}
use session_chat.Prelude.Bytes.{Bytes, same}
use session_chat.Protocol.JoinRequest.{CapabilityJoinRequest}
use session_chat.Protection.Requests.{OpenedCapabilityJoinRequest}
use session_chat.Admission.Types.{
  CapabilityAdmissionError, rejected, replay, capacity_exceeded, reservation_mismatch,
  ReplayGeneration, ReplayReservation, PendingReplay, CapabilityAdmissionVerifier,
  ValidatedKeyPackage, VerifiedCapabilityAdmission,
}

-- `a.checked_sub(b)`
abbrev pub checked_sub : ℕ → ℕ → Option ℕ
checked_sub a b = if ltb a b then none else some (a - b)

-- `==` on generations.
abbrev pub same_generation : ReplayGeneration → ReplayGeneration → Bool
same_generation a b =
    same a.invitation_id b.invitation_id
    && (same a.join_challenge b.join_challenge
        && (same a.invitation_key_id b.invitation_key_id
            && same a.intended_verifier b.intended_verifier))

abbrev pub is_live : ℕ → PendingReplay → Bool
is_live now e = ltb now e.expires_at

-- The entry holds the request identifier or the nonce, for the generation.
abbrev pub clashes :
    ReplayGeneration → (join_request_id request_nonce : Bytes) → PendingReplay → Bool
clashes g id nonce e =
    same_generation e.generation g && (same e.join_request_id id || same e.request_nonce nonce)

abbrev pub generation_of : CapabilityJoinRequest → ReplayGeneration
generation_of r = record {
  invitation_id = r.invitation.invitation_id;
  join_challenge = r.invitation.join_challenge;
  invitation_key_id = r.invitation.invitation_key_id;
  intended_verifier = r.invitation.intended_verifier;
}

abbrev pub differs : CapabilityJoinRequest → ValidatedKeyPackage → Bool
differs r v =
    not (same r.mls.key_package_reference v.reference)
    || (not (same r.mls.credential_identity v.credential_identity)
        || not (same r.mls.leaf_signature_key v.leaf_signature_key))

abbrev pub entry_of : CapabilityJoinRequest → ℕ → PendingReplay
entry_of r id = record {
  generation = generation_of r;
  join_request_id = r.request.join_request_id;
  request_nonce = r.request.request_nonce;
  expires_at = r.request.expires_at;
  reservation_id = id;
}

abbrev pub reservation_of : CapabilityJoinRequest → ℕ → ReplayReservation
reservation_of r id = record {
  generation = generation_of r;
  join_request_id = r.request.join_request_id;
  request_nonce = r.request.request_nonce;
  reservation_id = id;
}

module _ (validate : Bytes → ℕ → Option ValidatedKeyPackage) where
  -- The checks, none of which changes the verifier, and the identifier after the one that is taken.
  unfoldable pub verify_checks :
      CapabilityAdmissionVerifier
      → CapabilityJoinRequest
      → ℕ
      → Result CapabilityAdmissionError (ValidatedKeyPackage × ℕ)
  verify_checks v r now = do
    lifetime ← ok_or (checked_sub r.request.expires_at r.request.issued_at) rejected
    reject_if
        (ltb (saturating_add now v.policy.maximum_future_skew) r.request.issued_at
          || (leb r.request.expires_at now
              || (leb r.response_endpoint.expires_at now
                  || ltb v.policy.maximum_request_lifetime lifetime)))
        rejected
    validated ← ok_or (validate r.mls.key_package now) rejected
    reject_if (differs r validated) rejected
    reject_if
        (any
          (λ e.
            is_live now e
            && clashes (generation_of r) r.request.join_request_id r.request.request_nonce e)
          v.pending)
        replay
    reject_if (leb v.policy.maximum_pending_requests (count (is_live now) v.pending))
        capacity_exceeded
    next ← ok_or (checked_add v.next_reservation_id 1) capacity_exceeded
    ok (validated, next)

  unfoldable pub verify_and_reserve :
      CapabilityAdmissionVerifier
      → OpenedCapabilityJoinRequest
      → ℕ
      → CapabilityAdmissionVerifier × Result CapabilityAdmissionError VerifiedCapabilityAdmission
  verify_and_reserve v opened now = elim (verify_checks v opened.request now) [
    | err e ↦ (v, err e)
    | ok (validated, next) ↦ (
      record v {
        pending =
            filter (is_live now) v.pending ++ entry_of opened.request v.next_reservation_id ∷ [];
        next_reservation_id = next;
      },
      ok (record {
        opened = opened;
        validated = validated;
        reservation = reservation_of opened.request v.next_reservation_id;
      }),
    )
  ]

unfoldable pub pending_count : CapabilityAdmissionVerifier → ℕ
pending_count v = length v.pending

abbrev pub is_entry_of : ReplayReservation → PendingReplay → Bool
is_entry_of r e =
    e.reservation_id == r.reservation_id
    && (same_generation e.generation r.generation
        && (same e.join_request_id r.join_request_id && same e.request_nonce r.request_nonce))

unfoldable pub reservation_position : CapabilityAdmissionVerifier → ReplayReservation → Option ℕ
reservation_position v r = position (is_entry_of r) v.pending

unfoldable pub remove_reservation :
    CapabilityAdmissionVerifier
    → ReplayReservation
    → CapabilityAdmissionVerifier × Result CapabilityAdmissionError (Unit {0})
remove_reservation v r = elim (reservation_position v r) [
  | none ↦ (v, err reservation_mismatch)
  | some n ↦ (record v { pending = remove_at n v.pending }, ok tt)
]

unfoldable pub release :
    CapabilityAdmissionVerifier
    → VerifiedCapabilityAdmission
    → CapabilityAdmissionVerifier × Result CapabilityAdmissionError (Unit {0})
release v verified = remove_reservation v verified.reservation
