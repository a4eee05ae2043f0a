-- ===== src/Admission/Approval.antt =====
-- crates/admission-capability/src/lib.rs: the reservation of the invitation, and the decision.
use session_chat.Prelude.{ℕ, Bool, not, ◌||◌, leb, is_none, if◌then◌else◌}
use session_chat.Prelude.Outcome.{Result, ok, err, is_ok}
use session_chat.Prelude.Bytes.{same}
use session_chat.Protocol.JoinRequest.{CapabilityJoinRequest}
use session_chat.Protocol.InvitationV2.{SignedCapabilityInvitationV2}
use session_chat.Registry.Types.{InvitationRegistry, InvitationReservation}
use session_chat.Registry.Reserve
use session_chat.Registry.Reserve.{reserve_v2_after_admission, validate_reservation}
use session_chat.Admission.Contract.{
  ApprovalDecision, approve, reject, secret_capability, context_new,
}
use session_chat.Admission.Types.{
  CapabilityAdmissionError, rejected, reservation_mismatch, CapabilityAdmissionVerifier,
  VerifiedCapabilityAdmission, PendingCapabilityApproval, CapabilityApprovalOutcome, approved,
  was_rejected,
}
use session_chat.Admission.Verify.{reservation_position, remove_reservation}

-- The two state machines that a method on `&mut self` with a `&mut InvitationRegistry` changes.
pub record Admission : Type 0 where
  pub verifier : CapabilityAdmissionVerifier
  pub registry : InvitationRegistry

abbrev pub is_unbound : SignedCapabilityInvitationV2 → VerifiedCapabilityAdmission → Bool
is_unbound i v =
    let b = v.opened.request.invitation in
    not (same b.invitation_id i.claims.base.invitation_id)
    || (not (same b.join_challenge i.claims.base.join_challenge)
        || (not (same b.invitation_key_id i.claims.invitation_key_id)
            || (not (same b.intended_verifier i.inviter_verifying_key)
                || not (same v.opened.invitation_signature i.signature))))

-- `self.remove_reservation(…)?; return Err(Rejected)`
unfoldable pub give_up :
    {A : Type 0}
    → Admission
    → VerifiedCapabilityAdmission
    → Admission × Result CapabilityAdmissionError A
give_up a v =
    let (w, removed) = remove_reservation a.verifier v.reservation in
    elim removed [
      | err e ↦ (record a { verifier = w }, err e)
      | ok _ ↦ (record a { verifier = w }, err rejected)
    ]

unfoldable pub reserve_v2_for_approval :
    Admission
    → SignedCapabilityInvitationV2
    → VerifiedCapabilityAdmission
    → ℕ
    → Admission × Result CapabilityAdmissionError PendingCapabilityApproval
reserve_v2_for_approval a i v now =
    let r = v.opened.request in
    if is_none (reservation_position a.verifier v.reservation)
    then (a, err reservation_mismatch)
    else if is_unbound i v
    then give_up a v
    else elim (context_new secret_capability r.invitation.invitation_id r.request.join_request_id
        v.validated.reference r.request.expires_at) [
          | err e ↦ give_up a v
          | ok context ↦
              let (g, reserved) =
                reserve_v2_after_admission a.registry i r.request.join_request_id now in
              elim reserved [
                | err e ↦ give_up (record a { registry = g }) v
                | ok held ↦ (
                  record a { registry = g },
                  ok (record {
                    verified = v;
                    invitation_reservation = held;
                    approval_context = context;
                  }),
                )
              ]
        ]

abbrev pub both :
    {E F : Type 0}
    → Result E (Unit {0})
    → Result F (Unit {0})
    → Result CapabilityAdmissionError (Unit {0})
both invitation_result replay_result =
    if not (is_ok invitation_result) || not (is_ok replay_result)
    then err reservation_mismatch
    else ok tt

unfoldable pub release_pending :
    Admission
    → PendingCapabilityApproval
    → ℕ
    → Admission × Result CapabilityAdmissionError (Unit {0})
release_pending a p now =
    let released = Reserve.release a.registry p.invitation_reservation now in
    let removed = remove_reservation a.verifier p.verified.reservation in
    (record { verifier = removed.0; registry = released.0 }, both released.1 removed.1)

-- The request, its response endpoint or its invitation is no longer good.
abbrev pub is_stale : Admission → CapabilityJoinRequest → InvitationReservation → ℕ → Bool
is_stale a r held now =
    leb r.request.expires_at now
    || (leb r.response_endpoint.expires_at now
        || not (is_ok (validate_reservation a.registry held now)))

-- `let _ = registry.release(…)`
abbrev pub release_invitation : Admission → InvitationReservation → ℕ → Admission
release_invitation a held now = record a { registry = (Reserve.release a.registry held now).0 }

abbrev pub after_reject :
    Admission × Result CapabilityAdmissionError (Unit {0})
    → Admission × Result CapabilityAdmissionError CapabilityApprovalOutcome
after_reject (a, err e) = (a, err e)
after_reject (a, ok _) = (a, ok was_rejected)

unfoldable pub decide_v2 :
    Admission
    → PendingCapabilityApproval
    → ApprovalDecision
    → ℕ
    → Admission × Result CapabilityAdmissionError CapabilityApprovalOutcome
decide_v2 a p reject now =
    if is_none (reservation_position a.verifier p.verified.reservation)
    then (release_invitation a p.invitation_reservation now, err reservation_mismatch)
    else after_reject (release_pending a p now)
decide_v2 a p approve now =
    if is_none (reservation_position a.verifier p.verified.reservation)
    then (release_invitation a p.invitation_reservation now, err reservation_mismatch)
    else if is_stale a p.verified.opened.request p.invitation_reservation now
    then ((release_pending a p now).0, err rejected)
    else (
      a,
      ok (
          approved
            (record { verified = p.verified; invitation_reservation = p.invitation_reservation })),
    )
