-- ===== src/Admission/Settled.antt =====
-- What a failed reservation, a decision and an MLS Add leave of the two state machines.
use session_chat.Prelude.{
  ℕ, ◌<◌, ◌≡◌, ◌⊎◌, ◌≤◌, inl, inr, arith, true, false, none, some, is_none, Option-cases,
  Bool-cases,
}
use session_chat.Prelude.Outcome.{ok, err, is_ok, Result-cases}
use session_chat.Prelude.Bytes.{Bytes}
use session_chat.Prelude.Map.Laws.{lookup-replace, replace-replace}
use session_chat.Protocol.InvitationV2.{SignedCapabilityInvitationV2}
use session_chat.Registry.Types.{InvitationRegistry, InvitationReservation}
use session_chat.Registry.Issue.{matches_v2}
use session_chat.Registry.Reserve
use session_chat.Registry.Reserve.{
  reserve, reserve_checks, reserve_v2_after_admission, settle, settle_checks, current_record,
  consume_after_membership, validate_reservation,
}
use session_chat.Registry.Reservations.{validate_reservation_exact}
use session_chat.Admission.Contract.{approve, reject}
use session_chat.Admission.Types.{
  rejected, reservation_mismatch, CapabilityAdmissionVerifier, ReplayReservation,
  VerifiedCapabilityAdmission, PendingCapabilityApproval, was_rejected,
}
use session_chat.Admission.Verify.{reservation_position, remove_reservation}
use session_chat.Admission.Approval.{
  Admission, give_up, is_stale, reserve_v2_for_approval, release_pending, decide_v2,
}
use session_chat.Admission.Addition.{
  Mls, Session, PreparedApprovedCapabilityAddition, AppliedCapabilityJoinAwaitingDurability,
  release_both, is_invalid, drop_prepared, drop_taken, consume, apply, apply_awaiting_durability,
  finalize_committed, release_proven_uncommitted,
}

reserve_v2-err :
    (g : InvitationRegistry) (i : SignedCapabilityInvitationV2) (request : Bytes) (now : ℕ)
    → is_ok (reserve_v2_after_admission g i request now).1 ≡ false
    → (reserve_v2_after_admission g i request now).0 ≡ g
unfolding reserve_v2_after_admission reserve
reserve_v2-err g i request now e = ground arith

-- A reservation of an invitation of version 2 that is released before the expiry leaves the registry
-- as it was.
release-reserve_v2 :
    (g : InvitationRegistry) (i : SignedCapabilityInvitationV2) (request : Bytes) (now later : ℕ)
    (v : InvitationReservation)
    → (reserve_v2_after_admission g i request now).1 ≡ ok v
    → later < i.claims.base.expires_at
    → Reserve.release (reserve_v2_after_admission g i request now).0 v later ≡ (g, ok tt)
unfolding reserve_v2_after_admission reserve reserve_checks matches_v2 Reserve.release settle
    settle_checks current_record
release-reserve_v2 g i request now later v granted live =
    grind (arith, lookup-replace, replace-replace)

remove_held :
    (v : CapabilityAdmissionVerifier) (r : ReplayReservation)
    → is_none (reservation_position v r) ≡ false
    → (remove_reservation v r).1 ≡ ok tt
unfolding remove_reservation
remove_held v r h = ground arith

-- A reservation for approval that fails leaves the registry as it was, and takes the request out of
-- the pending ones unless it was not among them; one that succeeds leaves the verifier, which holds
-- the request, as it was.
pub reserve_for_approval_exact :
    (a : Admission) (i : SignedCapabilityInvitationV2) (v : VerifiedCapabilityAdmission) (now : ℕ)
    → let result = reserve_v2_for_approval a i v now in
      ((result.1 ≡ err reservation_mismatch)
        × (result.0 ≡ a)
        × (is_none (reservation_position a.verifier v.reservation) ≡ true))
      ⊎ ((result.1 ≡ err rejected)
          × (result.0 ≡ record a { verifier = (remove_reservation a.verifier v.reservation).0 })
          × ((remove_reservation a.verifier v.reservation).1 ≡ ok tt))
      ⊎ ((is_ok result.1 ≡ true)
          × (result.0.verifier ≡ a.verifier)
          × (is_none (reservation_position a.verifier v.reservation) ≡ false))
unfolding reserve_v2_for_approval give_up
reserve_for_approval_exact a i v now = ground (
  arith,
  reserve_v2-err a.registry i v.opened.request.request.join_request_id now,
  remove_held a.verifier v.reservation,
)

-- A request that the owner rejects before the invitation expires leaves the registry as it was before
-- the reservation, and is no longer pending.
pub reject-reserve :
    (a : Admission) (i : SignedCapabilityInvitationV2) (v : VerifiedCapabilityAdmission)
    (p : PendingCapabilityApproval) (now later : ℕ)
    → (reserve_v2_for_approval a i v now).1 ≡ ok p
    → later < i.claims.base.expires_at
    → decide_v2 (reserve_v2_for_approval a i v now).0 p reject later
      ≡ (record a { verifier = (remove_reservation a.verifier v.reservation).0 }, ok was_rejected)
unfolding reserve_v2_for_approval give_up decide_v2 release_pending
reject-reserve a i v p now later granted live =
    elim (Result-cases
      (reserve_v2_after_admission a.registry i v.opened.request.request.join_request_id now).1) [
        | inl (e, q) ↦ absurd (ground (arith, q, remove_held a.verifier v.reservation))
        | inr (held, q) ↦ ground (
          arith,
          q,
          remove_held a.verifier v.reservation,
          release-reserve_v2 a.registry i v.opened.request.request.join_request_id now later held q
              live,
        )
      ]

-- An approval is granted exactly while the request is pending, it and its response endpoint have not
-- expired, and its reservation of the invitation is good; it then changes nothing. A refusal releases
-- what is left of the two reservations.
pub approve_exact :
    (a : Admission) (p : PendingCapabilityApproval) (now : ℕ)
    → let result = decide_v2 a p approve now in
      ((is_ok result.1 ≡ true)
        × (result.0 ≡ a)
        × (is_none (reservation_position a.verifier p.verified.reservation) ≡ false)
        × (now < p.verified.opened.request.request.expires_at)
        × (now < p.verified.opened.request.response_endpoint.expires_at)
        × (validate_reservation a.registry p.invitation_reservation now ≡ ok tt))
      ⊎ ((is_ok result.1 ≡ false)
          × (result.0 ≡ release_both a p.invitation_reservation p.verified.reservation now)
          × ((is_none (reservation_position a.verifier p.verified.reservation) ≡ true)
              ⊎ (is_stale a p.verified.opened.request p.invitation_reservation now ≡ true)))
unfolding decide_v2 release_pending release_both remove_reservation
approve_exact a p now = ground arith

module _ {Group Prepared Committed : Type 0} (mls : Mls Group Prepared Committed)
    (x : Session Group) (p : PreparedApprovedCapabilityAddition Prepared) (now : ℕ) where
  -- An MLS Add goes one of three ways. When the request or its endpoint has expired or the reservation
  -- of the invitation is not good, it is refused, and MLS only drops the prepared addition. When MLS
  -- refuses to apply it, it is refused. In both, the two reservations are handed to their release,
  -- whose answer for the invitation is that of the validation; so when MLS refused, the invitation is
  -- released. Otherwise MLS applied it, the invitation is consumed, and the request stays pending
  -- against a replay.
  pub apply_exact :
      let result = apply mls x p now in
      let registry = x.admission.registry in
      let held = p.invitation_reservation in
      ((result.1 ≡ err rejected)
        × ((p.request_expires_at ≤ now)
            ⊎ (p.response_endpoint.expires_at ≤ now)
            ⊎ (is_ok (validate_reservation registry held now) ≡ false))
        × (result.0.group ≡ mls.clear x.group p.inner)
        × (result.0.admission.registry ≡ (Reserve.release registry held now).0)
        × ((Reserve.release registry held now).1 ≡ validate_reservation registry held now)
        × (result.0.admission.verifier
            ≡ (remove_reservation x.admission.verifier p.replay_reservation).0))
      ⊎ ((result.1 ≡ err rejected)
          × (now < p.request_expires_at)
          × (now < p.response_endpoint.expires_at)
          × ((mls.apply x.group p.inner).1 ≡ none)
          × (result.0.group ≡ (mls.apply x.group p.inner).0)
          × (result.0.admission.registry ≡ (Reserve.release registry held now).0)
          × ((Reserve.release registry held now).1 ≡ ok tt)
          × (result.0.admission.verifier
              ≡ (remove_reservation x.admission.verifier p.replay_reservation).0))
      ⊎ ((committed : Committed) × (result.1
            ≡ ok (record { committed = committed; response_endpoint = p.response_endpoint }))
          × (now < p.request_expires_at)
          × (now < p.response_endpoint.expires_at)
          × (mls.apply x.group p.inner ≡ (result.0.group, some committed))
          × (result.0.admission.registry ≡ (consume_after_membership registry held now).0)
          × ((consume_after_membership registry held now).1 ≡ ok tt)
          × (result.0.admission.verifier ≡ x.admission.verifier))
  unfolding apply consume drop_prepared drop_taken release_both
  apply_exact =
      let same_answer =
        validate_reservation_exact x.admission.registry p.invitation_reservation now in
      elim (Option-cases (mls.apply x.group p.inner).1) [
        | inl none_applied ↦ ground (arith, none_applied, same_answer)
        | inr (committed, done) ↦ elim (Bool-cases (is_invalid mls x.admission p now)) [
          | inl bad ↦ ground (arith, bad, done, same_answer)
          | inr good ↦ inr (
              inr (
                committed,
                ground (arith, good, done, same_answer),
                ground (arith, good),
                ground (arith, good),
                ground (arith, good, done, same_answer),
                ground (arith, good, done, same_answer),
                ground (arith, good, same_answer),
                ground (arith, good, done, same_answer),
              ))
        ]
      ]

  -- A durable Add that was applied has changed neither state machine, and its settlement at that point
  -- succeeds both ways while the request is pending: after the commit it consumes the invitation;
  -- without it both reservations are released.
  pub settle-apply :
      (j : AppliedCapabilityJoinAwaitingDurability Committed)
      → (apply_awaiting_durability mls x p now).1 ≡ ok j
      → is_none (reservation_position x.admission.verifier p.replay_reservation) ≡ false
      → let a = (apply_awaiting_durability mls x p now).0.admission in
        (a ≡ x.admission)
        × (finalize_committed a j ≡ (
          record a {
            registry = (consume_after_membership a.registry p.invitation_reservation now).0;
          },
          ok tt,
        ))
        × (release_proven_uncommitted a j
            ≡ (release_both a p.invitation_reservation p.replay_reservation now, ok tt))
  unfolding apply_awaiting_durability drop_prepared drop_taken finalize_committed
      release_proven_uncommitted release_both
  settle-apply j applied pending = ground (
    arith,
    validate_reservation_exact x.admission.registry p.invitation_reservation now,
    remove_held x.admission.verifier p.replay_reservation pending,
  )
