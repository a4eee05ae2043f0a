-- ===== src/Admission/Replay/Steps.antt =====
-- What holds of a verifier is kept by a call when the removal of a reservation and the verification
-- of a request keep it.
use session_chat.Prelude.{ℕ, List, [], ◌∷◌, Option, arith, All}
use session_chat.Prelude.Bytes.{Bytes}
use session_chat.Protection.Requests.{OpenedCapabilityJoinRequest}
use session_chat.Admission.Contract.{approve, reject}
use session_chat.Admission.Types.{
  ReplayReservation, CapabilityAdmissionVerifier, ValidatedKeyPackage, VerifiedCapabilityAdmission,
  ApprovedCapabilityAdmission,
}
use session_chat.Admission.Verify.{verify_and_reserve, remove_reservation, release}
use session_chat.Admission.Approval.{
  Admission, give_up, reserve_v2_for_approval, release_pending, decide_v2,
}
use session_chat.Admission.Addition.{
  Mls, Session, PreparedApprovedCapabilityAddition, release_both, prepare_approved_add,
  drop_prepared, drop_taken, consume, apply, apply_awaiting_durability, finalize_committed,
  release_proven_uncommitted,
}
use session_chat.Admission.Calls.{
  Call, verifies, releases, reserves, decides, prepares, drops, applies, applies_durably, finalizes,
  recovers, step, run,
}

-- The reservation that the call may remove is one of these.
abbrev pub Removes :
    {Prepared Committed : Type 0} → (ReplayReservation → Type 0) → Call Prepared Committed → Type 0
Removes R (verifies opened) = Unit {0}
Removes R (releases v) = R v.reservation
Removes R (reserves i v) = R v.reservation
Removes R (decides p decision) = R p.verified.reservation
Removes R (prepares p) = R p.verified.reservation
Removes R (drops p) = R p.replay_reservation
Removes R (applies p) = R p.replay_reservation
Removes R (applies_durably p) = R p.replay_reservation
Removes R (finalizes j) = Unit {0}
Removes R (recovers j) = R j.replay_reservation

module _ (validate : Bytes → ℕ → Option ValidatedKeyPackage) {Group Prepared Committed : Type 0}
    (mls : Mls Group Prepared Committed) (Q : CapabilityAdmissionVerifier → Type 0)
    (R : ReplayReservation → Type 0) (T : ℕ → Type 0)
    (removal_keeps : (v : CapabilityAdmissionVerifier) (r : ReplayReservation)
      → R r
      → Q v
      → Q (remove_reservation v r).0)
    (verification_keeps : (v : CapabilityAdmissionVerifier) (opened : OpenedCapabilityJoinRequest)
        (now : ℕ)
      → T now
      → Q v
      → Q (verify_and_reserve validate v opened now).0) where
  reserve_keeps :
      (a : Admission) (i : _) (v : VerifiedCapabilityAdmission) (now : ℕ)
      → R v.reservation
      → Q a.verifier
      → Q (reserve_v2_for_approval a i v now).0.verifier
  unfolding reserve_v2_for_approval give_up
  reserve_keeps a i v now allowed h =
      ground (arith, removal_keeps a.verifier v.reservation allowed h)

  prepare_keeps :
      (x : Session Group) (p : ApprovedCapabilityAdmission) (now : ℕ)
      → R p.verified.reservation
      → Q x.admission.verifier
      → Q (prepare_approved_add mls x p now).0.admission.verifier
  unfolding prepare_approved_add release_both
  prepare_keeps x p now allowed h =
      ground (arith, removal_keeps x.admission.verifier p.verified.reservation allowed h)

  apply_keeps :
      (x : Session Group) (p : PreparedApprovedCapabilityAddition Prepared) (now : ℕ)
      → R p.replay_reservation
      → Q x.admission.verifier
      → Q (apply mls x p now).0.admission.verifier
        × Q (apply_awaiting_durability mls x p now).0.admission.verifier
  unfolding apply apply_awaiting_durability consume drop_prepared drop_taken release_both
  apply_keeps x p now allowed h =
      ground (arith, removal_keeps x.admission.verifier p.replay_reservation allowed h)

  step_keeps :
      (x : Session Group) (now : ℕ) (call : Call Prepared Committed)
      → T now
      → Removes R call
      → Q x.admission.verifier
      → Q (step validate mls x (now, call)).admission.verifier
  unfolding step release decide_v2 release_pending drop_prepared release_both finalize_committed
      release_proven_uncommitted
  step_keeps x now (verifies opened) time allowed h =
      verification_keeps x.admission.verifier opened now time h
  step_keeps x now (releases v) time allowed h = removal_keeps _ _ allowed h
  step_keeps x now (reserves i v) time allowed h = reserve_keeps x.admission i v now allowed h
  step_keeps x now (decides p approve) time allowed h =
      ground (arith, removal_keeps x.admission.verifier p.verified.reservation allowed h)
  step_keeps x now (decides p reject) time allowed h =
      ground (arith, removal_keeps x.admission.verifier p.verified.reservation allowed h)
  step_keeps x now (prepares p) time allowed h = prepare_keeps x p now allowed h
  step_keeps x now (drops p) time allowed h = removal_keeps _ _ allowed h
  step_keeps x now (applies p) time allowed h = (apply_keeps x p now allowed h).0
  step_keeps x now (applies_durably p) time allowed h = (apply_keeps x p now allowed h).1
  step_keeps x now (finalizes j) time allowed h = ground arith
  step_keeps x now (recovers j) time allowed h = removal_keeps _ _ allowed h

  pub run_keeps :
      (x : Session Group) (calls : List (ℕ × Call Prepared Committed))
      → All (λ call. T call.0 × Removes R call.1) calls
      → Q x.admission.verifier
      → Q (run validate mls x calls).admission.verifier
  unfolding run
  run_keeps x [] allowed h = h
  run_keeps x ((now, call) ∷ calls) allowed h =
      run_keeps (step validate mls x (now, call)) calls allowed.1
        (step_keeps x now call allowed.0.0 allowed.0.1 h)
