-- ===== src/Admission/Calls.antt =====
-- The methods that change the verifier, the registry or the group, as one step function, and runs.
-- An argument of a call is any value, also one that no earlier call has returned.
use session_chat.Prelude.{ℕ, List, [], ◌∷◌, Option}
use session_chat.Prelude.Bytes.{Bytes}
use session_chat.Protocol.InvitationV2.{SignedCapabilityInvitationV2}
use session_chat.Protection.Requests.{OpenedCapabilityJoinRequest}
use session_chat.Admission.Contract.{ApprovalDecision}
use session_chat.Admission.Types.{
  ValidatedKeyPackage, VerifiedCapabilityAdmission, PendingCapabilityApproval,
  ApprovedCapabilityAdmission, CapabilityAdmissionVerifier,
}
use session_chat.Admission.Verify.{verify_and_reserve, release}
use session_chat.Admission.Approval.{reserve_v2_for_approval, decide_v2}
use session_chat.Admission.Addition.{
  Mls, Session, PreparedApprovedCapabilityAddition, AppliedCapabilityJoinAwaitingDurability,
  prepare_approved_add, drop_prepared, apply, apply_awaiting_durability, finalize_committed,
  release_proven_uncommitted,
}

pub data Call (Prepared Committed : Type 0) : Type 0 where
  verifies : OpenedCapabilityJoinRequest → Call Prepared Committed
  releases : VerifiedCapabilityAdmission → Call Prepared Committed
  reserves : SignedCapabilityInvitationV2 → VerifiedCapabilityAdmission → Call Prepared Committed
  decides : PendingCapabilityApproval → ApprovalDecision → Call Prepared Committed
  prepares : ApprovedCapabilityAdmission → Call Prepared Committed
  drops : PreparedApprovedCapabilityAddition Prepared → Call Prepared Committed
  applies : PreparedApprovedCapabilityAddition Prepared → Call Prepared Committed
  applies_durably : PreparedApprovedCapabilityAddition Prepared → Call Prepared Committed
  finalizes : AppliedCapabilityJoinAwaitingDurability Committed → Call Prepared Committed
  recovers : AppliedCapabilityJoinAwaitingDurability Committed → Call Prepared Committed

module _ (validate : Bytes → ℕ → Option ValidatedKeyPackage) {Group Prepared Committed : Type 0}
    (mls : Mls Group Prepared Committed) where
  abbrev pub with_verifier : Session Group → CapabilityAdmissionVerifier → Session Group
  with_verifier x v = record x { admission = record x.admission { verifier = v } }

  -- A call at its time, with the session that it leaves.
  unfoldable pub step : Session Group → ℕ × Call Prepared Committed → Session Group
  step x (now, verifies opened) =
      with_verifier x (verify_and_reserve validate x.admission.verifier opened now).0
  step x (now, releases v) = with_verifier x (release x.admission.verifier v).0
  step x (now, reserves i v) = record x {
    admission = (reserve_v2_for_approval x.admission i v now).0;
  }
  step x (now, decides p decision) = record x {
    admission = (decide_v2 x.admission p decision now).0;
  }
  step x (now, prepares p) = (prepare_approved_add mls x p now).0
  step x (now, drops p) = drop_prepared mls x p
  step x (now, applies p) = (apply mls x p now).0
  step x (now, applies_durably p) = (apply_awaiting_durability mls x p now).0
  step x (now, finalizes j) = record x { admission = (finalize_committed x.admission j).0 }
  step x (now, recovers j) = record x { admission = (release_proven_uncommitted x.admission j).0 }

  unfoldable pub run : Session Group → List (ℕ × Call Prepared Committed) → Session Group
  run x [] = x
  run x (call ∷ calls) = run (step x call) calls
