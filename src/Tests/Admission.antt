-- ===== src/Tests/Admission.antt =====
-- Admission at a concrete request.
use session_chat.Prelude.{
  ℕ, suc, ◌≡◌, ◌<◌, ◌≤◌, none, ◌⊎◌, inr, refl, arith, List, ◌∷◌, [], true, false, some, Option, any,
  all, filter, count, position, checked_add, is_none,
}
use session_chat.Prelude.Outcome.{ok, err, is_ok}
use session_chat.Prelude.Bytes.{Bytes, Bytes-discrete, all_zero}
use session_chat.Prelude.Map.{lookup, replace}
use session_chat.Registry.Types.{
  InvitationRegistry, InvitationRecord, InvitationReservation, v2, reserved,
}
use session_chat.Registry.Issue.{fresh_record, matches_v2, validate_time_values}
use session_chat.Registry.Reserve
use session_chat.Registry.Reserve.{
  reserve, reserve_checks, reserve_v2_after_admission, validate_reservation,
  consume_after_membership,
}
use session_chat.Protection.Requests.{OpenedCapabilityJoinRequest}
use session_chat.Admission.Contract.{reject, approve, context_new, secret_capability}
use session_chat.Admission.Types.{
  CapabilityAdmissionPolicy, CapabilityAdmissionVerifier, ValidatedKeyPackage,
  VerifiedCapabilityAdmission, PendingCapabilityApproval, new, rejected, was_rejected,
}
use session_chat.Admission.Verify.{
  verify_checks, verify_and_reserve, reservation_position, remove_reservation, entry_of,
  reservation_of, is_live,
}
use session_chat.Admission.Approval.{
  Admission, give_up, reserve_v2_for_approval, decide_v2, is_stale,
}
use session_chat.Admission.Addition.{
  Mls, Session, PreparedApprovedCapabilityAddition, AppliedCapabilityJoinAwaitingDurability,
  release_both, apply, apply_awaiting_durability, finalize_committed, release_proven_uncommitted,
}
use session_chat.Admission.Calls.{Call, verifies, step, run}
use session_chat.Admission.Replay.Sound.{IsSound, run-new-IsSound}
use session_chat.Admission.Replay.Once.{refused_while_pending}
use session_chat.Admission.Settled.{apply_exact, approve_exact, settle-apply}
use session_chat.Admission.Rejected.{reject-verify}
use session_chat.Tests.Instances.{repeat}
use session_chat.Tests.Protection.{invitation, request, opened}

abbrev policy : CapabilityAdmissionPolicy
policy = record {
  maximum_request_lifetime = 600;
  maximum_future_skew = 30;
  maximum_pending_requests = 2;
}

abbrev valid_package : Bytes → ValidatedKeyPackage
valid_package bytes = record {
  key_package = bytes;
  reference = repeat 32 11;
  credential_identity = repeat 32 14;
  leaf_signature_key = repeat 32 7;
}

abbrev validate : Bytes → ℕ → Option ValidatedKeyPackage
validate bytes now = some (valid_package bytes)

-- A group that counts the additions applied to it.
abbrev mls : Mls ℕ ℕ ℕ
mls = record {
  prepare_add = λ group validated now. (group, some group);
  apply = λ group prepared. (suc group, some prepared);
  clear = λ group prepared. group;
}

abbrev issued : InvitationRecord
issued = fresh_record v2 500 (repeat 32 7) (repeat 64 9)

abbrev registry : InvitationRecord → InvitationRegistry
registry r = record {
  policy = record { maximum_lifetime = 600; maximum_future_skew = 30; maximum_live = 2 };
  records = (repeat 16 4, r) ∷ [];
}

abbrev empty : CapabilityAdmissionVerifier
empty = record { policy = policy; pending = []; next_reservation_id = 1 }

abbrev holding : CapabilityAdmissionVerifier
holding = record { policy = policy; pending = entry_of request 1 ∷ []; next_reservation_id = 2 }

abbrev admitted : VerifiedCapabilityAdmission
admitted = record {
  opened = opened;
  validated = valid_package (12 ∷ 13 ∷ []);
  reservation = reservation_of request 1;
}

abbrev start : Session ℕ
start = record { admission = record { verifier = empty; registry = registry issued }; group = 0 }

verifies_opened : (verify_and_reserve validate empty opened 30).1 ≡ ok admitted
unfolding verify_and_reserve verify_checks any count filter checked_add Bytes-discrete
verifies_opened = refl

-- The same nonce under another request identifier.
abbrev again : OpenedCapabilityJoinRequest
again = record opened {
  request = record request { request = record request.request { join_request_id = repeat 16 3 } };
}

abbrev calls : List (ℕ × Call ℕ ℕ)
calls = (40, verifies again) ∷ []

refused_while_pending_example :
    let v =
      (run validate mls (step validate mls start (30, verifies opened)) calls).admission.verifier in
    ((verify_and_reserve validate v again 50).0 ≡ v)
    × (is_ok (verify_and_reserve validate v again 50).1 ≡ false)
refused_while_pending_example =
    refused_while_pending validate mls start opened again 30 50 admitted calls verifies_opened
      ((omega arith, tt), tt) (omega arith) refl (inr refl)

starts_new : empty ≡ new policy
unfolding new
starts_new = refl

run-new-IsSound_example :
    IsSound policy (run validate mls start ((30, verifies opened) ∷ calls)).admission.verifier
run-new-IsSound_example =
    run-new-IsSound validate mls start policy ((30, verifies opened) ∷ calls) starts_new

empty-IsSound : IsSound policy empty
empty-IsSound = ground arith

abbrev reservation : InvitationReservation
reservation = record {
  invitation_id = repeat 16 4;
  join_request_id = repeat 16 2;
  record_signature = repeat 64 9;
  schema = v2;
}

abbrev pending : PendingCapabilityApproval
pending = record {
  verified = admitted;
  invitation_reservation = reservation;
  approval_context = record {
    method = secret_capability;
    invitation_id = repeat 16 4;
    join_request_id = repeat 16 2;
    key_package_reference = repeat 32 11;
    expires_at = 400;
  };
}

abbrev verified : Admission
verified = record {
  verifier = (verify_and_reserve validate empty opened 30).0;
  registry = registry issued;
}

reserves_admitted : (reserve_v2_for_approval verified invitation admitted 40).1 ≡ ok pending
unfolding verify_and_reserve verify_checks any count filter checked_add Bytes-discrete
    reserve_v2_for_approval reservation_position position context_new reserve_v2_after_admission
    reserve reserve_checks validate_time_values matches_v2 lookup replace all_zero all give_up
reserves_admitted = refl

reject-verify_example :
    let result =
      decide_v2 (reserve_v2_for_approval verified invitation admitted 40).0 pending reject 50 in
    (result.1 ≡ ok was_rejected)
    × (result.0.registry ≡ registry issued)
    × (result.0.verifier.pending ≡ filter (is_live 30) [])
reject-verify_example =
    reject-verify validate policy (record { verifier = empty; registry = registry issued })
      invitation opened 30 40 50 admitted pending empty-IsSound verifies_opened reserves_admitted
      (omega arith)

abbrev both_held : Admission
both_held = record {
  verifier = holding;
  registry = registry (record issued { lifecycle = reserved (repeat 16 2) });
}

approve_exact_example :
    let result = decide_v2 both_held pending approve 60 in
    ((is_ok result.1 ≡ true)
      × (result.0 ≡ both_held)
      × (is_none (reservation_position holding admitted.reservation) ≡ false)
      × (60 < 400)
      × (60 < 300)
      × (validate_reservation both_held.registry reservation 60 ≡ ok tt))
    ⊎ ((is_ok result.1 ≡ false)
        × (result.0 ≡ release_both both_held reservation admitted.reservation 60)
        × ((is_none (reservation_position holding admitted.reservation) ≡ true)
            ⊎ (is_stale both_held request reservation 60 ≡ true)))
approve_exact_example = approve_exact both_held pending 60

abbrev prepared : PreparedApprovedCapabilityAddition ℕ
prepared = record {
  inner = 5;
  replay_reservation = admitted.reservation;
  invitation_reservation = reservation;
  now = 60;
  request_expires_at = 400;
  response_endpoint = request.response_endpoint;
}

abbrev session : Session ℕ
session = record { admission = both_held; group = 0 }

apply_exact_example :
    let result = apply mls session prepared 70 in
    let registry = both_held.registry in
    ((result.1 ≡ err rejected)
      × ((400 ≤ 70)
          ⊎ (request.response_endpoint.expires_at ≤ 70)
          ⊎ (is_ok (validate_reservation registry reservation 70) ≡ false))
      × (result.0.group ≡ mls.clear 0 5)
      × (result.0.admission.registry ≡ (Reserve.release registry reservation 70).0)
      × ((Reserve.release registry reservation 70).1 ≡ validate_reservation registry reservation 70)
      × (result.0.admission.verifier ≡ (remove_reservation holding admitted.reservation).0))
    ⊎ ((result.1 ≡ err rejected)
        × (70 < 400)
        × (70 < request.response_endpoint.expires_at)
        × ((mls.apply 0 5).1 ≡ none)
        × (result.0.group ≡ (mls.apply 0 5).0)
        × (result.0.admission.registry ≡ (Reserve.release registry reservation 70).0)
        × ((Reserve.release registry reservation 70).1 ≡ ok tt)
        × (result.0.admission.verifier ≡ (remove_reservation holding admitted.reservation).0))
    ⊎ ((committed : ℕ) × (result.1
          ≡ ok (record { committed = committed; response_endpoint = request.response_endpoint }))
        × (70 < 400)
        × (70 < request.response_endpoint.expires_at)
        × (mls.apply 0 5 ≡ (result.0.group, some committed))
        × (result.0.admission.registry ≡ (consume_after_membership registry reservation 70).0)
        × ((consume_after_membership registry reservation 70).1 ≡ ok tt)
        × (result.0.admission.verifier ≡ holding))
apply_exact_example = apply_exact mls session prepared 70

abbrev applied : AppliedCapabilityJoinAwaitingDurability ℕ
applied = record {
  committed = 5;
  response_endpoint = request.response_endpoint;
  replay_reservation = admitted.reservation;
  invitation_reservation = reservation;
  applied_at = 70;
}

applies_prepared : (apply_awaiting_durability mls session prepared 70).1 ≡ ok applied
unfolding apply_awaiting_durability validate_reservation lookup Bytes-discrete
applies_prepared = refl

held : is_none (reservation_position holding admitted.reservation) ≡ false
unfolding reservation_position position Bytes-discrete
held = refl

settle-apply_example :
    let a = (apply_awaiting_durability mls session prepared 70).0.admission in
    (a ≡ both_held)
    × (finalize_committed a applied
        ≡ (record a { registry = (consume_after_membership a.registry reservation 70).0 }, ok tt))
    × (release_proven_uncommitted a applied
        ≡ (release_both a reservation admitted.reservation 70, ok tt))
settle-apply_example = settle-apply mls session prepared 70 applied applies_prepared held
