-- ===== src/Tests/Registry.antt =====
-- The registry at a concrete invitation.
use session_chat.Prelude.{ℕ, ◌≡◌, ◌<◌, refl, arith, ◌⊎◌, List, ◌∷◌, [], true, false, some, All, all}
use session_chat.Prelude.Outcome.{ok, is_ok}
use session_chat.Prelude.Bytes.{Bytes, all_zero, Bytes-discrete}
use session_chat.Prelude.Map.{lookup, replace, count_values}
use session_chat.Protocol.Claims.{CapabilityInvitationClaims}
use session_chat.Protocol.Invitation.{SignedCapabilityInvitation}
use session_chat.Protocol.InvitationV2.{SignedCapabilityInvitationV2}
use session_chat.Registry.Types.{
  InvitationPolicy, InvitationRegistry, InvitationRecord, v1, v2, reserved, consumed,
}
use session_chat.Registry.Issue.{
  new, issue_v2, fresh_record, validate_time_values, matches, is_live, holds_live,
}
use session_chat.Registry.Reserve.{
  reserve, reserve_checks, reserve_after_admission, release, consume_after_membership,
  validate_reservation,
}
use session_chat.Registry.Calls.{Call, issues, issues_v2, reserves, step, run}
use session_chat.Registry.Capacity.{IsBounded, run-new-IsBounded}
use session_chat.Registry.Transitions.{Moved, step-Moved, run-consumed}
use session_chat.Registry.Reservations.{owner, Spares, validate_reservation_exact, consume-run}
use session_chat.Registry.Time.{IsTimely, issue_v2_exact}
use session_chat.Tests.Instances.{repeat, plain_cbor, one_signature}

abbrev policy : InvitationPolicy
policy = record { maximum_lifetime = 600; maximum_future_skew = 30; maximum_live = 2 }

abbrev claims : CapabilityInvitationClaims
claims = record {
  invitation_id = repeat 16 4;
  issued_at = 10;
  expires_at = 500;
  join_challenge = repeat 32 6;
  capability = repeat 32 5;
}

abbrev invitation : SignedCapabilityInvitation
invitation = record {
  claims = claims;
  inviter_verifying_key = repeat 32 7;
  signature = repeat 64 9;
}

abbrev invitation_v2 : SignedCapabilityInvitationV2
invitation_v2 = record {
  claims = record {
    base = record claims { invitation_id = repeat 16 5 };
    invitation_key_id = repeat 16 8;
    hpke_recipient_public_key = repeat 32 3;
  };
  inviter_verifying_key = repeat 32 7;
  signature = repeat 64 9;
}

abbrev request : Bytes
request = repeat 16 2

-- A record of the invitation in each lifecycle, and the registry that holds one of them.
abbrev available_record : InvitationRecord
available_record = fresh_record v1 500 (repeat 32 7) (repeat 64 9)

abbrev reserved_record : InvitationRecord
reserved_record = record available_record { lifecycle = reserved request }

abbrev consumed_record : InvitationRecord
consumed_record = record available_record { lifecycle = consumed }

abbrev holding : InvitationRecord → InvitationRegistry
holding r = record { policy = policy; records = (repeat 16 4, r) ∷ [] }

held : (r : InvitationRecord) → lookup (repeat 16 4) (holding r).records ≡ some r
unfolding lookup Bytes-discrete
held r = refl

-- Calls of every kind, by another join request, before the invitation expires.
abbrev calls : List (ℕ × Call)
calls =
    (20, issues_v2 invitation_v2)
    ∷ (30, issues claims (repeat 32 1))
    ∷ (40, reserves invitation (repeat 16 3))
    ∷ []

run-new-IsBounded_example : IsBounded policy (run plain_cbor one_signature (new policy) calls)
run-new-IsBounded_example = run-new-IsBounded plain_cbor one_signature policy calls

step-Moved_example : Moved available_record (
    lookup
      (repeat 16 4)
      (step plain_cbor one_signature
        (holding available_record)
        (40, reserves invitation request)).records)
step-Moved_example =
    step-Moved plain_cbor one_signature (holding available_record) (repeat 16 4) available_record 40
      (reserves invitation request) (held available_record) (omega arith)

early : All (λ call. call.0 < 500) calls
early = (omega arith, (omega arith, (omega arith, tt)))

run-consumed_example :
    lookup (repeat 16 4) (run plain_cbor one_signature (holding consumed_record) calls).records
    ≡ some consumed_record
run-consumed_example =
    run-consumed plain_cbor one_signature (holding consumed_record) (repeat 16 4) consumed_record
      calls (held consumed_record) refl early

quiet :
    All (λ call. (call.0 < 500) × Spares (owner (repeat 16 4) request reserved_record) call.1) calls
quiet = ((omega arith, tt), ((omega arith, tt), ((omega arith, tt), tt)))

consume-run_example :
    let g = run plain_cbor one_signature (holding reserved_record) calls in
    let v = owner (repeat 16 4) request reserved_record in
    ((consume_after_membership g v 100).1 ≡ ok tt)
    × (lookup (repeat 16 4) (consume_after_membership g v 100).0.records ≡ some consumed_record)
consume-run_example =
    consume-run plain_cbor one_signature (repeat 16 4) request reserved_record refl
      (holding reserved_record) calls 100 (held reserved_record) quiet (omega arith)

validate_reservation_exact_example :
    let g = holding reserved_record in
    let v = owner (repeat 16 4) request reserved_record in
    (validate_reservation g v 100 ≡ (release g v 100).1)
    × (validate_reservation g v 100 ≡ (consume_after_membership g v 100).1)
validate_reservation_exact_example =
    validate_reservation_exact (holding reserved_record)
      (owner (repeat 16 4) request reserved_record) 100

reserved_now :
    (reserve_after_admission (holding available_record) invitation request 40).1
    ≡ ok (owner (repeat 16 4) request available_record)
unfolding reserve_after_admission reserve reserve_checks validate_time_values matches lookup replace
    Bytes-discrete all_zero all
reserved_now = refl

issue_v2_exact_example :
    let g = holding available_record in
    let after = issue_v2 g invitation_v2 20 in
    ((is_ok after.1 ≡ true)
      × IsTimely policy 10 500 20
      × (holds_live 20 (lookup (repeat 16 5) g.records) ≡ false)
      × (count_values (is_live 20) g.records < 2)
      × (lookup (repeat 16 5) after.0.records
          ≡ some (fresh_record v2 500 (repeat 32 7) (repeat 64 9))))
    ⊎ ((is_ok after.1 ≡ false)
        × (after.0 ≡ g)
        × ¬ (
            IsTimely policy 10 500 20
            × (holds_live 20 (lookup (repeat 16 5) g.records) ≡ false)
            × (count_values (is_live 20) g.records < 2)))
issue_v2_exact_example = issue_v2_exact (holding available_record) invitation_v2 20
