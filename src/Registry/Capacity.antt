-- ===== src/Registry/Capacity.antt =====
-- The registry never holds more records than its policy allows.
use session_chat.Prelude.{ℕ, ◌≤◌, ◌≡◌, List, [], ◌∷◌, arith, length}
use session_chat.Prelude.Bytes.{Bytes}
use session_chat.Prelude.Map.{retain}
use session_chat.Prelude.Map.Laws.{length-insert-le, length-retain, length-replace}
use session_chat.Protocol.Cbor.{Cbor}
use session_chat.Protocol.Signature.{Ed25519}
use session_chat.Registry.Types.{
  InvitationPolicy, InvitationRegistry, InvitationRecord, InvitationSchema, InvitationReservation,
  StoredInvitationLifecycle,
}
use session_chat.Registry.Issue.{new, is_live, insert_record, record_issued, issue, issue_v2}
use session_chat.Registry.Reserve.{
  reserve, reserve_after_admission, reserve_v2_after_admission, settle, release,
  consume_after_membership,
}
use session_chat.Registry.Calls.{
  Call, issues, issues_v2, reserves, reserves_v2, releases, consumes, step, run,
}

-- No more records than the policy allows, and the policy is the one given.
pub record IsBounded (policy : InvitationPolicy) (g : InvitationRegistry) : Type 0 where
  pub same_policy : g.policy ≡ policy
  pub within : length g.records ≤ policy.maximum_live

module _ (policy : InvitationPolicy) where
  insert_record-IsBounded :
      (g : InvitationRegistry) (id : Bytes) (fresh : InvitationRecord) (now : ℕ)
      → IsBounded policy g
      → IsBounded policy (insert_record g id fresh now).0
  unfolding insert_record
  insert_record-IsBounded g id fresh now h = ground (
    arith,
    length-insert-le id fresh (retain (is_live now) g.records),
    length-retain (is_live now) g.records,
  )

  reserve-IsBounded :
      (g : InvitationRegistry) (schema : InvitationSchema) (is_issued : InvitationRecord → _)
      (id request : Bytes) (issued_at expires_at now : ℕ)
      → IsBounded policy g
      → IsBounded policy (reserve g schema is_issued id request issued_at expires_at now).0
  unfolding reserve
  reserve-IsBounded g schema is_issued id request issued_at expires_at now h =
      grind (arith, length-replace)

  settle-IsBounded :
      (lifecycle : StoredInvitationLifecycle) (g : InvitationRegistry) (v : InvitationReservation)
      (now : ℕ)
      → IsBounded policy g
      → IsBounded policy (settle lifecycle g v now).0
  unfolding settle
  settle-IsBounded lifecycle g v now h = grind (arith, length-replace)

module _ (c : Cbor) (s : Ed25519) (policy : InvitationPolicy) where
  pub step-IsBounded :
      (g : InvitationRegistry) (call : ℕ × Call)
      → IsBounded policy g
      → IsBounded policy (step c s g call)
  unfolding step issue record_issued issue_v2 reserve_after_admission reserve_v2_after_admission
      release consume_after_membership
  step-IsBounded g (now, issues claims key) h = grind (arith, insert_record-IsBounded)
  step-IsBounded g (now, issues_v2 i) h = grind (arith, insert_record-IsBounded)
  step-IsBounded g (now, reserves i request) h = reserve-IsBounded policy g _ _ _ _ _ _ _ h
  step-IsBounded g (now, reserves_v2 i request) h = reserve-IsBounded policy g _ _ _ _ _ _ _ h
  step-IsBounded g (now, releases v) h = settle-IsBounded policy _ g v now h
  step-IsBounded g (now, consumes v) h = settle-IsBounded policy _ g v now h

  run-IsBounded :
      (g : InvitationRegistry) (calls : List (ℕ × Call))
      → IsBounded policy g
      → IsBounded policy (run c s g calls)
  unfolding run
  run-IsBounded g [] h = h
  run-IsBounded g (call ∷ calls) h = run-IsBounded (step c s g call) calls (step-IsBounded g call h)

  -- A registry that starts empty holds at most `maximum_live` records after any calls at any times.
  pub run-new-IsBounded : (calls : List (ℕ × Call)) → IsBounded policy (run c s (new policy) calls)
  unfolding new
  run-new-IsBounded calls = run-IsBounded (new policy) calls (ground arith)
