-- ===== src/Registry/Reservations.antt =====
-- What a reservation is good for: its check, its release, and its claim on the invitation.
use session_chat.Prelude.{ℕ, ◌<◌, ◌≡◌, ◌≢◌, Bool, List, [], ◌∷◌, some, arith, All}
use session_chat.Prelude.Outcome.{ok}
use session_chat.Prelude.Bytes.{Bytes}
use session_chat.Prelude.Map.{lookup, retain}
use session_chat.Prelude.Map.Laws.{
  lookup-insert, lookup-retain_keep, lookup-replace, replace-replace,
}
use session_chat.Protocol.Invitation.{SignedCapabilityInvitation}
use session_chat.Registry.Types.{
  InvitationRegistry, InvitationRecord, InvitationSchema, InvitationReservation,
  StoredInvitationLifecycle, reserved, consumed,
}
use session_chat.Registry.Issue.{matches, is_live, insert_record, record_issued, issue, issue_v2}
use session_chat.Registry.Calls.{
  Call, issues, issues_v2, reserves, reserves_v2, releases, consumes, step, run,
}
use session_chat.Protocol.Cbor.{Cbor}
use session_chat.Protocol.Signature.{Ed25519}
use session_chat.Registry.Reserve.{
  reserve, reserve_checks, reserve_after_admission, reserve_v2_after_admission, settle,
  settle_checks, current_record, release, consume_after_membership, validate_reservation,
}

-- The read-only check gives the very answer, error or not, that a release and a consumption give.
pub validate_reservation_exact :
    (g : InvitationRegistry) (v : InvitationReservation) (now : ℕ)
    → (validate_reservation g v now ≡ (release g v now).1)
      × (validate_reservation g v now ≡ (consume_after_membership g v now).1)
unfolding validate_reservation release consume_after_membership settle settle_checks current_record
validate_reservation_exact g v now = ground arith

-- A reservation of an invitation of version 1 that is released before the invitation expires leaves
-- the registry as it was.
pub release-reserve :
    (g : InvitationRegistry) (i : SignedCapabilityInvitation) (request : Bytes) (now later : ℕ)
    (v : InvitationReservation)
    → (reserve_after_admission g i request now).1 ≡ ok v
    → later < i.claims.expires_at
    → release (reserve_after_admission g i request now).0 v later ≡ (g, ok tt)
unfolding reserve_after_admission reserve reserve_checks matches release settle settle_checks
    current_record
release-reserve g i request now later v granted live =
    grind (arith, lookup-replace, replace-replace)

-- The reservation that a record of this lifecycle belongs to.
abbrev pub owner : Bytes → Bytes → InvitationRecord → InvitationReservation
owner id request r = record {
  invitation_id = id;
  join_request_id = request;
  record_signature = r.signature;
  schema = r.schema;
}

-- The call does not settle this reservation.
abbrev pub Spares : InvitationReservation → Call → Type 0
Spares v (issues claims key) = Unit {0}
Spares v (issues_v2 i) = Unit {0}
Spares v (reserves i request) = Unit {0}
Spares v (reserves_v2 i request) = Unit {0}
Spares v (releases v') = v' ≢ v
Spares v (consumes v') = v' ≢ v

module _ (g : InvitationRegistry) (id request : Bytes) (r : InvitationRecord)
    (held : lookup id g.records ≡ some r) (taken : r.lifecycle ≡ reserved request) where
  reserve_spares :
      (schema : InvitationSchema) (is_issued : InvitationRecord → Bool) (k other : Bytes)
      (issued_at expires_at now : ℕ)
      → lookup id (reserve g schema is_issued k other issued_at expires_at now).0.records ≡ some r
  unfolding reserve reserve_checks
  reserve_spares schema is_issued k other issued_at expires_at now = grind (arith, lookup-replace)

  settle_spares :
      (l : StoredInvitationLifecycle) (v : InvitationReservation) (now : ℕ)
      → v ≢ owner id request r
      → lookup id (settle l g v now).0.records ≡ some r
  unfolding settle settle_checks current_record
  settle_spares l v now other = grind (arith, lookup-replace)

  issue_spares :
      (k : Bytes) (fresh : InvitationRecord) (now : ℕ)
      → now < r.expires_at
      → lookup id (insert_record g k fresh now).0.records ≡ some r
  unfolding insert_record
  issue_spares k fresh now live = ground (
    arith,
    lookup-insert id k fresh (retain (is_live now) g.records),
    lookup-retain_keep (is_live now) id g.records r,
  )

module _ (c : Cbor) (s : Ed25519) (id request : Bytes) (r : InvitationRecord)
    (taken : r.lifecycle ≡ reserved request) where
  step_keeps :
      (g : InvitationRegistry) (now : ℕ) (call : Call)
      → lookup id g.records ≡ some r
      → now < r.expires_at
      → Spares (owner id request r) call
      → lookup id (step c s g (now, call)).records ≡ some r
  unfolding step issue record_issued issue_v2 reserve_after_admission reserve_v2_after_admission
      release consume_after_membership
  step_keeps g now (issues claims key) held live spares =
      grind (arith, issue_spares g id request r held taken)
  step_keeps g now (issues_v2 i) held live spares =
      grind (arith, issue_spares g id request r held taken)
  step_keeps g now (reserves i other) held live spares =
      reserve_spares g id request r held taken _ _ _ _ _ _ _
  step_keeps g now (reserves_v2 i other) held live spares =
      reserve_spares g id request r held taken _ _ _ _ _ _ _
  step_keeps g now (releases v) held live spares =
      settle_spares g id request r held taken _ v now spares
  step_keeps g now (consumes v) held live spares =
      settle_spares g id request r held taken _ v now spares

  run_keeps :
      (g : InvitationRegistry) (calls : List (ℕ × Call))
      → lookup id g.records ≡ some r
      → All (λ call. (call.0 < r.expires_at) × Spares (owner id request r) call.1) calls
      → lookup id (run c s g calls).records ≡ some r
  unfolding run
  run_keeps g [] held quiet = held
  run_keeps g ((now, call) ∷ calls) held quiet =
      run_keeps (step c s g (now, call)) calls (step_keeps g now call held quiet.0.0 quiet.0.1)
        quiet.1

  consume_owned :
      (g : InvitationRegistry) (now : ℕ)
      → lookup id g.records ≡ some r
      → now < r.expires_at
      → ((consume_after_membership g (owner id request r) now).1 ≡ ok tt)
        × (lookup id (consume_after_membership g (owner id request r) now).0.records
            ≡ some (record r { lifecycle = consumed }))
  unfolding consume_after_membership settle settle_checks current_record
  consume_owned g now held live = grind (arith, lookup-replace)

  -- A reservation survives any calls before the expiry that do not settle it: it then still consumes
  -- its invitation.
  pub consume-run :
      (g : InvitationRegistry) (calls : List (ℕ × Call)) (now : ℕ)
      → lookup id g.records ≡ some r
      → All (λ call. (call.0 < r.expires_at) × Spares (owner id request r) call.1) calls
      → now < r.expires_at
      → let g' = run c s g calls in
        ((consume_after_membership g' (owner id request r) now).1 ≡ ok tt)
        × (lookup id (consume_after_membership g' (owner id request r) now).0.records
            ≡ some (record r { lifecycle = consumed }))
  consume-run g calls now held quiet live =
      consume_owned (run c s g calls) now (run_keeps g calls held quiet) live
