-- ===== src/Registry/Transitions.antt =====
-- What can become of a record that has not expired.
use session_chat.Prelude.{ℕ, ◌<◌, ◌≡◌, refl, List, [], ◌∷◌, Bool, Option, none, some, arith, All}
use session_chat.Prelude.Bytes.{Bytes}
use session_chat.Prelude.Map.{lookup, retain}
use session_chat.Prelude.Map.Laws.{lookup-insert, lookup-replace, lookup-retain_keep}
use session_chat.Protocol.Cbor.{Cbor}
use session_chat.Protocol.Signature.{Ed25519}
use session_chat.Registry.Types.{
  InvitationRegistry, InvitationRecord, InvitationSchema, InvitationReservation,
  StoredInvitationLifecycle, available, reserved, consumed,
}
use session_chat.Registry.Issue.{is_live, insert_record, record_issued, issue, issue_v2}
use session_chat.Registry.Reserve.{
  reserve, reserve_checks, reserve_after_admission, reserve_v2_after_admission, settle,
  settle_checks, current_record, release, consume_after_membership,
}
use session_chat.Registry.Calls.{
  Call, issues, issues_v2, reserves, reserves_v2, releases, consumes, step, run,
}

-- The diagram of the lifecycle: a reservation is made, given back or used up, and stays its owner's.
abbrev pub CanBecome : StoredInvitationLifecycle → StoredInvitationLifecycle → Type 0
CanBecome available available = Unit {0}
CanBecome available (reserved id) = Unit {0}
CanBecome available consumed = ⊥
CanBecome (reserved id) available = Unit {0}
CanBecome (reserved id) (reserved id') = id ≡ id'
CanBecome (reserved id) consumed = Unit {0}
CanBecome consumed available = ⊥
CanBecome consumed (reserved id) = ⊥
CanBecome consumed consumed = Unit {0}

-- The record is there still, with its lifecycle moved along the diagram and no other field changed.
abbrev pub Moved : InvitationRecord → Option InvitationRecord → Type 0
Moved r none = ⊥
Moved r (some r') =
    (r'.schema ≡ r.schema)
    × (r'.expires_at ≡ r.expires_at)
    × (r'.inviter_verifying_key ≡ r.inviter_verifying_key)
    × (r'.signature ≡ r.signature)
    × CanBecome r.lifecycle r'.lifecycle

Moved-refl : (r : InvitationRecord) → Moved r (some r)
Moved-refl r = (refl, refl, refl, refl, stays r.lifecycle)
  where
    stays : (l : StoredInvitationLifecycle) → CanBecome l l
    stays available = tt
    stays (reserved id) = refl
    stays consumed = tt

module _ (g : InvitationRegistry) (id : Bytes) (r : InvitationRecord)
    (held : lookup id g.records ≡ some r) where
  insert_record-Moved :
      (k : Bytes) (fresh : InvitationRecord) (now : ℕ)
      → now < r.expires_at
      → Moved r (lookup id (insert_record g k fresh now).0.records)
  unfolding insert_record
  insert_record-Moved k fresh now live = ground (
    arith,
    Moved-refl r,
    lookup-insert id k fresh (retain (is_live now) g.records),
    lookup-retain_keep (is_live now) id g.records r,
  )

  reserve-Moved :
      (schema : InvitationSchema) (is_issued : InvitationRecord → Bool) (k request : Bytes)
      (issued_at expires_at now : ℕ)
      → Moved r
          (lookup id (reserve g schema is_issued k request issued_at expires_at now).0.records)
  unfolding reserve reserve_checks
  reserve-Moved schema is_issued k request issued_at expires_at now =
      grind (arith, Moved-refl r, lookup-replace)

  settle-Moved :
      (l : StoredInvitationLifecycle) (v : InvitationReservation) (now : ℕ)
      → ((request : Bytes) → CanBecome (reserved request) l)
      → Moved r (lookup id (settle l g v now).0.records)
  unfolding settle settle_checks current_record
  settle-Moved l v now allowed = grind (arith, Moved-refl r, lookup-replace, allowed)

consumed_kept :
    (r : InvitationRecord) (o : Option InvitationRecord)
    → r.lifecycle ≡ consumed
    → Moved r o
    → o ≡ some r
consumed_kept r none e m = absurd m
consumed_kept r (some r') e m = ground arith

module _ (c : Cbor) (s : Ed25519) where
  -- Whatever is called, a record that has not expired stays, its lifecycle moves along the diagram,
  -- and no other field of it changes.
  pub step-Moved :
      (g : InvitationRegistry) (id : Bytes) (r : InvitationRecord) (now : ℕ) (call : Call)
      → lookup id g.records ≡ some r
      → now < r.expires_at
      → Moved r (lookup id (step c s g (now, call)).records)
  unfolding step issue record_issued issue_v2 reserve_after_admission reserve_v2_after_admission
      release consume_after_membership
  step-Moved g id r now (issues claims key) held live =
      grind (arith, Moved-refl r, insert_record-Moved g id r held)
  step-Moved g id r now (issues_v2 i) held live =
      grind (arith, Moved-refl r, insert_record-Moved g id r held)
  step-Moved g id r now (reserves i request) held live = reserve-Moved g id r held _ _ _ _ _ _ _
  step-Moved g id r now (reserves_v2 i request) held live = reserve-Moved g id r held _ _ _ _ _ _ _
  step-Moved g id r now (releases v) held live = settle-Moved g id r held _ v now (λ _. tt)
  step-Moved g id r now (consumes v) held live = settle-Moved g id r held _ v now (λ _. tt)

  -- A consumed invitation stays consumed through any calls before it expires.
  pub run-consumed :
      (g : InvitationRegistry) (id : Bytes) (r : InvitationRecord) (calls : List (ℕ × Call))
      → lookup id g.records ≡ some r
      → r.lifecycle ≡ consumed
      → All (λ call. call.0 < r.expires_at) calls
      → lookup id (run c s g calls).records ≡ some r
  unfolding run
  run-consumed g id r [] held used before = held
  run-consumed g id r ((now, call) ∷ calls) held used before =
      run-consumed (step c s g (now, call)) id r calls
        (consumed_kept r _ used (step-Moved g id r now call held before.0)) used before.1
