-- ===== src/Receive/Revisions.antt =====
-- The compare-and-swap of checkpoints: revisions only grow, and none is committed from twice.
use session_chat.Prelude.{
  ℕ, ◌≤◌, ◌<◌, ◌≡◌, List, [], ◌∷◌, true, false, Option, none, some, arith, All, inl, inr,
  Option-cases, checked_add,
}
use session_chat.Prelude.Outcome.{ok, is_ok, Result-cases}
use session_chat.Receive.Checkpoint.{
  ReceivePageCommitV1, ReceiveCheckpointV1, ResynchronizationRequestV1, successor,
}
use session_chat.Receive.State.{
  ReceiveOwner, PersistedCheckpoint, CommittedReceivePageV1, restart, record_resynchronization,
  checkpoint_matches,
}
use session_chat.Receive.Commit.{commit_checks, commit_receive_page}
use session_chat.Receive.Leasing.{
  lease_acknowledgement, recover_acknowledgement, accept_acknowledgement, release_acknowledgement,
}
use session_chat.Receive.Backed.{commit_checks-IsChecked}
use session_chat.Receive.Calls.{
  Call, restarts, resynchronizes, commits, leases, recovers, accepts, releases, step, run,
  IsRequest, IsMade,
}

-- The persisted revision is beyond this one.
abbrev pub Past : ℕ → Option PersistedCheckpoint → Type 0
Past n none = ⊥
Past n (some kept) = n < kept.revision

matches_revision :
    (o : ReceiveOwner) (k : ReceiveCheckpointV1) (kept : PersistedCheckpoint)
    → o.checkpoint ≡ some kept
    → checkpoint_matches o k ≡ true
    → kept.revision ≡ k.revision
unfolding checkpoint_matches
matches_revision o k kept q h = ground (arith, q, h)

commit-Past :
    (o : ReceiveOwner) (page : ReceivePageCommitV1) (now n : ℕ)
    → Past n o.checkpoint
    → Past n (commit_receive_page o page now).0.checkpoint
unfolding commit_receive_page
commit-Past o page now n h = elim (Option-cases o.checkpoint) [
  | inl p ↦ absurd (ground (arith, p, h))
  | inr (kept, p) ↦ elim (Result-cases (commit_checks o page now)) [
    | inl (e, q) ↦ ground (arith, q, h)
    | inr ((found, revision, nonce), q) ↦
        let k = commit_checks-IsChecked o page now found revision nonce q in
        ground (
          arith,
          p,
          q,
          h,
          k.expected,
          k.next_revision,
          matches_revision o page.expected_checkpoint kept p,
        )
  ]
]

resynchronization-Past :
    (o : ReceiveOwner) (request : ResynchronizationRequestV1) (now n : ℕ)
    → IsRequest request
    → Past n o.checkpoint
    → Past n (record_resynchronization o request now).0.checkpoint
unfolding record_resynchronization successor checked_add
resynchronization-Past o request now n made h = elim (Option-cases o.checkpoint) [
  | inl p ↦ absurd (ground (arith, p, h))
  | inr (kept, p) ↦
      ground (arith, p, h, made.next, matches_revision o request.expected_checkpoint kept p)
]

step-Past :
    (o : ReceiveOwner) (now n : ℕ) (call : Call)
    → IsMade call
    → Past n o.checkpoint
    → Past n (step o (now, call)).checkpoint
unfolding step restart lease_acknowledgement recover_acknowledgement accept_acknowledgement
    release_acknowledgement
step-Past o now n restarts made h = h
step-Past o now n (resynchronizes request) made h = resynchronization-Past o request now n made h
step-Past o now n (commits page) made h = commit-Past o page now n h
step-Past o now n (leases committed) made h = ground arith
step-Past o now n (recovers binding) made h = ground arith
step-Past o now n (accepts lease) made h = ground arith
step-Past o now n (releases lease) made h = ground arith

run-Past :
    (o : ReceiveOwner) (n : ℕ) (calls : List (ℕ × Call))
    → All (λ call. IsMade call.1) calls
    → Past n o.checkpoint
    → Past n (run o calls).checkpoint
unfolding run
run-Past o n [] made h = h
run-Past o n ((now, call) ∷ calls) made h =
    run-Past (step o (now, call)) n calls made.1 (step-Past o now n call made.0 h)

committed-Past :
    (o : ReceiveOwner) (page : ReceivePageCommitV1) (now : ℕ) (committed : CommittedReceivePageV1)
    → (commit_receive_page o page now).1 ≡ ok committed
    → Past page.expected_checkpoint.revision (commit_receive_page o page now).0.checkpoint
unfolding commit_receive_page
committed-Past o page now committed done = elim (Result-cases (commit_checks o page now)) [
  | inl (e, q) ↦ absurd (ground (arith, q, done))
  | inr ((found, revision, nonce), q) ↦
      let k = commit_checks-IsChecked o page now found revision nonce q in
      ground (arith, q, done, k.next_revision)
]

refuses-Past :
    (o : ReceiveOwner) (page : ReceivePageCommitV1) (now n : ℕ)
    → Past n o.checkpoint
    → page.expected_checkpoint.revision ≤ n
    → ((commit_receive_page o page now).0 ≡ o) × (is_ok (commit_receive_page o page now).1 ≡ false)
unfolding commit_receive_page
refuses-Past o page now n h old = elim (Option-cases o.checkpoint) [
  | inl p ↦ absurd (ground (arith, p, h))
  | inr (kept, p) ↦ elim (Result-cases (commit_checks o page now)) [
    | inl (e, q) ↦ ground (arith, q)
    | inr ((found, revision, nonce), q) ↦
        let k = commit_checks-IsChecked o page now found revision nonce q in
        absurd (
          ground (arith, p, h, old, k.expected, matches_revision o page.expected_checkpoint kept p))
  ]
]

-- Once a page is committed, and after any calls with made arguments, restarts among them, every page
-- whose expected checkpoint is of the same revision or of an older one is refused, and the refusal
-- leaves the owner as it was.
pub commit_once :
    (o : ReceiveOwner) (page again : ReceivePageCommitV1) (now later : ℕ)
    (committed : CommittedReceivePageV1) (calls : List (ℕ × Call))
    → (commit_receive_page o page now).1 ≡ ok committed
    → All (λ call. IsMade call.1) calls
    → again.expected_checkpoint.revision ≤ page.expected_checkpoint.revision
    → let o' = run (commit_receive_page o page now).0 calls in
      ((commit_receive_page o' again later).0 ≡ o')
      × (is_ok (commit_receive_page o' again later).1 ≡ false)
commit_once o page again now later committed calls done made old =
    refuses-Past (run (commit_receive_page o page now).0 calls) again later
      page.expected_checkpoint.revision
      (run-Past (commit_receive_page o page now).0 page.expected_checkpoint.revision calls made
        (committed-Past o page now committed done))
      old
