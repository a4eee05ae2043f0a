-- ===== src/Transaction/Recovery.antt =====
-- What a commit means for good: it can be recovered by its identifier after anything else happened.
use session_chat.Prelude.{
  ℕ, ◌≡◌, refl, List, true, Option, none, some, arith, Option-cases, inl, inr,
}
use session_chat.Prelude.Outcome.{ok, err}
use session_chat.Prelude.Bytes.{same}
use session_chat.Prelude.Map.{lookup, any_value}
use session_chat.Prelude.Map.Laws.{any_value-lookup}
use session_chat.Protocol.Cbor.{Cbor}
use session_chat.Transaction.Types.{
  TransactionPolicy, ReservedInvitation, InviterJoinCommit, InviterJoinStore, already_committed,
  CommitFault, CommittedRecord, conflict,
}
use session_chat.Transaction.Commit.{matches, committed_record, commit_with_fault}
use session_chat.Transaction.Seed.{seed_checks, seed_reservation}
use session_chat.Transaction.Calls.{Call, run}
use session_chat.Transaction.Atomic.{IsInstalled, installed-valid, commit-matches, lookup-installed}
use session_chat.Transaction.Records.{Moved, run-Moved}
use session_chat.Transaction.Bounds.{IsBounded, commit-IsBounded, run-IsBounded}

module _ (k : InviterJoinCommit) where
  Moved-matches : (r : CommittedRecord) → Moved (committed_record k) (some r) → matches r k ≡ true
  unfolding matches
  Moved-matches r m = ground arith

module _ (c : Cbor) (policy : TransactionPolicy) (scope : ℕ) (st : InviterJoinStore)
    (bounded : IsBounded policy scope st) (k : InviterJoinCommit) (now : ℕ) (fault : CommitFault)
    (done : IsInstalled (commit_with_fault c st k now fault).1) (calls : List (ℕ × Call)) where
  abbrev later_store : InviterJoinStore
  later_store = run c (commit_with_fault c st k now fault).0 calls

  kept : Moved (committed_record k) (lookup k.transaction_id later_store.commits)
  kept =
      run-Moved c _ k.transaction_id (committed_record k) calls
        (rw ((installed-valid c st k now fault done).1) (lookup-installed c st k))

  later_policy : later_store.policy ≡ st.policy
  later_policy =
      let after = commit-IsBounded policy scope c st k now fault bounded in
      let end = run-IsBounded c policy scope (commit_with_fault c st k now fault).0 calls after in
      ground (arith, end.same_policy, bounded.same_policy)

  -- In a store within its limits, once a commit was installed, after any calls at any times, trying it
  -- again, with any fault, answers that it is committed already and changes nothing.
  pub commit_retry_later :
      (later : ℕ) (again : CommitFault)
      → commit_with_fault c later_store k later again ≡ (later_store, ok already_committed)
  commit_retry_later later again =
      elim (Option-cases (lookup k.transaction_id later_store.commits)) [
        | inl e ↦ absurd (rw e at kept)
        | inr (r, e) ↦
            commit-matches c later_store k later again r
              (rw later_policy ((installed-valid c st k now fault done).0)) e
              (Moved-matches k r (rw e at kept))
      ]

  used :
      (o : Option CommittedRecord)
      → lookup k.transaction_id later_store.commits ≡ o
      → Moved (committed_record k) o
      → any_value (λ r. same r.invitation_id k.invitation_id) later_store.commits ≡ true
  used none e m = absurd m
  used (some r) e m =
      any_value-lookup (λ r'. same r'.invitation_id k.invitation_id) k.transaction_id _ r e
        (ground arith)

  -- In a store within its limits, once a commit was installed, after any calls at any times, a
  -- reservation of its invitation, of whatever generation, is a conflict and changes nothing.
  pub seed-installed :
      (v : ReservedInvitation) (later : ℕ)
      → v.invitation_id ≡ k.invitation_id
      → seed_reservation later_store v later ≡ (later_store, err conflict)
  unfolding seed_reservation seed_checks
  seed-installed v later e = rw (e, used _ refl kept, seed_reservation, seed_checks)
