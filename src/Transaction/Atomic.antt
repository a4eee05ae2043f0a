-- ===== src/Transaction/Atomic.antt =====
-- The commit is all or nothing, and safe to retry.
use session_chat.Prelude.{ℕ, ◌≡◌, ◌⊎◌, true, some, arith}
use session_chat.Prelude.Outcome.{Result, ok, err}
use session_chat.Prelude.Map.{lookup}
use session_chat.Prelude.Map.Laws.{lookup-insert}
use session_chat.Protocol.Cbor.{Cbor}
use session_chat.Transaction.Types.{
  InviterJoinCommit, InviterJoinStore, CommitOutcome, committed, already_committed, CommitFault,
  no_fault, after_commit, TransactionError, outcome_unknown, CommittedRecord,
}
use session_chat.Transaction.Commit.{
  matches, validate_commit, commit_checks, committed_record, installed, commit_with_fault,
}

-- The answer says that the commit was installed, or may have been.
abbrev pub IsInstalled : Result TransactionError CommitOutcome → Type 0
IsInstalled r = (r ≡ ok committed) ⊎ (r ≡ err outcome_unknown)

module _ (c : Cbor) where
  -- Whatever fault is injected, the store is left either exactly as it was or with the whole commit
  -- installed; it is the second exactly when the answer is `committed` or `outcome_unknown`.
  pub commit_all_or_nothing :
      (st : InviterJoinStore) (k : InviterJoinCommit) (now : ℕ) (fault : CommitFault)
      → let after = commit_with_fault c st k now fault in
        (IsInstalled after.1 × (after.0 ≡ installed st k))
        ⊎ (¬ IsInstalled after.1 × (after.0 ≡ st))
  unfolding commit_with_fault commit_checks validate_commit
  commit_all_or_nothing st k now fault = ground arith

  -- A lost answer loses nothing else: with the fault behind the commit the store is the one that the
  -- commit without a fault leaves.
  pub commit_after_commit_exact :
      (st : InviterJoinStore) (k : InviterJoinCommit) (now : ℕ)
      → (commit_with_fault c st k now after_commit).0 ≡ (commit_with_fault c st k now no_fault).0
  unfolding commit_with_fault commit_checks
  commit_after_commit_exact st k now = ground arith

  matches_self : (k : InviterJoinCommit) → matches (committed_record k) k ≡ true
  unfolding matches
  matches_self k = ground arith

  pub installed-valid :
      (st : InviterJoinStore) (k : InviterJoinCommit) (now : ℕ) (fault : CommitFault)
      → IsInstalled (commit_with_fault c st k now fault).1
      → (validate_commit c st.policy k ≡ ok tt)
        × ((commit_with_fault c st k now fault).0 ≡ installed st k)
  unfolding commit_with_fault commit_checks validate_commit
  installed-valid st k now fault h = ground arith

  -- A record of a valid commit answers that commit, at any time and with any fault.
  pub commit-matches :
      (st : InviterJoinStore) (k : InviterJoinCommit) (now : ℕ) (fault : CommitFault)
      (r : CommittedRecord)
      → validate_commit c st.policy k ≡ ok tt
      → lookup k.transaction_id st.commits ≡ some r
      → matches r k ≡ true
      → commit_with_fault c st k now fault ≡ (st, ok already_committed)
  unfolding commit_with_fault
  commit-matches st k now fault r valid held same = ground arith

  pub lookup-installed :
      (st : InviterJoinStore) (k : InviterJoinCommit)
      → lookup k.transaction_id (installed st k).commits ≡ some (committed_record k)
  lookup-installed st k =
      ground
        (arith, lookup-insert k.transaction_id k.transaction_id (committed_record k) st.commits)

  -- Once a commit is installed, trying it again at any time and with any fault answers that it is
  -- committed already, and changes nothing.
  pub commit_retry :
      (st : InviterJoinStore) (k : InviterJoinCommit) (now later : ℕ) (fault again : CommitFault)
      → IsInstalled (commit_with_fault c st k now fault).1
      → let after = (commit_with_fault c st k now fault).0 in
        commit_with_fault c after k later again ≡ (after, ok already_committed)
  commit_retry st k now later fault again h =
      let (valid, e) = installed-valid st k now fault h in
      rw e (
        commit-matches (installed st k) k later again (committed_record k) valid
          (lookup-installed st k) (matches_self k))
