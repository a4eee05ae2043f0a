-- ===== src/Transaction/Stale.antt =====
-- A lease that a later one has replaced, and a delivery that was completed.
use session_chat.Prelude.{
  ℕ, ◌≤◌, ◌≡◌, refl, List, [], ◌∷◌, Option, none, some, arith, inl, inr, Option-cases,
  checked_add-eq_some, ◌∙◌,
}
use session_chat.Prelude.Outcome.{Result, ok, err}
use session_chat.Prelude.Bytes.{Bytes}
use session_chat.Prelude.Map.{lookup}
use session_chat.Prelude.Map.Laws.{lookup-replace}
use session_chat.Protocol.Cbor.{Cbor}
use session_chat.Transaction.Types.{
  InviterJoinStore, ReservedInvitation, InviterJoinCommit, CommitFault, DeliveryLease,
  CommittedRecord, TransactionError, lease_mismatch, delivered,
}
use session_chat.Transaction.Commit.{commit_with_fault}
use session_chat.Transaction.Seed.{seed_reservation, seed_checks, make_room, retire_reservation}
use session_chat.Transaction.Delivery.{
  grant_lease, lease_delivery, leased_record, fail_delivery, complete_delivery,
  pending_transaction_ids,
}
use session_chat.Transaction.Port.{sweep, lease_payload, lease_first, lease_next}
use session_chat.Transaction.Calls.{
  Call, seeds, commits, leases, leases_next, fails, completes, step, run,
}
use session_chat.Transaction.Records.{Moved, run-Moved}
use session_chat.Transaction.Leases.{lease_delivery-ok}

-- The sequence numbers only grow, and the scope stays.
module _ (st : InviterJoinStore) where
  abbrev Grows : InviterJoinStore → Type 0
  Grows after =
      (st.next_lease_sequence ≤ after.next_lease_sequence) × (after.lease_scope ≡ st.lease_scope)

  lease_delivery-Grows : (id : Bytes) (now seconds : ℕ) → Grows (lease_delivery st id now seconds).0
  unfolding lease_delivery grant_lease
  lease_delivery-Grows id now seconds = grind (arith, checked_add-eq_some)

  fail_delivery-Grows : (lease : DeliveryLease) → Grows (fail_delivery st lease).0
  unfolding fail_delivery
  fail_delivery-Grows lease = ground arith

  complete_delivery-Grows :
      (lease : DeliveryLease) (now : ℕ) → Grows (complete_delivery st lease now).0
  unfolding complete_delivery
  complete_delivery-Grows lease now = ground arith

  seed-Grows : (v : ReservedInvitation) (now : ℕ) → Grows (seed_reservation st v now).0
  unfolding seed_reservation seed_checks make_room retire_reservation
  seed-Grows v now = ground arith

  commit-Grows :
      (c : Cbor) (k : InviterJoinCommit) (now : ℕ) (fault : CommitFault)
      → Grows (commit_with_fault c st k now fault).0
  unfolding commit_with_fault
  commit-Grows c k now fault = ground arith

  lease_payload-Grows :
      (p : InviterJoinStore × Result TransactionError DeliveryLease) (now : ℕ)
      → Grows p.0
      → Grows (lease_payload p now).0
  unfolding lease_payload fail_delivery
  lease_payload-Grows (st', err e) now h = h
  lease_payload-Grows (st', ok lease) now h = ground arith

lease_first-Grows :
    (st : InviterJoinStore) (ids : List Bytes) (now seconds : ℕ)
    → Grows st (lease_first st ids now seconds).0
lease_first-Grows st [] now seconds = (omega arith, refl)
lease_first-Grows st (id ∷ ids) now seconds =
    lease_payload-Grows st (lease_delivery st id now seconds) now
      (lease_delivery-Grows st id now seconds)

lease_next-Grows :
    (st : InviterJoinStore) (now seconds : ℕ) → Grows st (lease_next st now seconds).0
unfolding lease_next sweep
lease_next-Grows st now seconds = ground (
  arith,
  lease_first-Grows (sweep st now) (pending_transaction_ids (sweep st now) now) now seconds,
)

module _ (c : Cbor) where
  step-Grows : (st : InviterJoinStore) (call : ℕ × Call) → Grows st (step c st call)
  unfolding step
  step-Grows st (now, seeds v) = seed-Grows st v now
  step-Grows st (now, commits k fault) = commit-Grows st c k now fault
  step-Grows st (now, leases k seconds) = lease_delivery-Grows st k now seconds
  step-Grows st (now, leases_next seconds) = lease_next-Grows st now seconds
  step-Grows st (now, fails lease) = fail_delivery-Grows st lease
  step-Grows st (now, completes lease) = complete_delivery-Grows st lease now

  run-Grows : (st : InviterJoinStore) (calls : List (ℕ × Call)) → Grows st (run c st calls)
  unfolding run
  run-Grows st [] = (omega arith, refl)
  run-Grows st (call ∷ calls) = ground (arith, step-Grows st call, run-Grows (step c st call) calls)

  -- Once a later lease for its transaction was granted, after any calls in between, a lease neither
  -- completes nor fails the delivery, at any time, and the store stays as it is.
  pub stale_lease :
      (st : InviterJoinStore) (id : Bytes) (now seconds then seconds' : ℕ)
      (lease lease' : DeliveryLease) (calls : List (ℕ × Call)) (at : ℕ)
      → (lease_delivery st id now seconds).1 ≡ ok lease
      → let between = run c (lease_delivery st id now seconds).0 calls in
        (lease_delivery between id then seconds').1 ≡ ok lease'
        → let after = (lease_delivery between id then seconds').0 in
          (complete_delivery after lease at ≡ (after, err lease_mismatch))
          × (fail_delivery after lease ≡ (after, err lease_mismatch))
  unfolding complete_delivery fail_delivery leased_record
  stale_lease st id now seconds then seconds' lease lease' calls at h h' =
      let first = lease_delivery-ok st id now seconds lease h in
      let between = run c (lease_delivery st id now seconds).0 calls in
      let second = lease_delivery-ok between id then seconds' lease' h' in
      ground (
        arith,
        first.the_lease,
        first.next_sequence,
        second.now_leased,
        run-Grows (lease_delivery st id now seconds).0 calls,
      )

abbrev IsDone : Option CommittedRecord → ℕ → Type 0
IsDone none n = ⊥
IsDone (some r) n = r.outbox ≡ delivered n

complete_delivery-ok :
    (st : InviterJoinStore) (lease : DeliveryLease) (now : ℕ)
    → (complete_delivery st lease now).1 ≡ ok tt
    → IsDone
        (lookup lease.transaction_id (complete_delivery st lease now).0.commits)
        lease.lease_sequence
      × (st.lease_scope ≡ lease.store_scope)
unfolding complete_delivery leased_record
complete_delivery-ok st lease now h = grind (arith, lookup-replace)

complete_delivery-done :
    (st : InviterJoinStore) (lease : DeliveryLease) (now : ℕ) (r : CommittedRecord)
    → st.lease_scope ≡ lease.store_scope
    → Moved r (lookup lease.transaction_id st.commits)
    → r.outbox ≡ delivered lease.lease_sequence
    → complete_delivery st lease now ≡ (st, ok tt)
unfolding complete_delivery leased_record
complete_delivery-done st lease now r scope kept done = ground arith

-- A delivery that was completed is completed for good: after any calls, completing it again at any
-- time succeeds and changes nothing.
pub complete_retry_later :
    (c : Cbor) (st : InviterJoinStore) (lease : DeliveryLease) (now later : ℕ)
    (calls : List (ℕ × Call))
    → (complete_delivery st lease now).1 ≡ ok tt
    → let end = run c (complete_delivery st lease now).0 calls in
      complete_delivery end lease later ≡ (end, ok tt)
complete_retry_later c st lease now later calls h =
    let after = (complete_delivery st lease now).0 in
    let (done, scope) = complete_delivery-ok st lease now h in
    let same = (run-Grows c after calls).1 ∙ (complete_delivery-Grows st lease now).1 ∙ scope in
    elim (Option-cases (lookup lease.transaction_id after.commits)) [
      | inl e ↦ absurd (rw e at done)
      | inr (r, e) ↦
          complete_delivery-done (run c after calls) lease later r same
            (run-Moved c after lease.transaction_id r calls e) (rw e at done)
    ]
