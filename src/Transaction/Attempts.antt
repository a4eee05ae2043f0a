-- ===== src/Transaction/Attempts.antt =====
-- Every record keeps within its delivery attempts, and its lease within the expiry of its outbox.
use session_chat.Prelude.{
  ℕ, ◌≤◌, ◌<◌, ◌≡◌, refl, List, [], ◌∷◌, Option, none, some, arith, Bool-cases, inl, inr,
}
use session_chat.Prelude.Outcome.{Result, ok, err, Result-cases}
use session_chat.Prelude.Bytes.{Bytes}
use session_chat.Prelude.Map.{lookup}
use session_chat.Prelude.Map.Laws.{lookup-insert, lookup-replace, lookup-map_values}
use session_chat.Protocol.Cbor.{Cbor}
use session_chat.Transaction.Types.{
  TransactionPolicy, InviterJoinStore, ReservedInvitation, InviterJoinCommit, CommitFault,
  DeliveryLease, CommittedRecord, TransactionError, StoredOutboxState, pending, leased, delivered,
  exhausted,
}
use session_chat.Transaction.Commit.{new, commit_with_fault, committed_record}
use session_chat.Transaction.Seed.{seed_reservation, seed_checks, make_room, retire_reservation}
use session_chat.Transaction.Delivery.{
  lease_checks, grant_lease, lease_delivery, leased_record, delivery_payload, fail_delivery,
  complete_delivery,
}
use session_chat.Transaction.Port.{
  is_bad_lease, mark_worn_out, sweep, lease_payload, lease_first, lease_next,
}
use session_chat.Transaction.Calls.{
  Call, seeds, commits, leases, leases_next, fails, completes, step, run,
}
use session_chat.Transaction.Leases.{lease_checks-ok}

-- What the outbox of a record says about its attempts and its time.
abbrev pub IsOutbox : StoredOutboxState → ℕ → ℕ → ℕ → Type 0
IsOutbox pending maximum attempts expires_at = attempts < maximum
IsOutbox (leased n lease_expires_at) maximum attempts expires_at =
    (0 < attempts) × (lease_expires_at ≤ expires_at)
IsOutbox (delivered n) maximum attempts expires_at = 0 < attempts
IsOutbox exhausted maximum attempts expires_at = attempts ≡ maximum

abbrev pub IsRecord : ℕ → CommittedRecord → Type 0
IsRecord maximum r =
    (r.delivery_attempts ≤ maximum)
    × IsOutbox r.outbox maximum r.delivery_attempts r.outbox_expires_at

abbrev pub IsHeld : ℕ → Option CommittedRecord → Type 0
IsHeld maximum none = Unit {0}
IsHeld maximum (some r) = IsRecord maximum r

-- The records are within the limit of attempts of the policy, which is the one given.
pub record IsAttempted (maximum : ℕ) (st : InviterJoinStore) : Type 0 where
  pub same_maximum : st.policy.maximum_delivery_attempts ≡ maximum
  pub each : (id : Bytes) → IsHeld maximum (lookup id st.commits)

module _ (maximum : ℕ) (some_attempt : 0 < maximum) (st : InviterJoinStore)
    (h : IsAttempted maximum st) where
  seed-IsAttempted :
      (v : ReservedInvitation) (now : ℕ) → IsAttempted maximum (seed_reservation st v now).0
  seed-IsAttempted v now = record {
    same_maximum =
        unfold seed_reservation seed_checks make_room retire_reservation in
        ground (arith, h.same_maximum);
    each = λ id. rw (same_commits v now) (h.each id);
  }
    where
      same_commits :
          (v : ReservedInvitation) (now : ℕ) → (seed_reservation st v now).0.commits ≡ st.commits
      same_commits v now =
          unfold seed_reservation seed_checks make_room retire_reservation in ground arith

  commit-IsAttempted :
      (c : Cbor) (k : InviterJoinCommit) (now : ℕ) (fault : CommitFault)
      → IsAttempted maximum (commit_with_fault c st k now fault).0
  unfolding commit_with_fault
  commit-IsAttempted c k now fault = record {
    same_maximum = ground (arith, h.same_maximum);
    each = λ id.
        ground
          (arith, h.each id, lookup-insert id k.transaction_id (committed_record k) st.commits);
  }

  grant_lease-IsAttempted :
      (k : Bytes) (expires_at : ℕ) (r : CommittedRecord)
      → lookup k st.commits ≡ some r
      → expires_at ≤ r.outbox_expires_at
      → IsAttempted maximum (grant_lease st k expires_at r).0
  unfolding grant_lease
  grant_lease-IsAttempted k expires_at r held within = record {
    same_maximum = ground (arith, h.same_maximum);
    each = λ id. grind (arith, h.same_maximum, h.each id, h.each k, lookup-replace);
  }

  lease_delivery-IsAttempted :
      (id : Bytes) (now seconds : ℕ) → IsAttempted maximum (lease_delivery st id now seconds).0
  unfolding lease_delivery
  lease_delivery-IsAttempted k now seconds = elim (Result-cases (lease_checks st k now seconds)) [
    | inl (e, q) ↦ rw (q, lease_delivery) h
    | inr ((expires_at, r), q) ↦
        let (held, after_now, in_time) = lease_checks-ok st k now seconds expires_at r q in
        rw (q, lease_delivery) (grant_lease-IsAttempted k expires_at r held in_time)
  ]

  fail_delivery-IsAttempted :
      (lease : DeliveryLease) → IsAttempted maximum (fail_delivery st lease).0
  unfolding fail_delivery leased_record
  fail_delivery-IsAttempted lease = record {
    same_maximum = ground (arith, h.same_maximum);
    each =
        λ id. grind (arith, h.same_maximum, h.each id, h.each lease.transaction_id, lookup-replace);
  }

  complete_delivery-IsAttempted :
      (lease : DeliveryLease) (now : ℕ) → IsAttempted maximum (complete_delivery st lease now).0
  unfolding complete_delivery leased_record
  complete_delivery-IsAttempted lease now = record {
    same_maximum = ground (arith, h.same_maximum);
    each =
        λ id. grind (arith, h.same_maximum, h.each id, h.each lease.transaction_id, lookup-replace);
  }

  sweep-IsAttempted : (now : ℕ) → IsAttempted maximum (sweep st now)
  unfolding sweep
  sweep-IsAttempted now = record {
    same_maximum = h.same_maximum;
    each = λ id. ground (
      arith,
      h.same_maximum,
      h.each id,
      lookup-map_values id (mark_worn_out st.policy now) st.commits,
    );
  }

module _ (maximum : ℕ) (some_attempt : 0 < maximum) where
  lease_payload-IsAttempted :
      (p : InviterJoinStore × Result TransactionError DeliveryLease) (now : ℕ)
      → IsAttempted maximum p.0
      → IsAttempted maximum (lease_payload p now).0
  unfolding lease_payload
  lease_payload-IsAttempted (st, err e) now h = h
  lease_payload-IsAttempted (st, ok lease) now h =
      elim (Result-cases (delivery_payload st lease now)) [
        | inl (e, q) ↦
            rw (q, lease_payload) (fail_delivery-IsAttempted maximum some_attempt st h lease)
        | inr (a, q) ↦ rw (q, lease_payload) h
      ]

  lease_first-IsAttempted :
      (st : InviterJoinStore) (ids : List Bytes) (now seconds : ℕ)
      → IsAttempted maximum st
      → IsAttempted maximum (lease_first st ids now seconds).0
  lease_first-IsAttempted st [] now seconds h = h
  lease_first-IsAttempted st (id ∷ ids) now seconds h =
      lease_payload-IsAttempted (lease_delivery st id now seconds) now
        (lease_delivery-IsAttempted maximum some_attempt st h id now seconds)

  lease_next-IsAttempted :
      (st : InviterJoinStore) (now seconds : ℕ)
      → IsAttempted maximum st
      → IsAttempted maximum (lease_next st now seconds).0
  unfolding lease_next
  lease_next-IsAttempted st now seconds h = elim (Bool-cases (is_bad_lease st.policy now seconds)) [
    | inl bad ↦ rw bad h
    | inr fine ↦ rw fine (
        lease_first-IsAttempted (sweep st now) _ now seconds
          (sweep-IsAttempted maximum some_attempt st h now))
  ]

  module _ (c : Cbor) where
    step-IsAttempted :
        (st : InviterJoinStore) (call : ℕ × Call)
        → IsAttempted maximum st
        → IsAttempted maximum (step c st call)
    unfolding step
    step-IsAttempted st (now, seeds v) h = seed-IsAttempted maximum some_attempt st h v now
    step-IsAttempted st (now, commits k fault) h =
        commit-IsAttempted maximum some_attempt st h c k now fault
    step-IsAttempted st (now, leases k seconds) h =
        lease_delivery-IsAttempted maximum some_attempt st h k now seconds
    step-IsAttempted st (now, leases_next seconds) h = lease_next-IsAttempted st now seconds h
    step-IsAttempted st (now, fails lease) h =
        fail_delivery-IsAttempted maximum some_attempt st h lease
    step-IsAttempted st (now, completes lease) h =
        complete_delivery-IsAttempted maximum some_attempt st h lease now

    run-IsAttempted :
        (st : InviterJoinStore) (calls : List (ℕ × Call))
        → IsAttempted maximum st
        → IsAttempted maximum (run c st calls)
    unfolding run
    run-IsAttempted st [] h = h
    run-IsAttempted st (call ∷ calls) h =
        run-IsAttempted (step c st call) calls (step-IsAttempted st call h)

-- From an empty store whose policy allows an attempt, whatever is called: no transaction has had more
-- attempts than the policy allows, a pending one has some left, a leased or delivered one has had
-- some, an exhausted one all, and no lease outlives the outbox of its transaction.
pub run-new-IsAttempted :
    (c : Cbor) (policy : TransactionPolicy) (scope : ℕ) (calls : List (ℕ × Call))
    → 0 < policy.maximum_delivery_attempts
    → IsAttempted policy.maximum_delivery_attempts (run c (new policy scope) calls)
unfolding new
run-new-IsAttempted c policy scope calls some_attempt =
    run-IsAttempted policy.maximum_delivery_attempts some_attempt c (new policy scope) calls
      (record { same_maximum = refl; each = λ id. unfold lookup in tt })
