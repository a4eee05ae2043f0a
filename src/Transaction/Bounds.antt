-- ===== src/Transaction/Bounds.antt =====
-- The three collections of the store keep within their limits.
use session_chat.Prelude.{
  ℕ, ◌≤◌, ◌<◌, ◌≡◌, List, [], ◌∷◌, inl, inr, Bool-cases, arith, length, length-append, length-drop,
}
use session_chat.Prelude.Outcome.{Result, ok, err, Result-cases}
use session_chat.Prelude.Bytes.{Bytes}
use session_chat.Prelude.Map.Laws.{
  length-insert-le, length-remove-le, length-remove-lt, length-replace, length-map_values,
}
use session_chat.Protocol.Cbor.{Cbor}
use session_chat.Transaction.Types.{
  TransactionPolicy, ReservedInvitation, InviterJoinCommit, CommitFault, DeliveryLease,
  ReservationRecord, InviterJoinStore, TransactionError,
}
use session_chat.Transaction.Commit.{new, commit_checks, commit_with_fault, committed_record}
use session_chat.Transaction.Seed.{
  retire_reservation, make_room, seed_checks, seed_checks-ok, seed_reservation, reservation_record,
}
use session_chat.Transaction.Delivery.{
  pending_transaction_ids, grant_lease, lease_delivery, fail_delivery, complete_delivery,
}
use session_chat.Transaction.Port.{
  is_bad_lease, mark_worn_out, sweep, lease_payload, lease_first, lease_next,
}
use session_chat.Transaction.Calls.{
  Call, seeds, commits, leases, leases_next, fails, completes, step, run,
}

-- The collections are within their limits, and the policy and the scope are those given.
pub record IsBounded (policy : TransactionPolicy) (scope : ℕ) (st : InviterJoinStore) : Type 0 where
  pub same_policy : st.policy ≡ policy
  pub same_scope : st.lease_scope ≡ scope
  pub few_reservations : length st.reservations ≤ policy.maximum_transactions
  pub few_commits : length st.commits ≤ policy.maximum_transactions
  pub few_retired : length st.retired_reservations ≤ 4096

module _ (policy : TransactionPolicy) (scope : ℕ) where
  retire_reservation-IsBounded :
      (st : InviterJoinStore) (id : Bytes) (r : ReservationRecord)
      → IsBounded policy scope st
      → IsBounded policy scope (retire_reservation st id r)
        × (length (retire_reservation st id r).reservations ≡ length st.reservations)
  unfolding retire_reservation
  retire_reservation-IsBounded st id r h = grind (arith, length-append, length-drop)

  make_room-IsBounded :
      (st room : InviterJoinStore) (id : Bytes) (now : ℕ)
      → make_room st id now ≡ ok room
      → IsBounded policy scope st
      → IsBounded policy scope room × (length room.reservations < policy.maximum_transactions)
  unfolding make_room
  make_room-IsBounded st room id now e h =
      grind (arith, length-remove-lt, length-remove-le, retire_reservation-IsBounded)

  seed-IsBounded :
      (st : InviterJoinStore) (v : ReservedInvitation) (now : ℕ)
      → IsBounded policy scope st
      → IsBounded policy scope (seed_reservation st v now).0
  unfolding seed_reservation
  seed-IsBounded st v now h = elim (Result-cases (seed_checks st v now)) [
    | inl (e, q) ↦ rw (q, seed_reservation) h
    | inr (room, q) ↦
        let made = (seed_checks-ok st room v now q).4 in
        rw (q, seed_reservation)
          (ground (
            arith,
            make_room-IsBounded st room v.invitation_id now made h,
            length-insert-le v.invitation_id (reservation_record v) room.reservations,
          ))
  ]

  pub commit-IsBounded :
      (c : Cbor) (st : InviterJoinStore) (k : InviterJoinCommit) (now : ℕ) (fault : CommitFault)
      → IsBounded policy scope st
      → IsBounded policy scope (commit_with_fault c st k now fault).0
  unfolding commit_with_fault commit_checks
  commit-IsBounded c st k now fault h = ground (
    arith,
    length-insert-le k.transaction_id (committed_record k) st.commits,
    length-remove-le k.invitation_id st.reservations,
  )

  lease_delivery-IsBounded :
      (st : InviterJoinStore) (k : Bytes) (now seconds : ℕ)
      → IsBounded policy scope st
      → IsBounded policy scope (lease_delivery st k now seconds).0
  unfolding lease_delivery grant_lease
  lease_delivery-IsBounded st k now seconds h = grind (arith, length-replace)

  fail_delivery-IsBounded :
      (st : InviterJoinStore) (lease : DeliveryLease)
      → IsBounded policy scope st
      → IsBounded policy scope (fail_delivery st lease).0
  unfolding fail_delivery
  fail_delivery-IsBounded st lease h = grind (arith, length-replace)

  complete_delivery-IsBounded :
      (st : InviterJoinStore) (lease : DeliveryLease) (now : ℕ)
      → IsBounded policy scope st
      → IsBounded policy scope (complete_delivery st lease now).0
  unfolding complete_delivery
  complete_delivery-IsBounded st lease now h = grind (arith, length-replace)

  sweep-IsBounded :
      (st : InviterJoinStore) (now : ℕ)
      → IsBounded policy scope st
      → IsBounded policy scope (sweep st now)
  unfolding sweep
  sweep-IsBounded st now h =
      ground (arith, length-map_values (mark_worn_out st.policy now) st.commits)

  lease_payload-IsBounded :
      (p : InviterJoinStore × Result TransactionError DeliveryLease) (now : ℕ)
      → IsBounded policy scope p.0
      → IsBounded policy scope (lease_payload p now).0
  unfolding lease_payload
  lease_payload-IsBounded (st, err e) now h = h
  lease_payload-IsBounded (st, ok lease) now h = ground (arith, fail_delivery-IsBounded st lease h)

  lease_next-IsBounded :
      (st : InviterJoinStore) (now seconds : ℕ)
      → IsBounded policy scope st
      → IsBounded policy scope (lease_next st now seconds).0
  unfolding lease_next
  lease_next-IsBounded st now seconds h = elim (Bool-cases (is_bad_lease st.policy now seconds)) [
    | inl bad ↦ rw bad h
    | inr fine ↦ rw fine (first (pending_transaction_ids (sweep st now) now))
  ]
    where
      first :
          (ids : List Bytes) → IsBounded policy scope (lease_first (sweep st now) ids now seconds).0
      first [] = sweep-IsBounded st now h
      first (k ∷ ids) =
          lease_payload-IsBounded (lease_delivery (sweep st now) k now seconds) now
            (lease_delivery-IsBounded (sweep st now) k now seconds (sweep-IsBounded st now h))

module _ (c : Cbor) (policy : TransactionPolicy) (scope : ℕ) where
  pub step-IsBounded :
      (st : InviterJoinStore) (call : ℕ × Call)
      → IsBounded policy scope st
      → IsBounded policy scope (step c st call)
  unfolding step
  step-IsBounded st (now, seeds v) h = seed-IsBounded policy scope st v now h
  step-IsBounded st (now, commits k fault) h = commit-IsBounded policy scope c st k now fault h
  step-IsBounded st (now, leases k seconds) h =
      lease_delivery-IsBounded policy scope st k now seconds h
  step-IsBounded st (now, leases_next seconds) h =
      lease_next-IsBounded policy scope st now seconds h
  step-IsBounded st (now, fails lease) h = fail_delivery-IsBounded policy scope st lease h
  step-IsBounded st (now, completes lease) h =
      complete_delivery-IsBounded policy scope st lease now h

  pub run-IsBounded :
      (st : InviterJoinStore) (calls : List (ℕ × Call))
      → IsBounded policy scope st
      → IsBounded policy scope (run c st calls)
  unfolding run
  run-IsBounded st [] h = h
  run-IsBounded st (call ∷ calls) h =
      run-IsBounded (step c st call) calls (step-IsBounded st call h)

  -- From an empty store, any calls at any times leave at most `maximum_transactions` reservations
  -- and as many commits, and at most 4096 retired reservations.
  pub run-new-within :
      (calls : List (ℕ × Call)) → IsBounded policy scope (run c (new policy scope) calls)
  unfolding new
  run-new-within calls = run-IsBounded (new policy scope) calls (ground arith)
