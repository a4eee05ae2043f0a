-- ===== src/Transaction/SingleUse.antt =====
-- One transaction for an invitation, and one for a join request.
use session_chat.Prelude.{
  ℕ, ◌≡◌, ◌≢◌, List, [], ◌∷◌, false, none, some, arith, Bool-cases, inl, inr,
}
use session_chat.Prelude.Outcome.{Result, ok, err, Result-cases}
use session_chat.Prelude.Bytes.{Bytes, same}
use session_chat.Prelude.Map.{lookup, any_value}
use session_chat.Prelude.Map.Laws.{lookup-insert, lookup-remove, any_value-lookup}
use session_chat.Protocol.Cbor.{Cbor}
use session_chat.Transaction.Types.{
  TransactionPolicy, ReservedInvitation, InviterJoinCommit, CommitFault, DeliveryLease,
  CommittedRecord, InviterJoinStore, TransactionError,
}
use session_chat.Transaction.Commit.{
  new, commit_checks, is_replayed, commit_with_fault, committed_record, installed,
}
use session_chat.Transaction.Seed.{
  retire_reservation, make_room, seed_checks, seed_checks-ok, seed_reservation, reservation_record,
}
use session_chat.Transaction.Delivery.{lease_delivery, delivery_payload}
use session_chat.Transaction.Port.{is_bad_lease, sweep, lease_payload, lease_first, lease_next}
use session_chat.Transaction.Calls.{
  Call, seeds, commits, leases, leases_next, fails, completes, step, run,
}
use session_chat.Transaction.Likeness.{
  IsSingleUse, IsLike, IsLike-refl, IsLike-trans, IsLike-IsSingleUse, lease_delivery-IsLike,
  fail_delivery-IsLike, complete_delivery-IsLike, sweep-IsLike,
}

make_room-shrinks :
    (st room : InviterJoinStore) (k : Bytes) (now : ℕ) (id : Bytes)
    → make_room st k now ≡ ok room
    → lookup id st.reservations ≡ none
    → (room.commits ≡ st.commits) × (lookup id room.reservations ≡ none)
unfolding make_room retire_reservation
make_room-shrinks st room k now id e free = grind (arith, lookup-remove)

make_room-commits :
    (st room : InviterJoinStore) (k : Bytes) (now : ℕ)
    → make_room st k now ≡ ok room
    → room.commits ≡ st.commits
unfolding make_room retire_reservation
make_room-commits st room k now e = ground arith

-- A record of the invitation that is seeded would have been a conflict.
seed-apart :
    (st : InviterJoinStore) (v : ReservedInvitation) (id : Bytes) (r : CommittedRecord)
    → any_value (λ r. same r.invitation_id v.invitation_id) st.commits ≡ false
    → lookup id st.commits ≡ some r
    → r.invitation_id ≢ v.invitation_id
seed-apart st v id r clear held e =
    ground
      (arith, any_value-lookup (λ a. same a.invitation_id v.invitation_id) id st.commits r held)

seed-IsSingleUse :
    (st : InviterJoinStore) (v : ReservedInvitation) (now : ℕ)
    → IsSingleUse st
    → IsSingleUse (seed_reservation st v now).0
unfolding seed_reservation
seed-IsSingleUse st v now h = elim (Result-cases (seed_checks st v now)) [
  | inl (e, q) ↦ rw (q, seed_reservation) h
  | inr (room, q) ↦
      let (clear, _, _, _, made) = seed_checks-ok st room v now q in
      let kept = make_room-commits st room v.invitation_id now made in
      rw (q, seed_reservation)
        (record {
          one_each = λ id id' r r' e e' shared.
              h.one_each id id' r r' (rw kept at e) (rw kept at e') shared;
          not_reserved = λ id r e.
              let held = rw kept at e in
              ground (
                arith,
                seed-apart st v id r clear held,
                make_room-shrinks st room v.invitation_id now r.invitation_id made
                    (h.not_reserved id r held),
                lookup-insert r.invitation_id v.invitation_id (reservation_record v)
                    room.reservations,
              );
        })
]

-- A commit that passes its checks shares neither its invitation nor its join request.
commit-apart :
    (st : InviterJoinStore) (k : InviterJoinCommit) (now : ℕ) (fault : CommitFault) (id : Bytes)
    (r : CommittedRecord)
    → IsSingleUse st
    → commit_checks st k now fault ≡ ok tt
    → lookup id st.commits ≡ some r
    → (r.invitation_id ≢ k.invitation_id) × (r.join_request_id ≢ k.join_request_id)
unfolding commit_checks
commit-apart st k now fault id r h checked held = (
  λ e. ground (arith, h.not_reserved id r held),
  λ e. ground (arith, any_value-lookup (is_replayed k) id st.commits r held),
)

installed-IsSingleUse :
    (st : InviterJoinStore) (k : InviterJoinCommit)
    → IsSingleUse st
    → ((id : Bytes) (r : CommittedRecord)
        → lookup id st.commits ≡ some r
        → (r.invitation_id ≢ k.invitation_id) × (r.join_request_id ≢ k.join_request_id))
    → IsSingleUse (installed st k)
installed-IsSingleUse st k h apart = record {
  one_each = λ id id' r r' e e' shared. ground (
    arith,
    lookup-insert id k.transaction_id (committed_record k) st.commits,
    lookup-insert id' k.transaction_id (committed_record k) st.commits,
    h.one_each id id' r r',
    apart id r,
    apart id' r',
  );
  not_reserved = λ id r e. ground (
    arith,
    lookup-insert id k.transaction_id (committed_record k) st.commits,
    lookup-remove r.invitation_id k.invitation_id st.reservations,
    h.not_reserved id r,
  );
}

commit-IsSingleUse :
    (c : Cbor) (st : InviterJoinStore) (k : InviterJoinCommit) (now : ℕ) (fault : CommitFault)
    → IsSingleUse st
    → IsSingleUse (commit_with_fault c st k now fault).0
commit-IsSingleUse c st k now fault h = elim (Result-cases (commit_checks st k now fault)) [
  | inl (e, q) ↦ unfold commit_with_fault in ground (arith, q, h)
  | inr (u, q) ↦
      unfold commit_with_fault in
      ground (
        arith,
        q,
        h,
        installed-IsSingleUse st k h
            (λ (id : Bytes) (r : CommittedRecord). commit-apart st k now fault id r h q),
      )
]

lease_payload-IsLike :
    (st : InviterJoinStore) (p : InviterJoinStore × Result TransactionError DeliveryLease) (now : ℕ)
    → IsLike st p.0
    → IsLike st (lease_payload p now).0
unfolding lease_payload
lease_payload-IsLike st (st', err e) now h = h
lease_payload-IsLike st (st', ok lease) now h =
    elim (Result-cases (delivery_payload st' lease now)) [
      | inl (e, q) ↦
          rw (q, lease_payload) (IsLike-trans st st' _ h (fail_delivery-IsLike st' lease))
      | inr (a, q) ↦ rw (q, lease_payload) h
    ]

lease_first-IsLike :
    (st : InviterJoinStore) (ids : List Bytes) (now seconds : ℕ)
    → IsLike st (lease_first st ids now seconds).0
lease_first-IsLike st [] now seconds = IsLike-refl st
lease_first-IsLike st (id ∷ ids) now seconds =
    lease_payload-IsLike st (lease_delivery st id now seconds) now
      (lease_delivery-IsLike st id now seconds)

lease_next-IsLike :
    (st : InviterJoinStore) (now seconds : ℕ) → IsLike st (lease_next st now seconds).0
unfolding lease_next
lease_next-IsLike st now seconds = elim (Bool-cases (is_bad_lease st.policy now seconds)) [
  | inl bad ↦ rw bad (IsLike-refl st)
  | inr fine ↦ rw fine (
      IsLike-trans st (sweep st now) _ (sweep-IsLike st now)
        (lease_first-IsLike (sweep st now) _ now seconds))
]

module _ (c : Cbor) where
  step-IsSingleUse :
      (st : InviterJoinStore) (call : ℕ × Call) → IsSingleUse st → IsSingleUse (step c st call)
  unfolding step
  step-IsSingleUse st (now, seeds v) h = seed-IsSingleUse st v now h
  step-IsSingleUse st (now, commits k fault) h = commit-IsSingleUse c st k now fault h
  step-IsSingleUse st (now, leases k seconds) h =
      IsLike-IsSingleUse st _ (lease_delivery-IsLike st k now seconds) h
  step-IsSingleUse st (now, leases_next seconds) h =
      IsLike-IsSingleUse st _ (lease_next-IsLike st now seconds) h
  step-IsSingleUse st (now, fails lease) h =
      IsLike-IsSingleUse st _ (fail_delivery-IsLike st lease) h
  step-IsSingleUse st (now, completes lease) h =
      IsLike-IsSingleUse st _ (complete_delivery-IsLike st lease now) h

  run-IsSingleUse :
      (st : InviterJoinStore) (calls : List (ℕ × Call))
      → IsSingleUse st
      → IsSingleUse (run c st calls)
  unfolding run
  run-IsSingleUse st [] h = h
  run-IsSingleUse st (call ∷ calls) h =
      run-IsSingleUse (step c st call) calls (step-IsSingleUse st call h)

  -- From an empty store, whatever is called: two transactions of one invitation or of one join
  -- request are the same transaction, and the invitation of a transaction is not reserved.
  pub run-new-IsSingleUse :
      (policy : TransactionPolicy) (scope : ℕ) (calls : List (ℕ × Call))
      → IsSingleUse (run c (new policy scope) calls)
  unfolding new
  run-new-IsSingleUse policy scope calls = run-IsSingleUse (new policy scope) calls (record {
    one_each = λ id id' r r' e e' shared. unfold lookup in ground arith;
    not_reserved = λ id r e. unfold lookup in ground arith;
  })
