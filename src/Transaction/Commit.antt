-- ===== src/Transaction/Commit.antt =====
-- crates/session-inviter-transaction/src/lib.rs: the constructors, and the atomic commit. The store is
-- returned beside the result, as the call leaves it.
use session_chat.Prelude.{
  ℕ, [], Bool, true, false, not, ◌&&◌, ◌||◌, Option, none, some, ltb, leb, ◌==◌, if◌then◌else◌,
  length, is_empty, checked_add,
}
use session_chat.Prelude.Outcome.{Result, ok, err, ◌>>=◌, ◌>>◌, reject_if, ok_or, map_err}
use session_chat.Prelude.Bytes.{Bytes, same, all_zero}
use session_chat.Prelude.Map.{lookup, insert, remove, any_value}
use session_chat.Protocol.Cbor.{Cbor}
use session_chat.Protocol.Envelope
use session_chat.Protocol.Endpoint
use session_chat.Transaction.Types.{
  TransactionPolicy, ReservedInvitation, InviterJoinCommit, CommitOutcome, committed,
  already_committed, CommitFault, no_fault, after_reservation_check, after_replay_check,
  after_approval_staging, after_mls_staging, after_outbox_staging, after_commit, TransactionError,
  invalid_input, capacity_exceeded, reservation_mismatch, conflict, expired, injected_failure,
  outcome_unknown, CommittedRecord, pending, InviterJoinStore, hard_maximum_transactions,
  hard_maximum_group_id_bytes, hard_maximum_approval_bytes, hard_maximum_mls_state_bytes,
  hard_maximum_welcome_bytes, hard_maximum_endpoint_bytes, hard_maximum_delivery_attempts,
  hard_maximum_lease_seconds,
}

-- A limit that is zero or beyond its hard maximum.
abbrev pub is_bad_limit : ℕ → ℕ → Bool
is_bad_limit limit maximum = limit == 0 || ltb maximum limit

-- `TransactionPolicy::new`, its arguments in a record.
unfoldable pub policy_new : TransactionPolicy → Result TransactionError TransactionPolicy
policy_new p =
    if is_bad_limit p.maximum_transactions hard_maximum_transactions
      || (is_bad_limit p.maximum_group_id_bytes hard_maximum_group_id_bytes
          || (is_bad_limit p.maximum_approval_bytes hard_maximum_approval_bytes
              || (is_bad_limit p.maximum_mls_state_bytes hard_maximum_mls_state_bytes
                  || (is_bad_limit p.maximum_welcome_bytes hard_maximum_welcome_bytes
                      || (is_bad_limit p.maximum_endpoint_bytes hard_maximum_endpoint_bytes
                          || (is_bad_limit p.maximum_delivery_attempts
                                hard_maximum_delivery_attempts
                              || is_bad_limit p.maximum_lease_seconds
                                  hard_maximum_lease_seconds))))))
    then err invalid_input
    else ok p

unfoldable pub reserved_invitation_new :
    Bytes → Bytes → Bytes → ℕ → Result TransactionError ReservedInvitation
reserved_invitation_new id generation request expires_at =
    if all_zero id || (all_zero generation || (all_zero request || expires_at == 0))
    then err invalid_input
    else ok (record {
      invitation_id = id;
      invitation_generation = generation;
      join_request_id = request;
      expires_at = expires_at;
    })

-- `InMemoryInviterJoinStore::new`, in a fresh scope.
unfoldable pub new : TransactionPolicy → ℕ → InviterJoinStore
new policy scope = record {
  policy = policy;
  lease_scope = scope;
  next_lease_sequence = 1;
  reservations = [];
  retired_reservations = [];
  commits = [];
}

-- `CommittedRecord::matches`
unfoldable pub matches : CommittedRecord → InviterJoinCommit → Bool
matches r k =
    same r.invitation_id k.invitation_id
    && (same r.invitation_generation k.invitation_generation
        && (same r.join_request_id k.join_request_id
            && (same r.request_fingerprint k.request_fingerprint
                && (same r.group_id k.group_id
                    && (r.epoch_before == k.epoch_before
                        && (r.epoch_after == k.epoch_after
                            && (same r.approval_record k.approval_record
                                && (same r.mls_state k.mls_state
                                    && (same r.welcome_envelope k.welcome_envelope
                                        && (same r.deposit_endpoint k.deposit_endpoint
                                            && r.outbox_expires_at == k.outbox_expires_at))))))))))

-- An input that is empty or beyond its limit.
abbrev pub is_bad_size : Bytes → ℕ → Bool
is_bad_size bytes maximum = is_empty bytes || ltb maximum (length bytes)

abbrev pub is_next_epoch : Option ℕ → ℕ → Bool
is_next_epoch none epoch = false
is_next_epoch (some next) epoch = next == epoch

unfoldable pub is_bad_commit : TransactionPolicy → InviterJoinCommit → Bool
is_bad_commit p k =
    all_zero k.transaction_id
    || (all_zero k.invitation_id
        || (all_zero k.invitation_generation
            || (all_zero k.join_request_id
                || (all_zero k.request_fingerprint
                    || (is_bad_size k.group_id p.maximum_group_id_bytes
                        || (is_bad_size k.approval_record p.maximum_approval_bytes
                            || (is_bad_size k.mls_state p.maximum_mls_state_bytes
                                || (is_bad_size k.welcome_envelope p.maximum_welcome_bytes
                                    || (is_bad_size k.deposit_endpoint p.maximum_endpoint_bytes
                                        || not (
                                            is_next_epoch (checked_add k.epoch_before 1)
                                              k.epoch_after))))))))))

module _ (c : Cbor) where
  unfoldable pub validate_commit :
      TransactionPolicy → InviterJoinCommit → Result TransactionError (Unit {0})
  validate_commit p k = do
    reject_if (is_bad_commit p k) invalid_input
    envelope ← map_err (λ _. invalid_input) (Envelope.decode_canonical c k.welcome_envelope)
    endpoint ← map_err (λ _. invalid_input) (Endpoint.decode_canonical c k.deposit_endpoint)
    reject_if
        (all_zero envelope.envelope_id
          || (ltb envelope.expires_at k.outbox_expires_at
              || ltb endpoint.expires_at envelope.expires_at))
        invalid_input

-- `==` on faults.
abbrev pub is_fault : CommitFault → CommitFault → Bool
is_fault no_fault no_fault = true
is_fault after_reservation_check after_reservation_check = true
is_fault after_replay_check after_replay_check = true
is_fault after_approval_staging after_approval_staging = true
is_fault after_mls_staging after_mls_staging = true
is_fault after_outbox_staging after_outbox_staging = true
is_fault after_commit after_commit = true
is_fault _ _ = false

abbrev pub fail_at : CommitFault → CommitFault → Result TransactionError (Unit {0})
fail_at actual expected = reject_if (is_fault actual expected) injected_failure

-- The invitation generation or the join request of the commit is used up by the record.
abbrev pub is_replayed : InviterJoinCommit → CommittedRecord → Bool
is_replayed k r =
    (same r.invitation_id k.invitation_id && same r.invitation_generation k.invitation_generation)
    || same r.join_request_id k.join_request_id

-- The checks behind the test for an earlier commit, and the faults between them.
unfoldable pub commit_checks :
    InviterJoinStore → InviterJoinCommit → ℕ → CommitFault → Result TransactionError (Unit {0})
commit_checks st k now fault = do
  reject_if (leb k.outbox_expires_at now) expired
  reject_if (leb st.policy.maximum_transactions (length st.commits)) capacity_exceeded
  reservation ← ok_or (lookup k.invitation_id st.reservations) reservation_mismatch
  reject_if
      (not (same reservation.invitation_generation k.invitation_generation)
        || not (same reservation.join_request_id k.join_request_id))
      reservation_mismatch
  reject_if (leb reservation.expires_at now) expired
  fail_at fault after_reservation_check
  reject_if (any_value (is_replayed k) st.commits) conflict
  fail_at fault after_replay_check
  fail_at fault after_approval_staging
  fail_at fault after_mls_staging
  fail_at fault after_outbox_staging

abbrev pub committed_record : InviterJoinCommit → CommittedRecord
committed_record k = record {
  invitation_id = k.invitation_id;
  invitation_generation = k.invitation_generation;
  join_request_id = k.join_request_id;
  request_fingerprint = k.request_fingerprint;
  group_id = k.group_id;
  epoch_before = k.epoch_before;
  epoch_after = k.epoch_after;
  approval_record = k.approval_record;
  mls_state = k.mls_state;
  welcome_envelope = k.welcome_envelope;
  deposit_endpoint = k.deposit_endpoint;
  outbox_expires_at = k.outbox_expires_at;
  outbox = pending;
  delivery_attempts = 0;
}

-- The store with the reservation used up and the record in place.
abbrev pub installed : InviterJoinStore → InviterJoinCommit → InviterJoinStore
installed st k = record st {
  reservations = remove k.invitation_id st.reservations;
  commits = insert k.transaction_id (committed_record k) st.commits;
}

module _ (c : Cbor) where
  unfoldable pub commit_with_fault :
      InviterJoinStore
      → InviterJoinCommit
      → ℕ
      → CommitFault
      → InviterJoinStore × Result TransactionError CommitOutcome
  commit_with_fault st k now fault = elim (validate_commit c st.policy k) [
    | err e ↦ (st, err e)
    | ok _ ↦ elim (lookup k.transaction_id st.commits) [
      | some r ↦ (st, if matches r k then ok already_committed else err conflict)
      | none ↦ elim (commit_checks st k now fault) [
        | err e ↦ (st, err e)
        | ok _ ↦ (
          installed st k,
          if is_fault fault after_commit then err outcome_unknown else ok committed,
        )
      ]
    ]
  ]
