-- ===== src/Tests/Transaction.antt =====
-- The store at a concrete commit.
use session_chat.Prelude.{ℕ, ◌≡◌, ◌⊎◌, refl, arith, List, ◌∷◌, [], some, inl, checked_add, any, all}
use session_chat.Prelude.Outcome.{ok}
use session_chat.Prelude.Bytes.{all_zero, Bytes-discrete}
use session_chat.Prelude.Map.{lookup, insert, remove, any_value}
use session_chat.Protocol.Parser.{
  array, u16, u64, byte_string, require_array, require_value, decode_fixed,
}
use session_chat.Protocol.Envelope
use session_chat.Protocol.Endpoint
use session_chat.Transaction.Types.{
  TransactionPolicy, ReservedInvitation, InviterJoinCommit, InviterJoinStore, committed,
  already_committed, no_fault, after_mls_staging,
}
use session_chat.Transaction.Commit.{
  new, validate_commit, is_bad_commit, commit_checks, commit_with_fault, committed_record,
  installed,
}
use session_chat.Transaction.Seed.{
  seed_reservation, seed_checks, make_room, retire_reservation, oldest_expired,
}
use session_chat.Transaction.Calls
use session_chat.Transaction.Calls.{
  Call, seeds, commits, leases, leases_next, fails, completes, step,
}
use session_chat.Transaction.Atomic.{IsInstalled, commit_all_or_nothing}
use session_chat.Transaction.Records.{Moved, run-Moved}
use session_chat.Transaction.Bounds.{IsBounded, run-new-within}
use session_chat.Transaction.Recovery.{commit_retry_later}
use session_chat.Transaction.SingleUse.{run-new-IsSingleUse}
use session_chat.Transaction.Likeness.{IsSingleUse}
use session_chat.Transaction.Attempts.{IsAttempted, run-new-IsAttempted}
use session_chat.Tests.Instances.{repeat, plain_cbor}

abbrev pub policy : TransactionPolicy
policy = record {
  maximum_transactions = 4;
  maximum_group_id_bytes = 16;
  maximum_approval_bytes = 64;
  maximum_mls_state_bytes = 64;
  maximum_welcome_bytes = 4096;
  maximum_endpoint_bytes = 512;
  maximum_delivery_attempts = 2;
  maximum_lease_seconds = 60;
}

abbrev pub welcome : Envelope.OpaqueEnvelope
welcome = record { envelope_id = repeat 16 3; expires_at = 900; ciphertext = 8 ∷ 9 ∷ [] }

abbrev pub endpoint : Endpoint.LocalWelcomeDepositEndpoint
endpoint = record {
  transport_instance_id = repeat 16 1;
  mailbox_id = repeat 16 2;
  deposit_capability = repeat 32 5;
  expires_at = 1000;
}

abbrev pub reservation : ReservedInvitation
reservation = record {
  invitation_id = repeat 16 4;
  invitation_generation = repeat 32 6;
  join_request_id = repeat 16 7;
  expires_at = 800;
}

abbrev pub the_commit : InviterJoinCommit
the_commit = record {
  transaction_id = repeat 16 9;
  invitation_id = repeat 16 4;
  invitation_generation = repeat 32 6;
  join_request_id = repeat 16 7;
  request_fingerprint = repeat 32 1;
  group_id = 1 ∷ [];
  epoch_before = 0;
  epoch_after = 1;
  approval_record = 2 ∷ [];
  mls_state = 3 ∷ [];
  welcome_envelope = Envelope.encoded plain_cbor welcome;
  deposit_endpoint = Endpoint.encode_into plain_cbor endpoint;
  outbox_expires_at = 850;
}

abbrev pub empty_store : InviterJoinStore
empty_store = new policy 1

-- The store with the reservation, then with the commit.
abbrev pub seeded : InviterJoinStore
seeded = Calls.run plain_cbor empty_store ((10, seeds reservation) ∷ [])

committed_now : (commit_with_fault plain_cbor seeded the_commit 20 no_fault).1 ≡ ok committed
unfolding commit_with_fault validate_commit is_bad_commit commit_checks Calls.run step
    seed_reservation seed_checks make_room retire_reservation oldest_expired new
    Envelope.decode_canonical Envelope.decode_fields Envelope.encode_canonical Envelope.encoded
    Envelope.new Endpoint.decode_canonical Endpoint.decode_from Endpoint.new
    Endpoint.encode_canonical Endpoint.encode_into Endpoint.deposit_capability_new lookup insert
    remove any_value any all all_zero Bytes-discrete checked_add array u16 u64 byte_string
    require_array require_value decode_fixed
committed_now = refl

abbrev calls : List (ℕ × Call)
calls = (30, leases (repeat 16 9) 50) ∷ (900, seeds reservation) ∷ []

abbrev committed_store : InviterJoinStore
committed_store = (commit_with_fault plain_cbor seeded the_commit 20 no_fault).0

abbrev later_store : InviterJoinStore
later_store = Calls.run plain_cbor committed_store calls

seeded-IsBounded : IsBounded policy 1 seeded
seeded-IsBounded = run-new-within plain_cbor policy 1 ((10, seeds reservation) ∷ [])

commit_retry_later_example :
    commit_with_fault plain_cbor later_store the_commit 1000 after_mls_staging
    ≡ (later_store, ok already_committed)
commit_retry_later_example =
    commit_retry_later plain_cbor policy 1 seeded seeded-IsBounded the_commit 20 no_fault
      (inl committed_now) calls 1000 after_mls_staging

commit_all_or_nothing_example :
    let after = commit_with_fault plain_cbor seeded the_commit 20 after_mls_staging in
    (IsInstalled after.1 × (after.0 ≡ installed seeded the_commit))
    ⊎ (¬ IsInstalled after.1 × (after.0 ≡ seeded))
commit_all_or_nothing_example =
    commit_all_or_nothing plain_cbor seeded the_commit 20 after_mls_staging

holds_record :
    lookup (repeat 16 9) (installed seeded the_commit).commits ≡ some (committed_record the_commit)
unfolding lookup insert Bytes-discrete Calls.run step new seed_reservation seed_checks make_room
    retire_reservation oldest_expired any_value any
holds_record = refl

run-Moved_example :
    Moved
      (committed_record the_commit)
      (lookup (repeat 16 9) (Calls.run plain_cbor (installed seeded the_commit) calls).commits)
run-Moved_example =
    run-Moved plain_cbor (installed seeded the_commit) (repeat 16 9) (committed_record the_commit)
      calls holds_record

-- A whole life of a transaction.
abbrev life : List (ℕ × Call)
life =
    (10, seeds reservation)
    ∷ (20, commits the_commit no_fault)
    ∷ (30, leases (repeat 16 9) 50)
    ∷ (100, leases_next 60)
    ∷ []

run-new-within_example : IsBounded policy 1 (Calls.run plain_cbor (new policy 1) life)
run-new-within_example = run-new-within plain_cbor policy 1 life

run-new-IsSingleUse_example : IsSingleUse (Calls.run plain_cbor (new policy 1) life)
run-new-IsSingleUse_example = run-new-IsSingleUse plain_cbor policy 1 life

run-new-IsAttempted_example : IsAttempted 2 (Calls.run plain_cbor (new policy 1) life)
run-new-IsAttempted_example = run-new-IsAttempted plain_cbor policy 1 life (omega arith)
