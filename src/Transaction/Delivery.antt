-- ===== src/Transaction/Delivery.antt =====
-- crates/session-inviter-transaction/src/lib.rs: the views of the store, and the leases under which
-- a committed Welcome is delivered.
use session_chat.Prelude.{
  ℕ, ◌+◌, List, [], ◌∷◌, Bool, true, false, not, ◌&&◌, ◌||◌, Option, none, some, ltb, leb, ◌==◌,
  if◌then◌else◌, length, checked_add,
}
use session_chat.Prelude.Outcome.{Result, ok, err, ◌>>=◌, ◌>>◌, reject_if, ok_or}
use session_chat.Prelude.Bytes.{Bytes, same, all_zero}
use session_chat.Prelude.Map.{Map, lookup, contains, replace, any_value}
use mathlib.Core.Option
use session_chat.Transaction.Types.{
  TransactionPolicy, InvitationState, reserved, consumed, OutboxState, is_pending, is_leased,
  is_delivered, is_attempts_exhausted, TransactionView, DeliveryLease, DeliveryPayload,
  TransactionError, invalid_input, expired, delivery_unavailable, lease_mismatch,
  attempts_exhausted, StoredOutboxState, pending, leased, delivered, exhausted, CommittedRecord,
  InviterJoinStore,
}

unfoldable pub invitation_state : InviterJoinStore → Bytes → Option InvitationState
invitation_state st id =
    if contains id st.reservations
    then some reserved
    else if any_value (λ r. same r.invitation_id id) st.commits
    then some consumed
    else none

abbrev pub outbox_view : StoredOutboxState → OutboxState
outbox_view pending = is_pending
outbox_view (leased n expires_at) = is_leased
outbox_view (delivered n) = is_delivered
outbox_view exhausted = is_attempts_exhausted

abbrev pub view : CommittedRecord → TransactionView
view r = record {
  epoch_after = r.epoch_after;
  outbox_state = outbox_view r.outbox;
  delivery_attempts = r.delivery_attempts;
}

unfoldable pub recover : InviterJoinStore → Bytes → Option TransactionView
recover st id = Option.map view (lookup id st.commits)

unfoldable pub committed_count : InviterJoinStore → ℕ
committed_count st = length st.commits

-- Pending, or under a lease that has run out.
abbrev pub is_free : ℕ → StoredOutboxState → Bool
is_free now pending = true
is_free now (leased n expires_at) = leb expires_at now
is_free now (delivered n) = false
is_free now exhausted = false

abbrev pub is_eligible : TransactionPolicy → ℕ → CommittedRecord → Bool
is_eligible p now r =
    not (leb r.outbox_expires_at now)
    && (not (leb p.maximum_delivery_attempts r.delivery_attempts) && is_free now r.outbox)

unfoldable pub pending_ids : TransactionPolicy → ℕ → Map CommittedRecord → List Bytes
pending_ids p now [] = []
pending_ids p now ((id, r) ∷ m) =
    let rest = pending_ids p now m in if is_eligible p now r then id ∷ rest else rest

unfoldable pub pending_transaction_ids : InviterJoinStore → ℕ → List Bytes
unfolding pending_ids
pending_transaction_ids st now = pending_ids st.policy now st.commits

abbrev pub is_exhausted : StoredOutboxState → Bool
is_exhausted exhausted = true
is_exhausted _ = false

-- The checks up to the one that marks the record as exhausted, with the expiry of the lease.
unfoldable pub lease_checks :
    InviterJoinStore → Bytes → ℕ → ℕ → Result TransactionError (ℕ × CommittedRecord)
lease_checks st id now seconds = do
  reject_if (all_zero id || (seconds == 0 || ltb st.policy.maximum_lease_seconds seconds))
      invalid_input
  lease_expires_at ← ok_or (checked_add now seconds) invalid_input
  r ← ok_or (lookup id st.commits) delivery_unavailable
  reject_if (leb r.outbox_expires_at now || ltb r.outbox_expires_at lease_expires_at) expired
  reject_if (is_exhausted r.outbox) attempts_exhausted
  reject_if (not (is_free now r.outbox)) delivery_unavailable
  ok (lease_expires_at, r)

-- A record in its place.
abbrev pub write : InviterJoinStore → Bytes → CommittedRecord → InviterJoinStore
write st id r = record st { commits = replace id r st.commits }

unfoldable pub grant_lease :
    InviterJoinStore
    → Bytes
    → ℕ
    → CommittedRecord
    → InviterJoinStore × Result TransactionError DeliveryLease
grant_lease st id lease_expires_at r =
    if leb st.policy.maximum_delivery_attempts r.delivery_attempts
    then (write st id (record r { outbox = exhausted }), err attempts_exhausted)
    else elim (checked_add st.next_lease_sequence 1) [
      | none ↦ (st, err delivery_unavailable)
      | some next ↦ (
        record (write st id (record r {
          delivery_attempts = r.delivery_attempts + 1;
          outbox = leased st.next_lease_sequence lease_expires_at;
        })) { next_lease_sequence = next },
        ok (record {
          store_scope = st.lease_scope;
          transaction_id = id;
          lease_sequence = st.next_lease_sequence;
        }),
      )
    ]

unfoldable pub lease_delivery :
    InviterJoinStore → Bytes → ℕ → ℕ → InviterJoinStore × Result TransactionError DeliveryLease
lease_delivery st id now seconds = elim (lease_checks st id now seconds) [
  | err e ↦ (st, err e)
  | ok (lease_expires_at, r) ↦ grant_lease st id lease_expires_at r
]

-- The record that a lease of this store names.
unfoldable pub leased_record :
    InviterJoinStore → DeliveryLease → Result TransactionError CommittedRecord
leased_record st lease = do
  reject_if (not (st.lease_scope == lease.store_scope)) lease_mismatch
  ok_or (lookup lease.transaction_id st.commits) lease_mismatch

abbrev pub is_live_lease : StoredOutboxState → ℕ → ℕ → Bool
is_live_lease (leased n expires_at) sequence now = n == sequence && ltb now expires_at
is_live_lease _ sequence now = false

abbrev pub is_lease : StoredOutboxState → ℕ → Bool
is_lease (leased n expires_at) sequence = n == sequence
is_lease _ sequence = false

abbrev pub is_delivery : StoredOutboxState → ℕ → Bool
is_delivery (delivered n) sequence = n == sequence
is_delivery _ sequence = false

unfoldable pub delivery_payload :
    InviterJoinStore → DeliveryLease → ℕ → Result TransactionError DeliveryPayload
delivery_payload st lease now = do
  r ← leased_record st lease
  reject_if (leb r.outbox_expires_at now) expired
  reject_if (not (is_live_lease r.outbox lease.lease_sequence now)) lease_mismatch
  ok (record {
    welcome_envelope = r.welcome_envelope;
    deposit_endpoint = r.deposit_endpoint;
    outbox_expires_at = r.outbox_expires_at;
  })

unfoldable pub fail_delivery :
    InviterJoinStore → DeliveryLease → InviterJoinStore × Result TransactionError (Unit {0})
fail_delivery st lease = elim (leased_record st lease) [
  | err e ↦ (st, err e)
  | ok r ↦
      if is_lease r.outbox lease.lease_sequence
      then (
        write st lease.transaction_id (record r {
          outbox =
              if leb st.policy.maximum_delivery_attempts r.delivery_attempts
              then exhausted
              else pending;
        }),
        ok tt,
      )
      else (st, err lease_mismatch)
]

unfoldable pub complete_delivery :
    InviterJoinStore → DeliveryLease → ℕ → InviterJoinStore × Result TransactionError (Unit {0})
complete_delivery st lease now = elim (leased_record st lease) [
  | err e ↦ (st, err e)
  | ok r ↦
      if is_live_lease r.outbox lease.lease_sequence now && ltb now r.outbox_expires_at
      then (
        write st lease.transaction_id (record r { outbox = delivered lease.lease_sequence }),
        ok tt,
      )
      else if is_delivery r.outbox lease.lease_sequence
      then (st, ok tt)
      else (st, err lease_mismatch)
]
