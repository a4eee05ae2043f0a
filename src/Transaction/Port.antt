-- ===== src/Transaction/Port.antt =====
-- crates/session-inviter-transaction/src/lib.rs: the store as the owner of the Welcome outbox.
use session_chat.Prelude.{
  ℕ, List, [], ◌∷◌, Bool, ◌&&◌, ◌||◌, Option, none, some, ltb, leb, ◌==◌, if◌then◌else◌,
  checked_add, is_none,
}
use session_chat.Prelude.Outcome.{Result, ok, err, map_err}
use session_chat.Prelude.Bytes.{Bytes}
use session_chat.Prelude.Map.{map_values}
use session_chat.Transport.OutboxPort.{
  LeasedWelcome, OutboxPortError, unavailable, internal, WelcomeOutboxPort,
}
use session_chat.Transaction.Types.{
  TransactionPolicy, DeliveryLease, TransactionError, invalid_input, capacity_exceeded,
  reservation_mismatch, expired, delivery_unavailable, lease_mismatch, attempts_exhausted,
  injected_failure, outcome_unknown, exhausted, CommittedRecord, InviterJoinStore,
}
use session_chat.Transaction.Delivery.{
  is_free, pending_transaction_ids, lease_delivery, delivery_payload, fail_delivery,
  complete_delivery,
}

abbrev pub map_outbox_port_error : TransactionError → OutboxPortError
map_outbox_port_error delivery_unavailable = OutboxPortError.conflict
map_outbox_port_error lease_mismatch = OutboxPortError.conflict
map_outbox_port_error attempts_exhausted = OutboxPortError.conflict
map_outbox_port_error expired = OutboxPortError.conflict
map_outbox_port_error capacity_exceeded = unavailable
map_outbox_port_error invalid_input = internal
map_outbox_port_error reservation_mismatch = internal
map_outbox_port_error TransactionError.conflict = internal
map_outbox_port_error injected_failure = internal
map_outbox_port_error outcome_unknown = internal

-- No attempt is left, and nobody holds the record: `lease_next` marks it as exhausted.
abbrev pub is_worn_out : TransactionPolicy → ℕ → CommittedRecord → Bool
is_worn_out p now r =
    ltb now r.outbox_expires_at
    && (leb p.maximum_delivery_attempts r.delivery_attempts && is_free now r.outbox)

abbrev pub mark_worn_out : TransactionPolicy → ℕ → CommittedRecord → CommittedRecord
mark_worn_out p now r = if is_worn_out p now r then record r { outbox = exhausted } else r

unfoldable pub sweep : InviterJoinStore → ℕ → InviterJoinStore
sweep st now = record st { commits = map_values (mark_worn_out st.policy now) st.commits }

-- The lease of the first eligible record, with its payload.
unfoldable pub lease_payload :
    InviterJoinStore × Result TransactionError DeliveryLease
    → ℕ
    → InviterJoinStore × Result OutboxPortError (Option (LeasedWelcome DeliveryLease))
lease_payload (st, err e) now = (st, err (map_outbox_port_error e))
lease_payload (st, ok lease) now = elim (delivery_payload st lease now) [
  | err e ↦ ((fail_delivery st lease).0, err (map_outbox_port_error e))
  | ok payload ↦ (
    st,
    ok (
        some (record {
          lease = lease;
          welcome_envelope = payload.welcome_envelope;
          deposit_endpoint = payload.deposit_endpoint;
          outbox_expires_at = payload.outbox_expires_at;
        })),
  )
]

abbrev pub lease_first :
    InviterJoinStore
    → List Bytes
    → ℕ
    → ℕ
    → InviterJoinStore × Result OutboxPortError (Option (LeasedWelcome DeliveryLease))
lease_first st [] now seconds = (st, ok none)
lease_first st (id ∷ ids) now seconds = lease_payload (lease_delivery st id now seconds) now

abbrev pub is_bad_lease : TransactionPolicy → ℕ → ℕ → Bool
is_bad_lease p now seconds =
    seconds == 0 || (ltb p.maximum_lease_seconds seconds || is_none (checked_add now seconds))

unfoldable pub lease_next :
    InviterJoinStore
    → ℕ
    → ℕ
    → InviterJoinStore × Result OutboxPortError (Option (LeasedWelcome DeliveryLease))
lease_next st now seconds =
    if is_bad_lease st.policy now seconds
    then (st, err (map_outbox_port_error invalid_input))
    else lease_first (sweep st now) (pending_transaction_ids (sweep st now) now) now seconds

unfoldable pub report_accepted :
    InviterJoinStore → DeliveryLease → ℕ → InviterJoinStore × Result OutboxPortError (Unit {0})
report_accepted st lease now =
    let (after, result) = complete_delivery st lease now in
    (after, map_err map_outbox_port_error result)

unfoldable pub report_failed :
    InviterJoinStore → DeliveryLease → InviterJoinStore × Result OutboxPortError (Unit {0})
report_failed st lease =
    let (after, result) = fail_delivery st lease in (after, map_err map_outbox_port_error result)

-- `impl WelcomeOutboxPort for InMemoryInviterJoinStore`
unfoldable pub store_port : WelcomeOutboxPort InviterJoinStore DeliveryLease
store_port = record {
  lease_next = lease_next;
  report_accepted = report_accepted;
  report_failed = report_failed;
}
