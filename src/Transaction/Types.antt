-- ===== src/Transaction/Types.antt =====
-- crates/session-inviter-transaction/src/lib.rs: the types of the store. `Arc` scopes are numbers:
-- two scopes are one allocation exactly when their numbers are equal.
use Prim.Native.Nat.{ℕ}
use session_chat.Prelude.{List}
use session_chat.Prelude.Bytes.{Bytes}
use session_chat.Prelude.Map.{Map}

pub record TransactionPolicy : Type 0 where
  pub maximum_transactions : ℕ
  pub maximum_group_id_bytes : ℕ
  pub maximum_approval_bytes : ℕ
  pub maximum_mls_state_bytes : ℕ
  pub maximum_welcome_bytes : ℕ
  pub maximum_endpoint_bytes : ℕ
  pub maximum_delivery_attempts : ℕ
  pub maximum_lease_seconds : ℕ

pub record ReservedInvitation : Type 0 where
  pub invitation_id : Bytes
  pub invitation_generation : Bytes
  pub join_request_id : Bytes
  pub expires_at : ℕ

pub record InviterJoinCommit : Type 0 where
  pub transaction_id : Bytes
  pub invitation_id : Bytes
  pub invitation_generation : Bytes
  pub join_request_id : Bytes
  pub request_fingerprint : Bytes
  pub group_id : Bytes
  pub epoch_before : ℕ
  pub epoch_after : ℕ
  pub approval_record : Bytes
  pub mls_state : Bytes
  pub welcome_envelope : Bytes
  pub deposit_endpoint : Bytes
  pub outbox_expires_at : ℕ

pub data CommitOutcome : Type 0 where
  committed already_committed : CommitOutcome

pub data InvitationState : Type 0 where
  reserved consumed : InvitationState

pub data OutboxState : Type 0 where
  is_pending is_leased is_delivered is_attempts_exhausted : OutboxState

pub record TransactionView : Type 0 where
  pub epoch_after : ℕ
  pub outbox_state : OutboxState
  pub delivery_attempts : ℕ

pub record DeliveryLease : Type 0 where
  pub store_scope : ℕ
  pub transaction_id : Bytes
  pub lease_sequence : ℕ

pub record DeliveryPayload : Type 0 where
  pub welcome_envelope : Bytes
  pub deposit_endpoint : Bytes
  pub outbox_expires_at : ℕ

pub data CommitFault : Type 0 where
  no_fault after_reservation_check after_replay_check after_approval_staging : CommitFault
  after_mls_staging after_outbox_staging after_commit : CommitFault

pub data TransactionError : Type 0 where
  invalid_input capacity_exceeded reservation_mismatch conflict expired : TransactionError
  delivery_unavailable lease_mismatch attempts_exhausted injected_failure : TransactionError
  outcome_unknown : TransactionError

pub record ReservationRecord : Type 0 where
  pub invitation_generation : Bytes
  pub join_request_id : Bytes
  pub expires_at : ℕ

pub record RetiredReservation : Type 0 where
  pub invitation_id : Bytes
  pub invitation_generation : Bytes

pub data StoredOutboxState : Type 0 where
  pending : StoredOutboxState
  leased : (lease_sequence expires_at : ℕ) → StoredOutboxState
  delivered : (lease_sequence : ℕ) → StoredOutboxState
  exhausted : StoredOutboxState

pub record CommittedRecord : Type 0 where
  pub invitation_id : Bytes
  pub invitation_generation : Bytes
  pub join_request_id : Bytes
  pub request_fingerprint : Bytes
  pub group_id : Bytes
  pub epoch_before : ℕ
  pub epoch_after : ℕ
  pub approval_record : Bytes
  pub mls_state : Bytes
  pub welcome_envelope : Bytes
  pub deposit_endpoint : Bytes
  pub outbox_expires_at : ℕ
  pub outbox : StoredOutboxState
  pub delivery_attempts : ℕ

pub record InviterJoinStore : Type 0 where
  pub policy : TransactionPolicy
  pub lease_scope : ℕ
  pub next_lease_sequence : ℕ
  pub reservations : Map ReservationRecord
  pub retired_reservations : List RetiredReservation
  pub commits : Map CommittedRecord

abbrev pub hard_maximum_transactions : ℕ
hard_maximum_transactions = 4096

abbrev pub hard_maximum_retired_reservations : ℕ
hard_maximum_retired_reservations = hard_maximum_transactions

abbrev pub hard_maximum_group_id_bytes : ℕ
hard_maximum_group_id_bytes = 255

abbrev pub hard_maximum_approval_bytes : ℕ
hard_maximum_approval_bytes = 4096

abbrev pub hard_maximum_mls_state_bytes : ℕ
hard_maximum_mls_state_bytes = 2097152

abbrev pub hard_maximum_welcome_bytes : ℕ
hard_maximum_welcome_bytes = 65536

abbrev pub hard_maximum_endpoint_bytes : ℕ
hard_maximum_endpoint_bytes = 4096

abbrev pub hard_maximum_delivery_attempts : ℕ
hard_maximum_delivery_attempts = 32

abbrev pub hard_maximum_lease_seconds : ℕ
hard_maximum_lease_seconds = 3600
