-- ===== src/Transport/Contract.antt =====
-- crates/session-transport/src/contract.rs: the values of the contract, each with its constructor. A
-- `Duration` is its number of nanoseconds, and an `Instant` the nanoseconds since its clock's origin.
use session_chat.Prelude.{ℕ, ◌*◌, ◌||◌, ltb, ◌==◌, if◌then◌else◌, length, is_empty}
use session_chat.Prelude.Outcome.{Result, ok, err, ◌>>=◌, map_err}
use session_chat.Prelude.Bytes.{Bytes, all_zero}
use session_chat.Protocol.Cbor.{Cbor}
use session_chat.Protocol.Envelope.{OpaqueEnvelope, encode_canonical, decode_canonical}

abbrev pub nanos_per_second : ℕ
nanos_per_second = 1000000000

-- `Duration::from_secs`
abbrev pub from_secs : ℕ → ℕ
from_secs seconds = seconds * nanos_per_second

abbrev pub max_cursor_bytes : ℕ
max_cursor_bytes = 256

abbrev pub max_poll_wait_seconds : ℕ
max_poll_wait_seconds = 60

abbrev pub max_poll_envelopes : ℕ
max_poll_envelopes = 64

abbrev pub max_poll_encoded_bytes : ℕ
max_poll_encoded_bytes = 4194304

abbrev pub max_retry_delay_seconds : ℕ
max_retry_delay_seconds = 3600

pub data TransportContractError : Type 0 where
  unsupported_profile invalid_adapter_id invalid_envelope : TransportContractError
  invalid_operation_budget invalid_cursor invalid_poll_wait : TransportContractError
  invalid_poll_request invalid_deposit_request : TransportContractError
  invalid_acknowledgement_batch invalid_receive_batch : TransportContractError
  expired_received_envelope invalid_retry_delay : TransportContractError

pub data RetryAdvice : Type 0 where
  never backoff : RetryAdvice
  after : (delay : ℕ) → RetryAdvice

pub data TransportFailureCode : Type 0 where
  invalid_authority authority_scope_mismatch expired_envelope : TransportFailureCode
  envelope_too_large idempotency_conflict invalid_cursor queue_full : TransportFailureCode
  rate_limited unavailable deadline_exceeded cancelled : TransportFailureCode
  corrupt_remote_response policy_violation misconfigured internal : TransportFailureCode

pub record TransportFailure : Type 0 where
  pub code : TransportFailureCode
  pub retry : RetryAdvice

-- `TransportFailure::new`
abbrev pub failure : TransportFailureCode → RetryAdvice → TransportFailure
failure code retry = record { code = code; retry = retry }

pub record CanonicalEnvelope : Type 0 where
  pub bytes : Bytes
  pub envelope_id : Bytes
  pub expires_at : ℕ

unfoldable pub from_validated :
    OpaqueEnvelope → Bytes → Result TransportContractError CanonicalEnvelope
from_validated e bytes =
    if all_zero e.envelope_id || e.expires_at == 0
    then err invalid_envelope
    else ok (record { bytes = bytes; envelope_id = e.envelope_id; expires_at = e.expires_at })

module _ (c : Cbor) where
  unfoldable pub from_opaque : OpaqueEnvelope → Result TransportContractError CanonicalEnvelope
  from_opaque e = do
    bytes ← map_err (λ _. invalid_envelope) (encode_canonical c e)
    from_validated e bytes

  unfoldable pub from_canonical_bytes : Bytes → Result TransportContractError CanonicalEnvelope
  from_canonical_bytes bytes = do
    e ← map_err (λ _. invalid_envelope) (decode_canonical c bytes)
    from_validated e bytes

pub record OperationBudget : Type 0 where
  pub deadline : ℕ
  pub max_network_bytes : ℕ
  pub max_attempts : ℕ

unfoldable pub budget_new : ℕ → ℕ → ℕ → Result TransportContractError OperationBudget
budget_new deadline network_bytes attempts =
    if network_bytes == 0 || attempts == 0
    then err invalid_operation_budget
    else ok
        (record { deadline = deadline; max_network_bytes = network_bytes; max_attempts = attempts })

pub record DepositRequest : Type 0 where
  pub envelope : CanonicalEnvelope
  pub budget : OperationBudget

unfoldable pub deposit_request_new :
    CanonicalEnvelope → OperationBudget → Result TransportContractError DepositRequest
deposit_request_new e budget =
    if ltb budget.max_network_bytes (length e.bytes)
    then err invalid_deposit_request
    else ok (record { envelope = e; budget = budget })

-- `Cursor::new` and `PollWait::up_to`; the wrappers are their contents.
unfoldable pub cursor_new : Bytes → Result TransportContractError Bytes
cursor_new bytes =
    if is_empty bytes || ltb max_cursor_bytes (length bytes)
    then err TransportContractError.invalid_cursor
    else ok bytes

unfoldable pub wait_up_to : ℕ → Result TransportContractError ℕ
wait_up_to duration =
    if ltb duration (from_secs 1) || ltb (from_secs max_poll_wait_seconds) duration
    then err invalid_poll_wait
    else ok duration

-- `BoundedRetryDelay::new`
unfoldable pub retry_delay_new : ℕ → Result TransportContractError ℕ
retry_delay_new duration =
    if duration == 0 || ltb (from_secs max_retry_delay_seconds) duration
    then err invalid_retry_delay
    else ok duration
