-- ===== src/Receive/Checkpoint.antt =====
-- crates/session-transport/src/receive_state.rs: the checkpoint of a poll, and the transitions that an
-- owner is asked for.
use session_chat.Prelude.{
  ℕ, Bool, true, false, ◌&&◌, Option, none, some, ◌==◌, leb, not, if◌then◌else◌, is_empty,
  checked_add, List,
}
use mathlib.Core.Option
use session_chat.Prelude.Outcome.{Result, ok, err, ◌>>=◌, ◌>>◌, reject_if, ok_or, map_err}
use session_chat.Prelude.Bytes.{Bytes, same}
use session_chat.Transport.Contract.{OperationBudget, cursor_new}
use session_chat.Receive.Binding.{CursorBindingV1, BoundCursorV1, same_binding}
use session_chat.Receive.Page.{
  PollRequest, ReceiveBatch, ReceivedCanonicalEnvelope, poll_request_new, bounded_ids_new, ids_of,
}

pub data ReceiveStateContractError : Type 0 where
  invalid_checkpoint_revision checkpoint_revision_exhausted : ReceiveStateContractError
  cursor_binding_mismatch receive_page_binding_mismatch : ReceiveStateContractError
  expired_cursor_binding invalid_receive_page : ReceiveStateContractError
  deduplication_outcome_cardinality_mismatch : ReceiveStateContractError

-- `ReceiveCheckpointRevision`; the wrapper is its number.
unfoldable pub revision_new : ℕ → Result ReceiveStateContractError ℕ
revision_new value = if value == 0 then err invalid_checkpoint_revision else ok value

unfoldable pub successor : ℕ → Result ReceiveStateContractError ℕ
successor revision = ok_or (checked_add revision 1) checkpoint_revision_exhausted

pub data ResynchronizationReasonV1 : Type 0 where
  invalid_cursor provider_state_reset : ResynchronizationReasonV1

-- `==` on reasons.
abbrev pub same_reason : ResynchronizationReasonV1 → ResynchronizationReasonV1 → Bool
same_reason invalid_cursor invalid_cursor = true
same_reason provider_state_reset provider_state_reset = true
same_reason _ _ = false

pub data ReceiveCheckpointPositionV1 : Type 0 where
  new_generation committed_page_without_cursor : ReceiveCheckpointPositionV1
  resume : BoundCursorV1 → ReceiveCheckpointPositionV1
  explicit_resynchronization : ResynchronizationReasonV1 → ReceiveCheckpointPositionV1

pub record ReceiveCheckpointV1 : Type 0 where
  pub binding : CursorBindingV1
  pub revision : ℕ
  pub position : ReceiveCheckpointPositionV1

pub data ReceivePollPositionBindingV1 : Type 0 where
  new_generation committed_page_without_cursor : ReceivePollPositionBindingV1
  resume : Bytes → ReceivePollPositionBindingV1
  explicit_resynchronization : ResynchronizationReasonV1 → ReceivePollPositionBindingV1

pub record ReceivePollBindingV1 : Type 0 where
  pub binding : CursorBindingV1
  pub revision : ℕ
  pub position : ReceivePollPositionBindingV1

-- A checkpoint at a position, when its binding is live.
abbrev pub checkpoint_at :
    ReceiveCheckpointPositionV1
    → CursorBindingV1
    → (revision now : ℕ) → Result ReceiveStateContractError ReceiveCheckpointV1
checkpoint_at position binding revision now =
    if leb binding.expires_at now
    then err expired_cursor_binding
    else ok (record { binding = binding; revision = revision; position = position })

unfoldable pub at_new_generation :
    CursorBindingV1 → (revision now : ℕ) → Result ReceiveStateContractError ReceiveCheckpointV1
at_new_generation = checkpoint_at ReceiveCheckpointPositionV1.new_generation

unfoldable pub at_resume :
    CursorBindingV1
    → BoundCursorV1
    → (revision now : ℕ) → Result ReceiveStateContractError ReceiveCheckpointV1
at_resume expected cursor revision now =
    if not (same_binding cursor.binding expected)
    then err cursor_binding_mismatch
    else checkpoint_at (ReceiveCheckpointPositionV1.resume cursor) expected revision now

unfoldable pub from_recorded_resynchronization :
    CursorBindingV1
    → ℕ
    → ResynchronizationReasonV1
    → ℕ
    → Result ReceiveStateContractError ReceiveCheckpointV1
from_recorded_resynchronization binding revision reason now =
    checkpoint_at (ReceiveCheckpointPositionV1.explicit_resynchronization reason) binding revision
      now

unfoldable pub at_committed_page :
    CursorBindingV1 → (revision now : ℕ) → Result ReceiveStateContractError ReceiveCheckpointV1
at_committed_page = checkpoint_at ReceiveCheckpointPositionV1.committed_page_without_cursor

abbrev pub poll_cursor : ReceiveCheckpointPositionV1 → Option Bytes
poll_cursor (ReceiveCheckpointPositionV1.resume cursor) = some cursor.cursor
poll_cursor _ = none

abbrev pub resynchronization_reason : ReceiveCheckpointPositionV1 → Option ResynchronizationReasonV1
resynchronization_reason (ReceiveCheckpointPositionV1.explicit_resynchronization r) = some r
resynchronization_reason _ = none

abbrev pub is_committed_page_without_cursor : ReceiveCheckpointPositionV1 → Bool
is_committed_page_without_cursor ReceiveCheckpointPositionV1.committed_page_without_cursor = true
is_committed_page_without_cursor _ = false

abbrev pub position_binding : ReceiveCheckpointPositionV1 → ReceivePollPositionBindingV1
position_binding ReceiveCheckpointPositionV1.new_generation =
    ReceivePollPositionBindingV1.new_generation
position_binding (ReceiveCheckpointPositionV1.resume cursor) =
    ReceivePollPositionBindingV1.resume cursor.cursor
position_binding ReceiveCheckpointPositionV1.committed_page_without_cursor =
    ReceivePollPositionBindingV1.committed_page_without_cursor
position_binding (ReceiveCheckpointPositionV1.explicit_resynchronization r) =
    ReceivePollPositionBindingV1.explicit_resynchronization r

-- `ReceivePollBindingV1::from_checkpoint`
abbrev pub poll_binding : ReceiveCheckpointV1 → ReceivePollBindingV1
poll_binding k = record {
  binding = k.binding;
  revision = k.revision;
  position = position_binding k.position;
}

-- `==` on positions, and on the bindings of polls.
abbrev pub same_position : ReceivePollPositionBindingV1 → ReceivePollPositionBindingV1 → Bool
same_position ReceivePollPositionBindingV1.new_generation
      ReceivePollPositionBindingV1.new_generation =
    true
same_position (ReceivePollPositionBindingV1.resume a) (ReceivePollPositionBindingV1.resume b) =
    same a b
same_position ReceivePollPositionBindingV1.committed_page_without_cursor
      ReceivePollPositionBindingV1.committed_page_without_cursor =
    true
same_position (ReceivePollPositionBindingV1.explicit_resynchronization a)
      (ReceivePollPositionBindingV1.explicit_resynchronization b) =
    same_reason a b
same_position _ _ = false

abbrev pub same_poll : ReceivePollBindingV1 → ReceivePollBindingV1 → Bool
same_poll a b =
    same_binding a.binding b.binding
    && (a.revision == b.revision && same_position a.position b.position)

unfoldable pub ensure_live : ReceiveCheckpointV1 → ℕ → Result ReceiveStateContractError (Unit {0})
ensure_live k now = reject_if (leb k.binding.expires_at now) expired_cursor_binding

-- `cursor.map(Cursor::new).transpose()`
abbrev pub copied_cursor : Option Bytes → Result ReceiveStateContractError (Option Bytes)
copied_cursor none = ok none
copied_cursor (some bytes) =
    map_err (λ e. invalid_receive_page) (cursor_new bytes) >>= λ cursor. ok (some cursor)

unfoldable pub poll_request :
    ReceiveCheckpointV1
    → (max_envelopes max_encoded_bytes wait : ℕ) → OperationBudget
    → ℕ
    → Result ReceiveStateContractError (PollRequest ReceivePollBindingV1)
poll_request k max_envelopes max_encoded_bytes wait budget now = do
  ensure_live k now
  cursor ← copied_cursor (poll_cursor k.position)
  request ←
      map_err (λ e. invalid_receive_page)
        (poll_request_new cursor max_envelopes max_encoded_bytes wait budget)
  ok (record request { receive_binding = some (poll_binding k) })

pub record ResynchronizationRequestV1 : Type 0 where
  pub expected_checkpoint : ReceiveCheckpointV1
  pub reason : ResynchronizationReasonV1
  pub successor_revision : ℕ

unfoldable pub resynchronization_new :
    ReceiveCheckpointV1
    → ResynchronizationReasonV1
    → ℕ
    → Result ReceiveStateContractError ResynchronizationRequestV1
resynchronization_new expected reason now = do
  ensure_live expected now
  next ← successor expected.revision
  ok (record { expected_checkpoint = expected; reason = reason; successor_revision = next })

pub record ReceivePageCommitV1 : Type 0 where
  pub expected_checkpoint : ReceiveCheckpointV1
  pub items : List ReceivedCanonicalEnvelope
  pub next_cursor : Option BoundCursorV1
  pub acknowledgement_intent : Option (List Bytes)

abbrev pub is_poll_of : ReceiveCheckpointV1 → Option ReceivePollBindingV1 → Bool
is_poll_of k none = false
is_poll_of k (some b) = same_poll b (poll_binding k)

abbrev pub intent_of :
    List ReceivedCanonicalEnvelope → Result ReceiveStateContractError (Option (List Bytes))
intent_of items =
    if is_empty items
    then ok none
    else map_err (λ e. invalid_receive_page) (bounded_ids_new (ids_of items)) >>= λ ids.
        ok (some ids)

unfoldable pub page_commit_new :
    ReceiveCheckpointV1
    → ReceiveBatch ReceivePollBindingV1
    → Result ReceiveStateContractError ReceivePageCommitV1
page_commit_new expected batch = do
  reject_if (not (is_poll_of expected batch.receive_binding)) receive_page_binding_mismatch
  intent ← intent_of batch.items
  ok (record {
    expected_checkpoint = expected;
    items = batch.items;
    next_cursor =
        Option.map (λ cursor. record { cursor = cursor; binding = expected.binding })
          batch.next_cursor;
    acknowledgement_intent = intent;
  })
