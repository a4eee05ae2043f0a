-- ===== src/Receive/State.antt =====
-- crates/transport-conformance/src/receive_owner.rs: the deterministic owner of receive state, and its
-- checkpoint. The identity of an `Arc<()>` is the number of its allocation, counted in the owner.
use session_chat.Prelude.{
  ℕ, suc, List, [], ◌∷◌, Bool, true, false, ◌&&◌, ◌||◌, not, Option, none, some, ◌==◌, leb,
  if◌then◌else◌, is_none,
}
use session_chat.Prelude.Outcome.{Result, ok, err, ◌>>=◌, map_err}
use session_chat.Prelude.Bytes.{Bytes, same}
use session_chat.Prelude.Map.{Map}
use session_chat.Transport.Contract.{cursor_new}
use session_chat.Receive.Binding.{CursorBindingV1, same_binding}
use session_chat.Receive.Checkpoint.{
  ResynchronizationReasonV1, same_reason, ReceiveCheckpointPositionV1, ReceiveCheckpointV1,
  ResynchronizationRequestV1, at_resume, at_committed_page, from_recorded_resynchronization,
  poll_cursor, resynchronization_reason, is_committed_page_without_cursor,
}

pub data DeterministicReceiveStateErrorV1 : Type 0 where
  failed : DeterministicReceiveStateErrorV1

pub data DeduplicationOutcomeV1 : Type 0 where
  stored duplicate : DeduplicationOutcomeV1

pub record CommittedReceivePageV1 : Type 0 where
  pub owner : ℕ
  pub nonce : ℕ
  pub revision : ℕ
  pub binding : CursorBindingV1
  pub outcomes : List DeduplicationOutcomeV1
  pub acknowledgement_intent : Option (List Bytes)

pub data PersistedCheckpointPosition : Type 0 where
  resume : Bytes → PersistedCheckpointPosition
  committed_page_without_cursor : PersistedCheckpointPosition
  explicit_resynchronization : ResynchronizationReasonV1 → PersistedCheckpointPosition

pub record PersistedCheckpoint : Type 0 where
  pub binding : CursorBindingV1
  pub revision : ℕ
  pub position : PersistedCheckpointPosition

pub record CommitEvidence : Type 0 where
  pub nonce : ℕ
  pub revision : ℕ
  pub binding : CursorBindingV1
  pub delivery_ids : List Bytes

-- A lease, and the evidence of it that the owner keeps: they have the same fields.
pub record AcknowledgementLeaseV1 : Type 0 where
  pub identity : ℕ
  pub binding : CursorBindingV1
  pub delivery_ids : List Bytes

pub record ReceiveOwner : Type 0 where
  pub owner : ℕ
  pub allocations : ℕ
  pub next_commit_nonce : ℕ
  pub stored : Map Bytes
  pub checkpoint : Option PersistedCheckpoint
  pub recoverable : Option (CursorBindingV1 × List Bytes)
  pub valid_commit : Option CommitEvidence
  pub leased : Option AcknowledgementLeaseV1

unfoldable pub new : ReceiveOwner
new = record {
  owner = 0;
  allocations = 1;
  next_commit_nonce = 1;
  stored = [];
  checkpoint = none;
  recoverable = none;
  valid_commit = none;
  leased = none;
}

unfoldable pub restart : ReceiveOwner → ReceiveOwner
restart o = record o {
  owner = o.allocations;
  allocations = suc o.allocations;
  valid_commit = none;
  leased = none;
}

abbrev pub matches_position : PersistedCheckpointPosition → ReceiveCheckpointPositionV1 → Bool
matches_position (resume cursor) p = elim (poll_cursor p) [
  | none ↦ false
  | some candidate ↦ same candidate cursor
]
matches_position committed_page_without_cursor p = is_committed_page_without_cursor p
matches_position (explicit_resynchronization reason) p = elim (resynchronization_reason p) [
  | none ↦ false
  | some r ↦ same_reason r reason
]

abbrev pub matches : PersistedCheckpoint → ReceiveCheckpointV1 → Bool
matches kept k =
    same_binding kept.binding k.binding
    && (kept.revision == k.revision && matches_position kept.position k.position)

unfoldable pub checkpoint_matches : ReceiveOwner → ReceiveCheckpointV1 → Bool
checkpoint_matches o k = elim o.checkpoint [ none ↦ false | some kept ↦ matches kept k ]

-- `==` on lists of identifiers.
unfoldable pub same_ids : List Bytes → List Bytes → Bool
same_ids [] [] = true
same_ids [] (y ∷ ys) = false
same_ids (x ∷ xs) [] = false
same_ids (x ∷ xs) (y ∷ ys) = same x y && same_ids xs ys

abbrev pub reload :
    PersistedCheckpoint → ℕ → Result DeterministicReceiveStateErrorV1 ReceiveCheckpointV1
reload kept now = elim kept.position [
  | resume cursor ↦ map_err (λ e. failed) (cursor_new cursor) >>= λ copied.
      map_err (λ e. failed)
        (at_resume kept.binding (record { cursor = copied; binding = kept.binding }) kept.revision
          now)
  | committed_page_without_cursor ↦
      map_err (λ e. failed) (at_committed_page kept.binding kept.revision now)
  | explicit_resynchronization reason ↦
      map_err (λ e. failed) (from_recorded_resynchronization kept.binding kept.revision reason now)
]

unfoldable pub load_checkpoint :
    ReceiveOwner
    → CursorBindingV1
    → ℕ
    → Result DeterministicReceiveStateErrorV1 (Option ReceiveCheckpointV1)
load_checkpoint o binding now =
    if leb binding.expires_at now then err failed else elim o.checkpoint [
      | none ↦ ok none
      | some kept ↦
          if same_binding kept.binding binding
          then (reload kept now >>= λ k. ok (some k))
          else ok none
    ]

unfoldable pub record_resynchronization :
    ReceiveOwner
    → ResynchronizationRequestV1
    → ℕ
    → ReceiveOwner × Result DeterministicReceiveStateErrorV1 ReceiveCheckpointV1
record_resynchronization o request now =
    let expected = request.expected_checkpoint in
    if leb expected.binding.expires_at now
      || (not (checkpoint_matches o expected)
          || (not (is_none o.recoverable) || not (is_none o.leased)))
    then (o, err failed)
    else (
      record o {
        checkpoint = some (record {
          binding = expected.binding;
          revision = request.successor_revision;
          position = explicit_resynchronization request.reason;
        });
      },
      map_err (λ e. failed)
          (from_recorded_resynchronization expected.binding request.successor_revision
            request.reason now),
    )
