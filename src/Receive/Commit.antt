-- ===== src/Receive/Commit.antt =====
-- crates/transport-conformance/src/receive_owner.rs: the commit of a received page.
use session_chat.Prelude.{
  ℕ, ◌+◌, List, [], ◌∷◌, ◌&&◌, ◌||◌, not, Option, none, some, ltb, leb, if◌then◌else◌, is_none,
  length, checked_add, saturating_add,
}
use session_chat.Prelude.Outcome.{Result, ok, err, ◌>>=◌, ◌>>◌, reject_if, ok_or, map_err}
use session_chat.Prelude.Bytes.{Bytes, same}
use session_chat.Prelude.Map.{Map, lookup, insert}
use session_chat.Receive.Binding.{CursorBindingV1, BoundCursorV1}
use session_chat.Receive.Page.{ReceivedCanonicalEnvelope, bounded_ids_new, ids_of}
use session_chat.Receive.Checkpoint.{ReceivePageCommitV1, successor}
use session_chat.Receive.State.{
  DeterministicReceiveStateErrorV1, failed, DeduplicationOutcomeV1, stored, duplicate,
  CommittedReceivePageV1, PersistedCheckpointPosition, resume, committed_page_without_cursor,
  ReceiveOwner, checkpoint_matches,
}

-- What a page adds, with its outcome for each item.
abbrev pub classify :
    Map Bytes
    → ReceivedCanonicalEnvelope
    → Result DeterministicReceiveStateErrorV1 DeduplicationOutcomeV1
classify kept item = elim (lookup item.delivery_id kept) [
  | none ↦ ok stored
  | some bytes ↦ if same bytes item.envelope.bytes then ok duplicate else err failed
]

abbrev pub added :
    DeduplicationOutcomeV1 → ReceivedCanonicalEnvelope → List (Bytes × Bytes) → List (Bytes × Bytes)
added duplicate item additions = additions
added stored item additions = (item.delivery_id, item.envelope.bytes) ∷ additions

unfoldable pub deduplicate :
    Map Bytes
    → List ReceivedCanonicalEnvelope
    → Result DeterministicReceiveStateErrorV1 (List DeduplicationOutcomeV1 × List (Bytes × Bytes))
deduplicate kept [] = ok ([], [])
deduplicate kept (item ∷ items) =
    let rest = deduplicate kept items in
    classify kept item >>= λ outcome.
    rest >>= λ found. ok (outcome ∷ found.0, added outcome item found.1)

abbrev pub total_bytes : List (Bytes × Bytes) → ℕ
total_bytes [] = 0
total_bytes ((id, bytes) ∷ entries) = length bytes + total_bytes entries

abbrev pub insert_all : List (Bytes × Bytes) → Map Bytes → Map Bytes
insert_all [] kept = kept
insert_all ((id, bytes) ∷ additions) kept = insert_all additions (insert id bytes kept)

-- The checks of a page commit, none of which changes the owner: the outcomes, the additions, the next
-- revision and the next nonce.
unfoldable pub commit_checks :
    ReceiveOwner
    → ReceivePageCommitV1
    → ℕ
    → Result DeterministicReceiveStateErrorV1
        ((List DeduplicationOutcomeV1 × List (Bytes × Bytes)) × ℕ × ℕ)
commit_checks o page now = do
  let expected = page.expected_checkpoint
  reject_if
      (leb expected.binding.expires_at now
        || (not (is_none o.recoverable)
            || (not (is_none o.leased)
                || (not (is_none o.checkpoint) && not (checkpoint_matches o expected)))))
      failed
  next_revision ← map_err (λ e. failed) (successor expected.revision)
  found ← deduplicate o.stored page.items
  reject_if
      (ltb 64 (saturating_add (length o.stored) (length found.1))
        || ltb 4194304 (saturating_add (total_bytes o.stored) (total_bytes found.1)))
      failed
  next_nonce ← ok_or (checked_add o.next_commit_nonce 1) failed
  ok (found, next_revision, next_nonce)

abbrev pub next_position : Option BoundCursorV1 → PersistedCheckpointPosition
next_position none = committed_page_without_cursor
next_position (some cursor) = resume cursor.cursor

-- `copy_ids`
abbrev pub copy_ids : List Bytes → Result DeterministicReceiveStateErrorV1 (List Bytes)
copy_ids ids = map_err (λ e. failed) (bounded_ids_new ids)

abbrev pub recoverable_of :
    CursorBindingV1
    → Option (List Bytes)
    → Result DeterministicReceiveStateErrorV1 (Option (CursorBindingV1 × List Bytes))
recoverable_of binding none = ok none
recoverable_of binding (some ids) = copy_ids ids >>= λ copied. ok (some (binding, copied))

unfoldable pub commit_receive_page :
    ReceiveOwner
    → ReceivePageCommitV1
    → ℕ
    → ReceiveOwner × Result DeterministicReceiveStateErrorV1 CommittedReceivePageV1
commit_receive_page o page now = elim (commit_checks o page now) [
  | err e ↦ (o, err e)
  | ok (found, next_revision, next_nonce) ↦
      let binding = page.expected_checkpoint.binding in
      let written = record o {
        stored = insert_all found.1 o.stored;
        next_commit_nonce = next_nonce;
        checkpoint = some (record {
          binding = binding;
          revision = next_revision;
          position = next_position page.next_cursor;
        });
      } in
      elim (recoverable_of binding page.acknowledgement_intent) [
        | err e ↦ (written, err e)
        | ok recoverable ↦ (
          record written {
            recoverable = recoverable;
            valid_commit = some (record {
              nonce = o.next_commit_nonce;
              revision = next_revision;
              binding = binding;
              delivery_ids = ids_of page.items;
            });
          },
          ok (record {
            owner = o.owner;
            nonce = o.next_commit_nonce;
            revision = next_revision;
            binding = binding;
            outcomes = found.0;
            acknowledgement_intent = page.acknowledgement_intent;
          }),
        )
      ]
]
