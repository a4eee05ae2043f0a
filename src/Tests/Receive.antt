-- ===== src/Tests/Receive.antt =====
-- The owner of receive state at a concrete page.
use session_chat.Prelude.{
  ℕ, ◌+◌, ◌-◌, ◌≡◌, ◌≢◌, ◌≤◌, ◌<◌, inr, refl, arith, List, ◌∷◌, [], false, none, some, any,
  checked_add,
}
use session_chat.Prelude.Outcome.{ok, is_ok}
use session_chat.Prelude.Bytes.{Bytes-discrete}
use session_chat.Prelude.Map.{lookup}
use session_chat.Transport.Contract.{OperationBudget, cursor_new}
use session_chat.Receive.Binding.{
  BoundCursorV1, CursorBindingV1, fast_v1, same_binding, generation_successor,
}
use session_chat.Receive.Rotation.{
  LifecycleProviderContractV1, RotationRequestV1, routine, MailboxAuthoritySetV1,
  MailboxRotationResultV1, rotation_new, validate_rotation_request, rotation_result_new,
}
use session_chat.Receive.Page.{ReceivedCanonicalEnvelope, bounded_ids_new, has_repeat}
use session_chat.Receive.Checkpoint.{ReceiveCheckpointV1, ReceivePageCommitV1, successor}
use session_chat.Receive.Checkpoint
use session_chat.Receive.State.{
  ReceiveOwner, CommittedReceivePageV1, AcknowledgementLeaseV1, new, restart, load_checkpoint,
  stored,
}
use session_chat.Receive.Commit.{commit_checks, commit_receive_page, deduplicate}
use session_chat.Receive.Leasing.{recover_acknowledgement}
use session_chat.Receive.Calls.{Call, commits, restarts, run, IsPage}
use session_chat.Receive.Backed.{IsBacked, IsRetained, run-new-IsBacked}
use session_chat.Receive.Inbox.{replay, view, run_refines}
use session_chat.Receive.Recovery.{
  lease-IsRetained, recover-restart-commit, position_after, work_after,
}
use session_chat.Receive.Revisions.{commit_once}
use session_chat.Receive.Bounds.{rotation-moves}
use session_chat.Tests.Instances.{repeat}

abbrev binding : CursorBindingV1
binding = record {
  profile = fast_v1;
  binding_fingerprint = repeat 32 1;
  continuity_id = repeat 16 2;
  generation = 1;
  receive_scope = repeat 32 3;
  cursor_schema = 2;
  provider_state_epoch = 1;
  expires_at = 900;
}

abbrev checkpoint : ReceiveCheckpointV1
checkpoint = record {
  binding = binding;
  revision = 1;
  position = Checkpoint.ReceiveCheckpointPositionV1.new_generation;
}

abbrev item : ReceivedCanonicalEnvelope
item = record {
  delivery_id = repeat 16 4;
  envelope = record { bytes = 5 ∷ 6 ∷ []; envelope_id = repeat 16 7; expires_at = 800 };
}

abbrev page : ReceivePageCommitV1
page = record {
  expected_checkpoint = checkpoint;
  items = item ∷ [];
  next_cursor = some (record { cursor = 8 ∷ []; binding = binding });
  acknowledgement_intent = some (repeat 16 4 ∷ []);
}

page-IsPage : IsPage page
unfolding bounded_ids_new has_repeat any
page-IsPage = record { intent = refl }

abbrev first : ReceiveOwner
first = record {
  owner = 0;
  allocations = 1;
  next_commit_nonce = 1;
  stored = [];
  checkpoint = none;
  recoverable = none;
  valid_commit = none;
  leased = none;
}

abbrev page_committed : CommittedReceivePageV1
page_committed = record {
  owner = 0;
  nonce = 1;
  revision = 2;
  binding = binding;
  outcomes = stored ∷ [];
  acknowledgement_intent = some (repeat 16 4 ∷ []);
}

commits_page : (commit_receive_page first page 100).1 ≡ ok page_committed
unfolding commit_receive_page commit_checks successor checked_add deduplicate bounded_ids_new
    has_repeat any lookup
commits_page = refl

abbrev calls : List (ℕ × Call)
calls = (100, commits page) ∷ (110, restarts) ∷ (120, commits page) ∷ []

run-new-IsBacked_example : IsBacked (run new calls)
run-new-IsBacked_example = run-new-IsBacked calls (page-IsPage, (tt, (page-IsPage, tt)))

run_refines_example :
    lookup (repeat 16 4) (run first calls).stored ≡ replay first calls (view first) (repeat 16 4)
run_refines_example = run_refines first calls (page-IsPage, (tt, (page-IsPage, tt))) (repeat 16 4)

commit_once_example :
    let o = run (commit_receive_page first page 100).0 ((110, restarts) ∷ []) in
    ((commit_receive_page o page 130).0 ≡ o) × (is_ok (commit_receive_page o page 130).1 ≡ false)
commit_once_example =
    commit_once first page page 100 130 page_committed ((110, restarts) ∷ []) commits_page (tt, tt)
      (omega arith)

valid_cursor :
    (cursor : BoundCursorV1)
    → page.next_cursor ≡ some cursor
    → (cursor.binding ≡ binding) × (cursor_new cursor.cursor ≡ ok cursor.cursor)
unfolding cursor_new
valid_cursor cursor h = ground (arith, h)

recover-restart-commit_example :
    let restarted = restart (commit_receive_page first page 100).0 in
    (load_checkpoint restarted binding 150
      ≡ ok (
          some (record {
            binding = binding;
            revision = 1 + 1;
            position = position_after page.next_cursor;
          })))
    × ((recover_acknowledgement restarted binding 150).1 ≡ ok (work_after 2 binding page.items))
recover-restart-commit_example =
    recover-restart-commit first page 100 150 page_committed page-IsPage valid_cursor commits_page
      (omega arith)

abbrev work : ReceiveOwner
work = record first {
  stored = (repeat 16 4, 5 ∷ 6 ∷ []) ∷ [];
  recoverable = some (binding, repeat 16 4 ∷ []);
}

work-IsBacked : IsBacked work
unfolding lookup Bytes-discrete bounded_ids_new has_repeat any
work-IsBacked = record { backed = tt; work_retained = ((refl, tt), refl); within = omega arith }

abbrev lease : AcknowledgementLeaseV1
lease = record { identity = 1; binding = binding; delivery_ids = repeat 16 4 ∷ [] }

recovers_work : (recover_acknowledgement work binding 150).1 ≡ ok (some lease)
unfolding recover_acknowledgement same_binding bounded_ids_new has_repeat any Bytes-discrete
recovers_work = refl

lease-IsRetained_example :
    (work.recoverable ≡ some (binding, repeat 16 4 ∷ []))
    × IsRetained work.stored (repeat 16 4 ∷ [])
lease-IsRetained_example =
    lease-IsRetained work page_committed binding 150 lease work-IsBacked (inr recovers_work)

abbrev contract : LifecycleProviderContractV1
contract = record { profile = fast_v1; cursor_schema = 2; maximum_routine_drain = 300 }

abbrev budget : OperationBudget
budget = record { deadline = 1000; max_network_bytes = 4096; max_attempts = 1 }

abbrev request : RotationRequestV1
request = record {
  rotation_id = repeat 16 9;
  predecessor = binding;
  successor_generation = 2;
  mode = routine 400;
  successor_expires_at = 1800;
  budget = budget;
}

-- The rights of a provider are numbers here.
abbrev authorities : MailboxAuthoritySetV1 ℕ ℕ ℕ ℕ
authorities = record {
  binding = record binding { generation = 2; receive_scope = repeat 32 10; expires_at = 1800 };
  deposit = 1;
  receive = 2;
  acknowledgement = 3;
  rotation = 4;
}

abbrev result : MailboxRotationResultV1 ℕ ℕ ℕ ℕ
result = record {
  lifecycle_contract = contract;
  rotation_id = repeat 16 9;
  predecessor_generation = 1;
  mode = routine 400;
  authorities = authorities;
}

makes_request : rotation_new (repeat 16 9) binding (routine 400) 1800 budget ≡ ok request
unfolding rotation_new generation_successor checked_add
makes_request = refl

rotates : rotation_result_new contract request authorities 200 ≡ ok result
unfolding rotation_result_new validate_rotation_request Bytes-discrete
rotates = refl

rotation-moves_example :
    (authorities.binding.generation ≡ 1 + 1)
    × (repeat 16 2 ≡ binding.continuity_id)
    × (repeat 32 10 ≢ binding.receive_scope)
    × (authorities.binding.expires_at ≡ 1800)
    × (200 < 900)
    × ((until : ℕ)
        → routine 400 ≡ routine until
        → (200 < until) × (until ≤ 900) × (until < 1800) × (until - 200 ≤ 300))
rotation-moves_example =
    rotation-moves contract (repeat 16 9) binding (routine 400) 1800 200 budget request authorities
      result makes_request rotates
