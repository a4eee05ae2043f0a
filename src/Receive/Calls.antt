-- ===== src/Receive/Calls.antt =====
-- The methods on `&mut self` of the owner, and its restart, as one step function, and runs of them.
use session_chat.Prelude.{ℕ, ◌≡◌, List, [], ◌∷◌}
use session_chat.Prelude.Outcome.{ok}
use session_chat.Receive.Binding.{CursorBindingV1}
use session_chat.Receive.Checkpoint.{
  ResynchronizationRequestV1, ReceivePageCommitV1, successor, intent_of,
}
use session_chat.Receive.State.{
  ReceiveOwner, CommittedReceivePageV1, AcknowledgementLeaseV1, restart, record_resynchronization,
}
use session_chat.Receive.Commit.{commit_receive_page}
use session_chat.Receive.Leasing.{
  lease_acknowledgement, recover_acknowledgement, accept_acknowledgement, release_acknowledgement,
}

pub data Call : Type 0 where
  restarts : Call
  resynchronizes : ResynchronizationRequestV1 → Call
  commits : ReceivePageCommitV1 → Call
  leases : CommittedReceivePageV1 → Call
  recovers : CursorBindingV1 → Call
  accepts : AcknowledgementLeaseV1 → Call
  releases : AcknowledgementLeaseV1 → Call

-- A call at its time, with the owner that it leaves.
unfoldable pub step : ReceiveOwner → ℕ × Call → ReceiveOwner
step o (now, restarts) = restart o
step o (now, resynchronizes request) = (record_resynchronization o request now).0
step o (now, commits page) = (commit_receive_page o page now).0
step o (now, leases committed) = (lease_acknowledgement o committed now).0
step o (now, recovers binding) = (recover_acknowledgement o binding now).0
step o (now, accepts lease) = (accept_acknowledgement o lease).0
step o (now, releases lease) = (release_acknowledgement o lease).0

unfoldable pub run : ReceiveOwner → List (ℕ × Call) → ReceiveOwner
run o [] = o
run o (call ∷ calls) = run (step o call) calls

-- The intent of a page is that of its items, as `ReceivePageCommitV1::new` makes it.
pub record IsPage (page : ReceivePageCommitV1) : Type 0 where
  pub intent : intent_of page.items ≡ ok page.acknowledgement_intent

-- The successor of a request is that of its checkpoint, as `ResynchronizationRequestV1::new` makes it.
pub record IsRequest (r : ResynchronizationRequestV1) : Type 0 where
  pub next : successor r.expected_checkpoint.revision ≡ ok r.successor_revision

-- The arguments of the call are values that their constructors made.
abbrev pub IsMade : Call → Type 0
IsMade restarts = Unit {0}
IsMade (resynchronizes request) = IsRequest request
IsMade (commits page) = IsPage page
IsMade (leases committed) = Unit {0}
IsMade (recovers binding) = Unit {0}
IsMade (accepts lease) = Unit {0}
IsMade (releases lease) = Unit {0}
