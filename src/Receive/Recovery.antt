-- ===== src/Receive/Recovery.antt =====
-- What a committed page survives: a crash, a restart, and a second commit from the same checkpoint.
use session_chat.Prelude.{
  ℕ, ◌+◌, ◌<◌, ◌≡◌, refl, ap, ◌∙◌, List, [], ◌∷◌, true, Option, none, some, arith, inl, inr, ◌⊎◌,
  Option-cases,
}
use session_chat.Prelude.Outcome.{ok, Result-cases}
use session_chat.Prelude.Bytes.{Bytes, same_refl}
use session_chat.Transport.Contract.{cursor_new}
use session_chat.Receive.Binding.{
  CursorBindingV1, BoundCursorV1, TransportProfileId, same_profile, same_binding,
}
use session_chat.Receive.Page.{ReceivedCanonicalEnvelope, ids_of}
use session_chat.Receive.Checkpoint.{
  intent_of, ReceivePageCommitV1, ReceiveCheckpointPositionV1, at_resume, at_committed_page,
}
use session_chat.Receive.State.{
  ReceiveOwner, CommittedReceivePageV1, AcknowledgementLeaseV1, restart, load_checkpoint,
}
use session_chat.Receive.Commit.{commit_checks, commit_receive_page}
use session_chat.Receive.Leasing.{lease_acknowledgement, recover_acknowledgement}
use session_chat.Receive.Backed.{
  IsBacked, IsRetained, commit_checks-IsChecked, intent_cases, recoverable_is,
}
use session_chat.Receive.Calls.{IsPage}

same_profile_refl : (p : TransportProfileId) → same_profile p p ≡ true
same_profile_refl TransportProfileId.local_v1 = refl
same_profile_refl TransportProfileId.fast_v1 = refl
same_profile_refl TransportProfileId.private_interactive_v1 = refl
same_profile_refl TransportProfileId.private_mixnet_v1 = refl
same_profile_refl TransportProfileId.off_grid_v1 = refl

pub same_binding_refl : (b : CursorBindingV1) → same_binding b b ≡ true
unfolding same_binding
same_binding_refl b = ground (
  arith,
  same_profile_refl b.profile,
  same_refl b.binding_fingerprint,
  same_refl b.continuity_id,
  same_refl b.receive_scope,
)

-- In an owner that keeps the invariant, an acknowledgement lease, granted for a committed page or recovered, is the work
-- that can be recovered, and each of its envelopes is retained.
pub lease-IsRetained :
    (o : ReceiveOwner) (committed : CommittedReceivePageV1) (binding : CursorBindingV1) (now : ℕ)
    (lease : AcknowledgementLeaseV1)
    → IsBacked o
    → ((lease_acknowledgement o committed now).1 ≡ ok (some lease))
      ⊎ ((recover_acknowledgement o binding now).1 ≡ ok (some lease))
    → (o.recoverable ≡ some (lease.binding, lease.delivery_ids))
      × IsRetained o.stored lease.delivery_ids
unfolding lease_acknowledgement recover_acknowledgement
lease-IsRetained o committed binding now lease h (inl e) =
    elim (Option-cases committed.acknowledgement_intent) [
      | inl q ↦ absurd (ground (arith, q, e))
      | inr (ids, q) ↦ ground (arith, q, e, recoverable_is o committed.binding ids, h.work_retained)
    ]
lease-IsRetained o committed binding now lease h (inr e) = elim (Option-cases o.recoverable) [
  | inl q ↦ absurd (ground (arith, q, e))
  | inr ((kept, ids), q) ↦ ground (arith, q, e, h.work_retained)
]

-- The checkpoint behind a committed page: a resumption at its cursor, or a page without one.
abbrev pub position_after : Option BoundCursorV1 → ReceiveCheckpointPositionV1
position_after none = ReceiveCheckpointPositionV1.committed_page_without_cursor
position_after (some cursor) = ReceiveCheckpointPositionV1.resume cursor

-- The lease that is recovered for a page: none for a page without items.
abbrev pub work_after :
    ℕ → CursorBindingV1 → List ReceivedCanonicalEnvelope → Option AcknowledgementLeaseV1
work_after identity binding [] = none
work_after identity binding (item ∷ items) =
    some (record { identity = identity; binding = binding; delivery_ids = ids_of (item ∷ items) })

work_after_intent :
    (identity : ℕ) (binding : CursorBindingV1) (items : List ReceivedCanonicalEnvelope)
    (ids : List Bytes)
    → intent_of items ≡ ok (some ids)
    → work_after identity binding items
      ≡ some (record { identity = identity; binding = binding; delivery_ids = ids_of items })
work_after_intent identity binding [] ids h = absurd (ground (arith, h))
work_after_intent identity binding (item ∷ items) ids h = refl

-- Any page that was committed, whose cursor, if it has one, is well formed and bound to its mailbox,
-- survives a crash: after a restart, and before the mailbox expires, the owner reloads the checkpoint
-- behind the page at the next revision, a resumption at the page's cursor or a committed page without
-- one, and recovers the lease for exactly the page's items, or none when it has no items.
pub recover-restart-commit :
    (o : ReceiveOwner) (page : ReceivePageCommitV1) (now later : ℕ)
    (committed : CommittedReceivePageV1)
    → let binding = page.expected_checkpoint.binding in
      IsPage page
      → ((cursor : BoundCursorV1)
          → page.next_cursor ≡ some cursor
          → (cursor.binding ≡ binding) × (cursor_new cursor.cursor ≡ ok cursor.cursor))
      → (commit_receive_page o page now).1 ≡ ok committed
      → later < binding.expires_at
      → let restarted = restart (commit_receive_page o page now).0 in
        (load_checkpoint restarted binding later
          ≡ ok (
              some (record {
                binding = binding;
                revision = page.expected_checkpoint.revision + 1;
                position = position_after page.next_cursor;
              })))
        × ((recover_acknowledgement restarted binding later).1
            ≡ ok (work_after (o.allocations + 1) binding page.items))
unfolding commit_receive_page restart load_checkpoint recover_acknowledgement at_resume
    at_committed_page
recover-restart-commit o page now later committed made bound done live =
    elim (Result-cases (commit_checks o page now)) [
      | inl (e, q) ↦ absurd (ground (arith, q, done))
      | inr ((found, revision, nonce), q) ↦
          let k = commit_checks-IsChecked o page now found revision nonce q in
          let b = page.expected_checkpoint.binding in
          let self = same_binding_refl b in
          elim (Option-cases page.next_cursor) [
            | inl no_cursor ↦ elim (intent_cases page made) [
              | inl (no_items, no_intent) ↦
                  ground (arith, q, no_items, no_intent, no_cursor, k.next_revision, live, self)
              | inr (intent, fresh, bounded) ↦ ground (
                arith,
                q,
                intent,
                bounded,
                no_cursor,
                k.next_revision,
                live,
                self,
                work_after_intent (o.allocations + 1) b page.items (ids_of page.items)
                    (made.intent ∙ ap ok intent),
              )
            ]
            | inr (cursor, next) ↦ elim (intent_cases page made) [
              | inl (no_items, no_intent) ↦ ground (
                arith,
                q,
                no_items,
                no_intent,
                next,
                bound cursor next,
                k.next_revision,
                live,
                self,
              )
              | inr (intent, fresh, bounded) ↦ ground (
                arith,
                q,
                intent,
                bounded,
                next,
                bound cursor next,
                k.next_revision,
                live,
                self,
                work_after_intent (o.allocations + 1) b page.items (ids_of page.items)
                    (made.intent ∙ ap ok intent),
              )
            ]
          ]
    ]
