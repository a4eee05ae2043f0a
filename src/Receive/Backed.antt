-- ===== src/Receive/Backed.antt =====
-- The invariant of the owner of receive state: acknowledgement work is only ever for envelopes that are
-- retained, and a lease is for the work that can be recovered.
use session_chat.Prelude.{
  ℕ, ◌+◌, ◌≤◌, ◌<◌, ◌≡◌, refl, List, [], ◌∷◌, true, false, Option, none, some, arith, All, length,
  is_none, inl, inr, ◌⊎◌, Option-cases, checked_add,
}
use session_chat.Prelude.Outcome.{ok, Result-cases}
use session_chat.Prelude.Bytes.{Bytes}
use session_chat.Prelude.Map.{Map, lookup}
use session_chat.Receive.Binding.{CursorBindingV1, same_binding}
use session_chat.Receive.Page.{ReceivedCanonicalEnvelope, has_repeat, ids_of, bounded_ids_new}
use session_chat.Receive.Checkpoint.{ReceivePageCommitV1, successor}
use session_chat.Receive.State.{
  ReceiveOwner, CommittedReceivePageV1, AcknowledgementLeaseV1, new, restart,
  record_resynchronization, same_ids, checkpoint_matches, DeduplicationOutcomeV1,
}
use session_chat.Receive.Commit.{commit_checks, commit_receive_page, deduplicate, insert_all}
use session_chat.Receive.Leasing.{
  is_recoverable, lease_acknowledgement, recover_acknowledgement, accept_acknowledgement,
  release_acknowledgement,
}
use session_chat.Receive.Stored.{retained, length-insert_all, Agrees}
use session_chat.Receive.Calls.{
  Call, restarts, resynchronizes, commits, leases, recovers, accepts, releases, step, run, IsPage,
  IsMade,
}

pub same_ids→eq : (xs ys : List Bytes) → same_ids xs ys ≡ true → xs ≡ ys
unfolding same_ids
same_ids→eq [] [] h = refl
same_ids→eq [] (y ∷ ys) h = absurd (ground arith)
same_ids→eq (x ∷ xs) [] h = absurd (ground arith)
same_ids→eq (x ∷ xs) (y ∷ ys) h = ground (arith, same_ids→eq xs ys)

pub same_binding→eq : (a b : CursorBindingV1) → same_binding a b ≡ true → a ≡ b
unfolding same_binding
same_binding→eq a b h = ground arith

abbrev pub Backed : Option AcknowledgementLeaseV1 → Option (CursorBindingV1 × List Bytes) → Type 0
Backed none work = Unit {0}
Backed (some lease) work = work ≡ some (lease.binding, lease.delivery_ids)

abbrev pub IsRetained : Map Bytes → List Bytes → Type 0
IsRetained kept ids = All (λ id. is_none (lookup id kept) ≡ false) ids

abbrev pub WorkRetained : Map Bytes → Option (CursorBindingV1 × List Bytes) → Type 0
WorkRetained kept none = Unit {0}
WorkRetained kept (some (binding, ids)) = IsRetained kept ids × (bounded_ids_new ids ≡ ok ids)

pub record IsBacked (o : ReceiveOwner) : Type 0 where
  pub backed : Backed o.leased o.recoverable
  pub work_retained : WorkRetained o.stored o.recoverable
  pub within : length o.stored ≤ 64

-- What a page commit has checked, when its checks pass.
pub record IsChecked (o : ReceiveOwner) (page : ReceivePageCommitV1) (now : ℕ)
    (found : List DeduplicationOutcomeV1 × List (Bytes × Bytes)) (revision nonce : ℕ) : Type 0 where
  pub live : now < page.expected_checkpoint.binding.expires_at
  pub no_work : o.recoverable ≡ none
  pub no_lease : o.leased ≡ none
  pub expected :
      (is_none o.checkpoint ≡ true) ⊎ (checkpoint_matches o page.expected_checkpoint ≡ true)
  pub next_revision : revision ≡ page.expected_checkpoint.revision + 1
  pub deduplicated : deduplicate o.stored page.items ≡ ok found
  pub room : length o.stored + length found.1 ≤ 64

pub commit_checks-IsChecked :
    (o : ReceiveOwner) (page : ReceivePageCommitV1) (now : ℕ)
    (found : List DeduplicationOutcomeV1 × List (Bytes × Bytes)) (revision nonce : ℕ)
    → commit_checks o page now ≡ ok (found, revision, nonce)
    → IsChecked o page now found revision nonce
unfolding commit_checks successor checked_add
commit_checks-IsChecked o page now found revision nonce h =
    elim (Result-cases (deduplicate o.stored page.items)) [
      | inl (e, q) ↦ absurd (ground (arith, h, q))
      | inr (seen, q) ↦ record {
        live = ground (arith, h, q);
        no_work = ground (arith, h, q);
        no_lease = ground (arith, h, q);
        expected = ground (arith, h, q);
        next_revision = ground (arith, h, q);
        deduplicated = ground (arith, h, q);
        room = ground (arith, h, q);
      }
    ]

ids-IsRetained :
    (kept : Map Bytes) (items : List ReceivedCanonicalEnvelope)
    → All (λ i. lookup i.delivery_id kept ≡ some i.envelope.bytes) items
    → IsRetained kept (ids_of items)
ids-IsRetained kept [] h = tt
ids-IsRetained kept (item ∷ items) h = (ground (arith, h.0), ids-IsRetained kept items h.1)

pub Agrees-self :
    (kept : Map Bytes) (items : List ReceivedCanonicalEnvelope) → Agrees kept kept items
Agrees-self kept [] = tt
Agrees-self kept (item ∷ items) = (refl, Agrees-self kept items)

-- The intent of a page that was made is its items' identifiers, which differ.
pub intent_cases :
    (page : ReceivePageCommitV1)
    → IsPage page
    → ((page.items ≡ []) × (page.acknowledgement_intent ≡ none))
      ⊎ ((page.acknowledgement_intent ≡ some (ids_of page.items))
          × (has_repeat (ids_of page.items) ≡ false)
          × (bounded_ids_new (ids_of page.items) ≡ ok (ids_of page.items)))
unfolding bounded_ids_new
intent_cases page h = ground (arith, h.intent)

commit-IsBacked :
    (o : ReceiveOwner) (page : ReceivePageCommitV1) (now : ℕ)
    → IsPage page
    → IsBacked o
    → IsBacked (commit_receive_page o page now).0
unfolding commit_receive_page
commit-IsBacked o page now made h = elim (Result-cases (commit_checks o page now)) [
  | inl (e, q) ↦ rw (q, commit_receive_page) h
  | inr ((found, revision, nonce), q) ↦
      let k = commit_checks-IsChecked o page now found revision nonce q in
      elim (intent_cases page made) [
        | inl (no_items, no_intent) ↦
            rw (q, no_intent, commit_receive_page)
              (record {
                backed = rw (k.no_lease) tt;
                work_retained = tt;
                within = omega (arith, k.room, length-insert_all found.1 o.stored);
              })
        | inr (intent, fresh, valid) ↦
            rw (q, intent, valid, commit_receive_page)
              (record {
                backed = rw (k.no_lease) tt;
                work_retained = (
                  ids-IsRetained (insert_all found.1 o.stored) page.items (
                      retained o.stored o.stored page.items found k.deduplicated fresh
                        (Agrees-self o.stored page.items)),
                  valid,
                );
                within = omega (arith, k.room, length-insert_all found.1 o.stored);
              })
      ]
]

pub recoverable_is :
    (o : ReceiveOwner) (binding : CursorBindingV1) (ids : List Bytes)
    → is_recoverable o binding ids ≡ true
    → o.recoverable ≡ some (binding, ids)
recoverable_is o binding ids h = elim (Option-cases o.recoverable) [
  | inl q ↦ absurd (ground (arith, h, q))
  | inr ((kept, kept_ids), q) ↦
      ground (arith, h, q, same_binding→eq kept binding, same_ids→eq kept_ids ids)
]

lease-IsBacked :
    (o : ReceiveOwner) (committed : CommittedReceivePageV1) (now : ℕ)
    → IsBacked o
    → IsBacked (lease_acknowledgement o committed now).0
unfolding lease_acknowledgement
lease-IsBacked o committed now h = elim (Option-cases committed.acknowledgement_intent) [
  | inl q ↦ ground (arith, q)
  | inr (ids, q) ↦ ground (arith, q, recoverable_is o committed.binding ids)
]

recover-IsBacked :
    (o : ReceiveOwner) (binding : CursorBindingV1) (now : ℕ)
    → IsBacked o
    → IsBacked (recover_acknowledgement o binding now).0
unfolding recover_acknowledgement
recover-IsBacked o binding now h = ground arith

step-IsBacked :
    (o : ReceiveOwner) (now : ℕ) (call : Call)
    → IsMade call
    → IsBacked o
    → IsBacked (step o (now, call))
unfolding step restart record_resynchronization accept_acknowledgement release_acknowledgement
step-IsBacked o now restarts made h = ground arith
step-IsBacked o now (resynchronizes request) made h = ground arith
step-IsBacked o now (commits page) made h = commit-IsBacked o page now made h
step-IsBacked o now (leases committed) made h = lease-IsBacked o committed now h
step-IsBacked o now (recovers binding) made h = recover-IsBacked o binding now h
step-IsBacked o now (accepts lease) made h = ground arith
step-IsBacked o now (releases lease) made h = ground arith

run-IsBacked :
    (o : ReceiveOwner) (calls : List (ℕ × Call))
    → All (λ call. IsMade call.1) calls
    → IsBacked o
    → IsBacked (run o calls)
unfolding run
run-IsBacked o [] made h = h
run-IsBacked o ((now, call) ∷ calls) made h =
    run-IsBacked (step o (now, call)) calls made.1 (step-IsBacked o now call made.0 h)

-- After any calls with made arguments, restarts among them, a new owner's work is for envelopes that
-- it retains, its lease is for its work, and it retains at most 64 envelopes.
pub run-new-IsBacked :
    (calls : List (ℕ × Call)) → All (λ call. IsMade call.1) calls → IsBacked (run new calls)
unfolding new
run-new-IsBacked calls made = run-IsBacked new calls made (ground arith)
