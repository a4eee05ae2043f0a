-- ===== src/Receive/Inbox.antt =====
-- The owner refines an abstract inbox: what each committed page delivered, under each identifier.
use session_chat.Prelude.{
  ℕ, ◌≡◌, ◌∙◌, refl, List, [], ◌∷◌, false, Option, none, some, arith, All, any, inl, inr,
  Option-cases, if◌then◌else◌,
}
use session_chat.Prelude.Outcome.{is_ok, Result-cases}
use session_chat.Prelude.Bytes.{Bytes, same, same→eq}
use session_chat.Prelude.Map.{Map, lookup}
use session_chat.Receive.Page.{ReceivedCanonicalEnvelope, ids_of}
use session_chat.Receive.Checkpoint.{ReceivePageCommitV1}
use session_chat.Receive.State.{ReceiveOwner, restart, record_resynchronization}
use session_chat.Receive.Commit.{commit_checks, commit_receive_page, insert_all}
use session_chat.Receive.Leasing.{
  lease_acknowledgement, recover_acknowledgement, accept_acknowledgement, release_acknowledgement,
}
use session_chat.Receive.Stored.{untouched, retained, unchanged}
use session_chat.Receive.Backed.{commit_checks-IsChecked, intent_cases, Agrees-self}
use session_chat.Receive.Calls.{
  Call, restarts, resynchronizes, commits, leases, recovers, accepts, releases, step, run, IsPage,
  IsMade,
}

-- The abstract inbox: the bytes that were delivered under an identifier.
abbrev pub Inbox : Type 0
Inbox = Bytes → Option Bytes

abbrev pub find : Bytes → List ReceivedCanonicalEnvelope → Option Bytes
find j [] = none
find j (item ∷ items) = if same j item.delivery_id then some item.envelope.bytes else find j items

-- A page delivers its items.
abbrev pub deliver : List ReceivedCanonicalEnvelope → Inbox → Inbox
deliver items inbox j = elim (find j items) [ none ↦ inbox j | some bytes ↦ some bytes ]

-- The pages that a run commits, in their order.
abbrev pub committed : ReceiveOwner → ℕ × Call → List ReceivedCanonicalEnvelope
committed o (now, commits page) =
    if is_ok (commit_receive_page o page now).1 then page.items else []
committed o (now, call) = []

unfoldable pub replay : ReceiveOwner → List (ℕ × Call) → Inbox → Inbox
replay o [] inbox = inbox
replay o (call ∷ calls) inbox = replay (step o call) calls (deliver (committed o call) inbox)

abbrev pub view : ReceiveOwner → Inbox
view o j = lookup j o.stored

find-none :
    (j : Bytes) (items : List ReceivedCanonicalEnvelope)
    → find j items ≡ none
    → any (same j) (ids_of items) ≡ false
unfolding any
find-none j [] h = refl
find-none j (item ∷ items) h = ground (arith, find-none j items)

find-some :
    (m : Map Bytes) (j bytes : Bytes) (items : List ReceivedCanonicalEnvelope)
    → find j items ≡ some bytes
    → All (λ i. lookup i.delivery_id m ≡ some i.envelope.bytes) items
    → lookup j m ≡ some bytes
find-some m j bytes [] h k = absurd (ground (arith, h))
find-some m j bytes (item ∷ items) h k =
    ground (arith, h, same→eq j item.delivery_id, find-some m j bytes items)

commit_refines :
    (o : ReceiveOwner) (page : ReceivePageCommitV1) (now : ℕ) (j : Bytes)
    → IsPage page
    → lookup j (commit_receive_page o page now).0.stored
      ≡ deliver (committed o (now, commits page)) (view o) j
unfolding commit_receive_page
commit_refines o page now j made = elim (Result-cases (commit_checks o page now)) [
  | inl (e, q) ↦ ground (arith, q)
  | inr ((found, revision, nonce), q) ↦
      let k = commit_checks-IsChecked o page now found revision nonce q in
      elim (intent_cases page made) [
        | inl (no_items, no_intent) ↦ ground (
          arith,
          q,
          no_items,
          no_intent,
          untouched o.stored o.stored j page.items found k.deduplicated,
          find-none j page.items,
        )
        | inr (intent, fresh, valid) ↦ elim (Option-cases (find j page.items)) [
          | inl missing ↦ ground (
            arith,
            q,
            intent,
            valid,
            missing,
            untouched o.stored o.stored j page.items found k.deduplicated
                (find-none j page.items missing),
          )
          | inr (bytes, seen) ↦ ground (
            arith,
            q,
            intent,
            valid,
            seen,
            find-some (insert_all found.1 o.stored) j bytes page.items seen (
                retained o.stored o.stored page.items found k.deduplicated fresh
                  (Agrees-self o.stored page.items)),
          )
        ]
      ]
]

step_refines :
    (o : ReceiveOwner) (now : ℕ) (call : Call) (j : Bytes)
    → IsMade call
    → view (step o (now, call)) j ≡ deliver (committed o (now, call)) (view o) j
unfolding step restart record_resynchronization lease_acknowledgement recover_acknowledgement
    accept_acknowledgement release_acknowledgement
step_refines o now restarts j made = refl
step_refines o now (resynchronizes request) j made = ground arith
step_refines o now (commits page) j made = commit_refines o page now j made
step_refines o now (leases page) j made = ground arith
step_refines o now (recovers binding) j made = ground arith
step_refines o now (accepts lease) j made = ground arith
step_refines o now (releases lease) j made = ground arith

deliver-pointwise :
    (items : List ReceivedCanonicalEnvelope) (f g : Inbox)
    → ((j : Bytes) → f j ≡ g j)
    → (j : Bytes) → deliver items f j ≡ deliver items g j
deliver-pointwise items f g h j = ground (arith, h j)

replay-pointwise :
    (o : ReceiveOwner) (calls : List (ℕ × Call)) (f g : Inbox)
    → ((j : Bytes) → f j ≡ g j)
    → (j : Bytes) → replay o calls f j ≡ replay o calls g j
unfolding replay
replay-pointwise o [] f g h j = h j
replay-pointwise o (call ∷ calls) f g h j =
    replay-pointwise (step o call) calls _ _ (deliver-pointwise (committed o call) f g h) j

-- The owner implements the inbox: after any calls with made arguments, restarts among them, it
-- retains under each identifier what the committed pages, replayed in order on what it retained
-- before, have delivered.
pub run_refines :
    (o : ReceiveOwner) (calls : List (ℕ × Call))
    → All (λ call. IsMade call.1) calls
    → (j : Bytes) → lookup j (run o calls).stored ≡ replay o calls (view o) j
unfolding run replay
run_refines o [] made j = refl
run_refines o ((now, call) ∷ calls) made j =
    run_refines (step o (now, call)) calls made.1 j
    ∙ replay-pointwise (step o (now, call)) calls _ _ (λ i. step_refines o now call i made.0) j

step_keeps :
    (o : ReceiveOwner) (now : ℕ) (call : Call) (j bytes : Bytes)
    → IsMade call
    → lookup j o.stored ≡ some bytes
    → lookup j (step o (now, call)).stored ≡ some bytes
unfolding step restart record_resynchronization lease_acknowledgement recover_acknowledgement
    accept_acknowledgement release_acknowledgement commit_receive_page
step_keeps o now restarts j bytes made h = h
step_keeps o now (resynchronizes request) j bytes made h = ground arith
step_keeps o now (commits page) j bytes made h = elim (Result-cases (commit_checks o page now)) [
  | inl (e, q) ↦ ground (arith, q)
  | inr ((found, revision, nonce), q) ↦
      let k = commit_checks-IsChecked o page now found revision nonce q in
      ground (arith, q, unchanged o.stored o.stored j bytes page.items found k.deduplicated h h)
]
step_keeps o now (leases page) j bytes made h = ground arith
step_keeps o now (recovers binding) j bytes made h = ground arith
step_keeps o now (accepts lease) j bytes made h = ground arith
step_keeps o now (releases lease) j bytes made h = ground arith

-- An envelope that is retained stays, with the same bytes, through any calls, restarts among them.
pub run_keeps :
    (o : ReceiveOwner) (calls : List (ℕ × Call)) (j bytes : Bytes)
    → All (λ call. IsMade call.1) calls
    → lookup j o.stored ≡ some bytes
    → lookup j (run o calls).stored ≡ some bytes
unfolding run
run_keeps o [] j bytes made h = h
run_keeps o ((now, call) ∷ calls) j bytes made h =
    run_keeps (step o (now, call)) calls j bytes made.1 (step_keeps o now call j bytes made.0 h)
