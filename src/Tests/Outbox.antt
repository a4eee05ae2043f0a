-- ===== src/Tests/Outbox.antt =====
-- The leases of a concrete commit.
use session_chat.Prelude.{
  ℕ, ◌≡◌, ◌<◌, refl, arith, List, ◌∷◌, [], some, checked_add, all, ltb, if◌then◌else◌,
}
use session_chat.Prelude.Outcome.{ok, err}
use session_chat.Prelude.Bytes.{Bytes, all_zero, Bytes-discrete}
use session_chat.Prelude.Map.{lookup, insert, remove, replace, map_values}
use session_chat.Transport.OutboxPort
use session_chat.Transaction.Types.{InviterJoinStore, DeliveryLease, lease_mismatch}
use session_chat.Transaction.Commit.{new, committed_record, installed}
use session_chat.Transaction.Delivery.{
  lease_checks, grant_lease, lease_delivery, leased_record, complete_delivery, fail_delivery,
  pending_ids, pending_transaction_ids,
}
use session_chat.Transaction.Port.{sweep, lease_next}
use session_chat.Transaction.Calls
use session_chat.Transaction.Calls.{Call, fails, step}
use session_chat.Transaction.Stale.{stale_lease, complete_retry_later}
use session_chat.Transaction.Next.{IsLeaseTime, IsFirst, leased_welcome, lease_next-first}
use session_chat.Tests.Instances.{repeat, plain_cbor}
use session_chat.Tests.Transaction.{empty_store, the_commit}

abbrev id : Bytes
id = repeat 16 9

-- The store with the commit.
abbrev store : InviterJoinStore
store = installed empty_store the_commit

abbrev first_lease : DeliveryLease
first_lease = record { store_scope = 1; transaction_id = id; lease_sequence = 1 }

abbrev second_lease : DeliveryLease
second_lease = record { store_scope = 1; transaction_id = id; lease_sequence = 2 }

abbrev leased_store : InviterJoinStore
leased_store = (lease_delivery store id 30 50).0

first_granted : (lease_delivery store id 30 50).1 ≡ ok first_lease
unfolding lease_delivery lease_checks grant_lease new lookup insert remove replace Bytes-discrete
    checked_add all_zero all
first_granted = refl

abbrev failed : List (ℕ × Call)
failed = (40, fails first_lease) ∷ []

second_granted :
    (lease_delivery (Calls.run plain_cbor leased_store failed) id 60 50).1 ≡ ok second_lease
unfolding lease_delivery lease_checks grant_lease new lookup insert remove replace Bytes-discrete
    checked_add all_zero all Calls.run step fail_delivery leased_record
second_granted = refl

stale_lease_example :
    let after = (lease_delivery (Calls.run plain_cbor leased_store failed) id 60 50).0 in
    (complete_delivery after first_lease 70 ≡ (after, err lease_mismatch))
    × (fail_delivery after first_lease ≡ (after, err lease_mismatch))
stale_lease_example =
    stale_lease plain_cbor store id 30 50 60 50 first_lease second_lease failed 70 first_granted
      second_granted

first_completed : (complete_delivery leased_store first_lease 40).1 ≡ ok tt
unfolding lease_delivery lease_checks grant_lease new lookup insert remove replace Bytes-discrete
    checked_add all_zero all complete_delivery leased_record
first_completed = refl

complete_retry_later_example :
    let end = Calls.run plain_cbor (complete_delivery leased_store first_lease 40).0 failed in
    complete_delivery end first_lease 2000 ≡ (end, ok tt)
complete_retry_later_example =
    complete_retry_later plain_cbor leased_store first_lease 40 2000 failed first_completed

store_IsFirst : (now : ℕ) → now < 850 → IsFirst store now id (committed_record the_commit)
unfolding new lookup insert remove Bytes-discrete all_zero all sweep map_values
    pending_transaction_ids pending_ids
store_IsFirst now h = ([], ground (arith, h), ground (arith, h), ground (arith, h), refl)

-- At 830 the outbox, which expires at 850, is too near its end for a lease of a minute.
lease_next-first_example : (lease_next store 830 60).1 ≡ (
    if ltb 850 890
    then err OutboxPort.conflict
    else ok (some (leased_welcome store id (committed_record the_commit))))
lease_next-first_example =
    lease_next-first store 830 60 id (committed_record the_commit) lease_time
      (unfold new in omega arith) (store_IsFirst 830 (omega arith))
  where
    lease_time : IsLeaseTime store 830 60
    lease_time = unfold new in (omega arith, omega arith, omega arith)

    nothing_listed : pending_transaction_ids (sweep empty_store 30) 30 ≡ []
    nothing_listed = unfold new pending_transaction_ids sweep map_values pending_ids in refl
