-- ===== src/Transaction/Next.antt =====
-- Which Welcome the store leases next, and what the first one does to those behind it.
use session_chat.Prelude.{
  ℕ, ◌+◌, ◌≤◌, ◌<◌, ◌≡◌, List, [], ◌∷◌, true, false, none, some, arith, ltb, if◌then◌else◌,
  checked_add-le, u64_max, Bool-cases, inl, inr,
}
use session_chat.Prelude.Outcome.{Result, ok, err}
use session_chat.Prelude.Bytes.{Bytes, all_zero}
use session_chat.Prelude.Map.{lookup}
use session_chat.Transport.OutboxPort.{LeasedWelcome, OutboxPortError}
use session_chat.Transaction.Types.{
  InviterJoinStore, DeliveryLease, CommittedRecord, TransactionError, expired, DeliveryPayload,
}
use session_chat.Transaction.Leases.{payload_of, payload-lease}
use session_chat.Transaction.Delivery.{
  lease_checks, grant_lease, lease_delivery, delivery_payload, is_eligible, pending_transaction_ids,
}
use session_chat.Transaction.Port.{is_bad_lease, sweep, lease_payload, lease_next}

-- The lease that is granted next.
abbrev pub the_lease : InviterJoinStore → Bytes → DeliveryLease
the_lease st id = record {
  store_scope = st.lease_scope;
  transaction_id = id;
  lease_sequence = st.next_lease_sequence;
}

-- What the lease of a record carries.
abbrev pub leased_welcome : InviterJoinStore → Bytes → CommittedRecord → LeasedWelcome DeliveryLease
leased_welcome st id r = record {
  lease = the_lease st id;
  welcome_envelope = r.welcome_envelope;
  deposit_endpoint = r.deposit_endpoint;
  outbox_expires_at = r.outbox_expires_at;
}

-- A lease of `seconds` from now that the policy allows.
abbrev pub IsLeaseTime : InviterJoinStore → ℕ → ℕ → Type 0
IsLeaseTime st now seconds =
    (0 < seconds) × (seconds ≤ st.policy.maximum_lease_seconds) × (now + seconds ≤ u64_max)

-- The first eligible record.
abbrev pub IsFirst : InviterJoinStore → ℕ → Bytes → CommittedRecord → Type 0
IsFirst st now id r =
    (ids : List Bytes) × (pending_transaction_ids (sweep st now) now ≡ id ∷ ids)
    × (lookup id (sweep st now).commits ≡ some r)
    × (is_eligible st.policy now r ≡ true)
    × (all_zero id ≡ false)

is_bad_lease-fine :
    (st : InviterJoinStore) (now seconds : ℕ)
    → IsLeaseTime st now seconds
    → is_bad_lease st.policy now seconds ≡ false
is_bad_lease-fine st now seconds time = ground (arith, checked_add-le now seconds)

lease_payload-ok :
    (p : InviterJoinStore × Result TransactionError DeliveryLease) (now : ℕ) (lease : DeliveryLease)
    (payload : DeliveryPayload)
    → p.1 ≡ ok lease
    → delivery_payload p.0 lease now ≡ ok payload
    → (lease_payload p now).1
      ≡ ok (
          some (record {
            lease = lease;
            welcome_envelope = payload.welcome_envelope;
            deposit_endpoint = payload.deposit_endpoint;
            outbox_expires_at = payload.outbox_expires_at;
          }))
unfolding lease_payload
lease_payload-ok (st, err e) now lease payload h paid = absurd (ground (arith, h))
lease_payload-ok (st, ok l) now lease payload h paid = ground (arith, h, paid)

module _ (st : InviterJoinStore) (now seconds : ℕ) (time : IsLeaseTime st now seconds)
    (sequence_left : st.next_lease_sequence + 1 ≤ u64_max) where
  module _ (id : Bytes) (r : CommittedRecord) (eligible : is_eligible st.policy now r ≡ true)
      (real : all_zero id ≡ false) (held : lookup id st.commits ≡ some r) where
    checks-eligible :
        lease_checks st id now seconds
        ≡ (if ltb r.outbox_expires_at (now + seconds) then err expired else ok (now + seconds, r))
    unfolding lease_checks
    checks-eligible = ground (arith, checked_add-le now seconds)

    grant-eligible : (grant_lease st id (now + seconds) r).1 ≡ ok (the_lease st id)
    unfolding grant_lease
    grant-eligible = ground (arith, checked_add-le st.next_lease_sequence 1)

    delivery-eligible :
        ltb r.outbox_expires_at (now + seconds) ≡ false
        → (lease_delivery st id now seconds).1 ≡ ok (the_lease st id)
    unfolding lease_delivery
    delivery-eligible late = ground (arith, checks-eligible, grant-eligible)

    payload-eligible :
        ltb r.outbox_expires_at (now + seconds) ≡ false
        → delivery_payload (lease_delivery st id now seconds).0 (the_lease st id) now
          ≡ ok (payload_of r)
    payload-eligible late =
        let (r', held', e) =
          payload-lease st id now seconds (the_lease st id) (delivery-eligible late) in
        ground (arith, held, held', e)

    lease_payload-eligible : (lease_payload (lease_delivery st id now seconds) now).1 ≡ (
        if ltb r.outbox_expires_at (now + seconds)
        then err OutboxPortError.conflict
        else ok (some (leased_welcome st id r)))
    lease_payload-eligible = elim (Bool-cases (ltb r.outbox_expires_at (now + seconds))) [
      | inl early ↦ unfold lease_delivery lease_payload in ground (arith, early, checks-eligible)
      | inr late ↦ rw late (
          lease_payload-ok (lease_delivery st id now seconds) now (the_lease st id) (payload_of r)
            (delivery-eligible late) (payload-eligible late))
    ]

-- For a lease time that the policy allows and a sequence number left, the first eligible record, under
-- an identifier that is not zero, decides the answer of `lease_next`: it is leased, with its bytes as
-- committed; but when its outbox expires before the lease would, the answer is a conflict, whatever
-- else is eligible.
pub lease_next-first :
    (st : InviterJoinStore) (now seconds : ℕ) (id : Bytes) (r : CommittedRecord)
    → IsLeaseTime st now seconds
    → st.next_lease_sequence + 1 ≤ u64_max
    → IsFirst st now id r
    → (lease_next st now seconds).1 ≡ (
        if ltb r.outbox_expires_at (now + seconds)
        then err OutboxPortError.conflict
        else ok (some (leased_welcome st id r)))
unfolding lease_next sweep
lease_next-first st now seconds id r time sequence_left (ids, listed, held, eligible, real) =
    rw (is_bad_lease-fine st now seconds time, listed)
      (lease_payload-eligible (sweep st now) now seconds time sequence_left id r eligible real held)

-- For a lease time that the policy allows, with nothing eligible, `lease_next` answers that there is
-- nothing, and the store only marks what is worn out.
pub lease_next-idle :
    (st : InviterJoinStore) (now seconds : ℕ)
    → IsLeaseTime st now seconds
    → pending_transaction_ids (sweep st now) now ≡ []
    → lease_next st now seconds ≡ (sweep st now, ok none)
unfolding lease_next
lease_next-idle st now seconds time listed = rw (is_bad_lease-fine st now seconds time, listed)
