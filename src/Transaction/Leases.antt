-- ===== src/Transaction/Leases.antt =====
-- What a lease is granted on, and that it delivers the committed bytes.
use session_chat.Prelude.{ℕ, ◌+◌, ◌≤◌, ◌<◌, ◌≡◌, some, arith, inl, inr, checked_add-eq_some}
use session_chat.Prelude.Outcome.{ok, Result-cases}
use session_chat.Prelude.Bytes.{Bytes}
use session_chat.Prelude.Map.{lookup}
use session_chat.Prelude.Map.Laws.{lookup-replace}
use session_chat.Transaction.Types.{
  InviterJoinStore, DeliveryLease, CommittedRecord, DeliveryPayload, leased,
}
use session_chat.Transaction.Delivery.{
  lease_checks, grant_lease, lease_delivery, leased_record, delivery_payload,
}

-- The deliverable part of a record.
abbrev pub payload_of : CommittedRecord → DeliveryPayload
payload_of r = record {
  welcome_envelope = r.welcome_envelope;
  deposit_endpoint = r.deposit_endpoint;
  outbox_expires_at = r.outbox_expires_at;
}

-- The record of the identifier is under the lease, with the sequence number that was next.
pub record IsGranted (st : InviterJoinStore) (id : Bytes) (now seconds : ℕ)
    (after : InviterJoinStore) (lease : DeliveryLease) : Type 0 where
  pub r : CommittedRecord
  pub expires_at : ℕ
  pub held : lookup id st.commits ≡ some r
  pub within : (now < expires_at) × (expires_at ≤ r.outbox_expires_at)
  pub attempt_left : r.delivery_attempts < st.policy.maximum_delivery_attempts
  pub the_lease : lease ≡ record {
    store_scope = st.lease_scope;
    transaction_id = id;
    lease_sequence = st.next_lease_sequence;
  }
  pub next_sequence : after.next_lease_sequence ≡ st.next_lease_sequence + 1
  pub same_scope : after.lease_scope ≡ st.lease_scope
  pub now_leased :
      lookup id after.commits
      ≡ some (record r {
        delivery_attempts = r.delivery_attempts + 1;
        outbox = leased st.next_lease_sequence expires_at;
      })

pub lease_checks-ok :
    (st : InviterJoinStore) (id : Bytes) (now seconds expires_at : ℕ) (r : CommittedRecord)
    → lease_checks st id now seconds ≡ ok (expires_at, r)
    → (lookup id st.commits ≡ some r) × (now < expires_at) × (expires_at ≤ r.outbox_expires_at)
unfolding lease_checks
lease_checks-ok st id now seconds expires_at r h = grind (arith, checked_add-eq_some)

grant_lease-ok :
    (st : InviterJoinStore) (id : Bytes) (now seconds expires_at : ℕ) (r : CommittedRecord)
    (lease : DeliveryLease)
    → lookup id st.commits ≡ some r
    → (now < expires_at) × (expires_at ≤ r.outbox_expires_at)
    → (grant_lease st id expires_at r).1 ≡ ok lease
    → IsGranted st id now seconds (grant_lease st id expires_at r).0 lease
unfolding grant_lease
grant_lease-ok st id now seconds expires_at r lease held within h = record {
  r = r;
  expires_at = expires_at;
  held = held;
  within = within;
  attempt_left = ground arith;
  the_lease = ground arith;
  next_sequence = grind (arith, checked_add-eq_some);
  same_scope = ground arith;
  now_leased = grind (arith, lookup-replace);
}

pub lease_delivery-ok :
    (st : InviterJoinStore) (id : Bytes) (now seconds : ℕ) (lease : DeliveryLease)
    → (lease_delivery st id now seconds).1 ≡ ok lease
    → IsGranted st id now seconds (lease_delivery st id now seconds).0 lease
unfolding lease_delivery
lease_delivery-ok st id now seconds lease h = elim (Result-cases (lease_checks st id now seconds)) [
  | inl (e, q) ↦ absurd (ground (arith, q, h))
  | inr ((expires_at, r), q) ↦
      let (held, after_now, in_time) = lease_checks-ok st id now seconds expires_at r q in
      rw (q, lease_delivery)
        (grant_lease-ok st id now seconds expires_at r lease held (after_now, in_time)
          (rw (q, lease_delivery) at h))
]

-- A lease that was just granted gives, at the same time, the committed Welcome, its endpoint and its
-- expiry, byte for byte.
pub payload-lease :
    (st : InviterJoinStore) (id : Bytes) (now seconds : ℕ) (lease : DeliveryLease)
    → (lease_delivery st id now seconds).1 ≡ ok lease
    → (r : CommittedRecord) × (lookup id st.commits ≡ some r)
      × (delivery_payload (lease_delivery st id now seconds).0 lease now ≡ ok (payload_of r))
unfolding delivery_payload leased_record
payload-lease st id now seconds lease h =
    let g = lease_delivery-ok st id now seconds lease h in (g.r, g.held, payload g)
  where
    payload :
        (g : IsGranted st id now seconds (lease_delivery st id now seconds).0 lease)
        → delivery_payload (lease_delivery st id now seconds).0 lease now ≡ ok (payload_of g.r)
    payload g = ground (arith, g.the_lease, g.same_scope, g.now_leased, g.within)
