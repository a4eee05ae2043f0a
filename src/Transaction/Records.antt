-- ===== src/Transaction/Records.antt =====
-- What can become of a committed transaction.
use session_chat.Prelude.{
  inl, inr, Bool-cases, ℕ, ◌≤◌, ◌≡◌, refl, List, [], ◌∷◌, Option, none, some, arith,
}
use session_chat.Prelude.Outcome.{Result, ok, err, Result-cases}
use session_chat.Prelude.Bytes.{Bytes}
use session_chat.Prelude.Map.{lookup}
use session_chat.Prelude.Map.Laws.{lookup-insert, lookup-replace, lookup-map_values}
use session_chat.Protocol.Cbor.{Cbor}
use session_chat.Transaction.Types.{
  ReservedInvitation, InviterJoinCommit, CommitFault, DeliveryLease, StoredOutboxState, pending,
  leased, delivered, exhausted, CommittedRecord, InviterJoinStore, TransactionError,
}
use session_chat.Transaction.Commit.{commit_with_fault}
use session_chat.Transaction.Seed.{retire_reservation, make_room, seed_checks, seed_reservation}
use session_chat.Transaction.Delivery.{
  lease_checks, grant_lease, lease_delivery, leased_record, delivery_payload, fail_delivery,
  complete_delivery,
}
use session_chat.Transaction.Port.{
  is_bad_lease, mark_worn_out, sweep, lease_payload, lease_first, lease_next,
}
use session_chat.Transaction.Calls.{
  Call, seeds, commits, leases, leases_next, fails, completes, step, run,
}

-- A delivered Welcome stays delivered under its lease, and an exhausted one stays exhausted.
abbrev pub CanBecome : StoredOutboxState → StoredOutboxState → Type 0
CanBecome pending o = Unit {0}
CanBecome (leased n expires_at) o = Unit {0}
CanBecome (delivered n) o = o ≡ delivered n
CanBecome exhausted o = o ≡ exhausted

-- The record is there still, the same but for its outbox and the attempts, which do not fall.
abbrev pub Moved : CommittedRecord → Option CommittedRecord → Type 0
Moved r none = ⊥
Moved r (some r') =
    (r' ≡ record r { outbox = r'.outbox; delivery_attempts = r'.delivery_attempts })
    × (r.delivery_attempts ≤ r'.delivery_attempts)
    × CanBecome r.outbox r'.outbox

pub Moved-refl : (r : CommittedRecord) → Moved r (some r)
Moved-refl r = (refl, omega arith, stays r.outbox)
  where
    stays : (o : StoredOutboxState) → CanBecome o o
    stays pending = tt
    stays (leased n expires_at) = tt
    stays (delivered n) = refl
    stays exhausted = refl

Moved-trans :
    (r : CommittedRecord) (o p : Option CommittedRecord)
    → Moved r o
    → ((r' : CommittedRecord) → o ≡ some r' → Moved r' p)
    → Moved r p
Moved-trans r none p m n = absurd m
Moved-trans r (some r') p m n = then p (n r' refl)
  where
    then : (p : Option CommittedRecord) → Moved r' p → Moved r p
    then none m' = absurd m'
    then (some r'') m' = ground arith

module _ (st : InviterJoinStore) (id : Bytes) (r : CommittedRecord)
    (held : lookup id st.commits ≡ some r) where
  seed-commits :
      (v : ReservedInvitation) (now : ℕ) → (seed_reservation st v now).0.commits ≡ st.commits
  unfolding seed_reservation seed_checks make_room retire_reservation
  seed-commits v now = ground arith

  commit-Moved :
      (c : Cbor) (k : InviterJoinCommit) (now : ℕ) (fault : CommitFault)
      → Moved r (lookup id (commit_with_fault c st k now fault).0.commits)
  unfolding commit_with_fault
  commit-Moved c k now fault = grind (arith, Moved-refl r, lookup-insert)

  grant_lease-Moved :
      (k : Bytes) (expires_at : ℕ) (w : CommittedRecord)
      → lookup k st.commits ≡ some w
      → CanBecome w.outbox exhausted
      → CanBecome w.outbox pending
      → Moved r (lookup id (grant_lease st k expires_at w).0.commits)
  unfolding grant_lease
  grant_lease-Moved k expires_at w found may may' = grind (arith, Moved-refl r, lookup-replace)

  lease_delivery-Moved :
      (k : Bytes) (now seconds : ℕ)
      → Moved r (lookup id (lease_delivery st k now seconds).0.commits)
  unfolding lease_delivery lease_checks
  lease_delivery-Moved k now seconds = grind (arith, Moved-refl r, grant_lease-Moved)

  fail_delivery-Moved :
      (lease : DeliveryLease) → Moved r (lookup id (fail_delivery st lease).0.commits)
  unfolding fail_delivery leased_record
  fail_delivery-Moved lease = grind (arith, Moved-refl r, lookup-replace)

  complete_delivery-Moved :
      (lease : DeliveryLease) (now : ℕ)
      → Moved r (lookup id (complete_delivery st lease now).0.commits)
  unfolding complete_delivery leased_record
  complete_delivery-Moved lease now = grind (arith, Moved-refl r, lookup-replace)

  sweep-Moved : (now : ℕ) → Moved r (lookup id (sweep st now).commits)
  unfolding sweep
  sweep-Moved now =
      ground (arith, Moved-refl r, lookup-map_values id (mark_worn_out st.policy now) st.commits)

lease_payload-Moved :
    (r : CommittedRecord) (id : Bytes)
    (p : InviterJoinStore × Result TransactionError DeliveryLease) (now : ℕ)
    → Moved r (lookup id p.0.commits)
    → Moved r (lookup id (lease_payload p now).0.commits)
unfolding lease_payload
lease_payload-Moved r id (st, err e) now m = m
lease_payload-Moved r id (st, ok lease) now m =
    elim (Result-cases (delivery_payload st lease now)) [
      | inl (e, q) ↦
          rw (q, lease_payload)
            (Moved-trans r (lookup id st.commits) _ m
              (λ r' held. fail_delivery-Moved st id r' held lease))
      | inr (a, q) ↦ rw (q, lease_payload) m
    ]

lease_first-Moved :
    (st : InviterJoinStore) (id : Bytes) (r : CommittedRecord) (ids : List Bytes) (now seconds : ℕ)
    → lookup id st.commits ≡ some r
    → Moved r (lookup id (lease_first st ids now seconds).0.commits)
lease_first-Moved st id r [] now seconds held = rw held (Moved-refl r)
lease_first-Moved st id r (k ∷ ids) now seconds held =
    lease_payload-Moved r id (lease_delivery st k now seconds) now
      (lease_delivery-Moved st id r held k now seconds)

lease_next-Moved :
    (st : InviterJoinStore) (id : Bytes) (r : CommittedRecord) (now seconds : ℕ)
    → lookup id st.commits ≡ some r
    → Moved r (lookup id (lease_next st now seconds).0.commits)
unfolding lease_next
lease_next-Moved st id r now seconds held = elim (Bool-cases (is_bad_lease st.policy now seconds)) [
  | inl bad ↦ rw (bad, held) (Moved-refl r)
  | inr fine ↦ rw fine (
      Moved-trans r (lookup id (sweep st now).commits) _ (sweep-Moved st id r held now)
        (λ r' held'. lease_first-Moved (sweep st now) id r' _ now seconds held'))
]

module _ (c : Cbor) where
  -- What one call may do to a committed transaction.
  pub step-Moved :
      (st : InviterJoinStore) (id : Bytes) (r : CommittedRecord) (call : ℕ × Call)
      → lookup id st.commits ≡ some r
      → Moved r (lookup id (step c st call).commits)
  unfolding step
  step-Moved st id r (now, seeds v) held =
      rw (seed-commits st id r held v now) (rw held (Moved-refl r))
  step-Moved st id r (now, commits k fault) held = commit-Moved st id r held c k now fault
  step-Moved st id r (now, leases k seconds) held = lease_delivery-Moved st id r held k now seconds
  step-Moved st id r (now, leases_next seconds) held = lease_next-Moved st id r now seconds held
  step-Moved st id r (now, fails lease) held = fail_delivery-Moved st id r held lease
  step-Moved st id r (now, completes lease) held = complete_delivery-Moved st id r held lease now

  -- Through any calls a committed transaction stays: its fields never change, its attempts never
  -- fall, and a delivered or exhausted outbox stays so.
  pub run-Moved :
      (st : InviterJoinStore) (id : Bytes) (r : CommittedRecord) (calls : List (ℕ × Call))
      → lookup id st.commits ≡ some r
      → Moved r (lookup id (run c st calls).commits)
  unfolding run
  run-Moved st id r [] held = rw held (Moved-refl r)
  run-Moved st id r (call ∷ calls) held =
      Moved-trans r (lookup id (step c st call).commits) _ (step-Moved st id r call held)
        (λ r' held'. run-Moved (step c st call) id r' calls held')
