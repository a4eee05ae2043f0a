-- ===== src/Transaction/Likeness.antt =====
-- The delivery of a Welcome leaves the reservations and the identifiers of the transactions alone.
use session_chat.Prelude.{ℕ, ◌≡◌, refl, sym, ◌∙◌, Option, none, some, arith, inl, inr, ◌⊎◌}
use session_chat.Prelude.Bytes.{Bytes}
use session_chat.Prelude.Map.{lookup}
use session_chat.Prelude.Map.Laws.{lookup-replace, lookup-map_values}
use session_chat.Transaction.Types.{DeliveryLease, CommittedRecord, InviterJoinStore}
use session_chat.Transaction.Delivery.{
  lease_checks, grant_lease, lease_delivery, leased_record, fail_delivery, complete_delivery,
}
use session_chat.Transaction.Port.{mark_worn_out, sweep}

-- Two transactions of one invitation, or of one join request, are one transaction; and the
-- invitation of a transaction is not reserved.
pub record IsSingleUse (st : InviterJoinStore) : Type 0 where
  pub one_each :
      (id id' : Bytes) (r r' : CommittedRecord)
      → lookup id st.commits ≡ some r
      → lookup id' st.commits ≡ some r'
      → (r.invitation_id ≡ r'.invitation_id) ⊎ (r.join_request_id ≡ r'.join_request_id)
      → id ≡ id'
  pub not_reserved :
      (id : Bytes) (r : CommittedRecord)
      → lookup id st.commits ≡ some r
      → lookup r.invitation_id st.reservations ≡ none

-- The same transaction is held, if any, as far as its identifiers go.
abbrev pub SameIds : Option CommittedRecord → Option CommittedRecord → Type 0
SameIds none none = Unit {0}
SameIds none (some r') = ⊥
SameIds (some r) none = ⊥
SameIds (some r) (some r') =
    (r.invitation_id ≡ r'.invitation_id) × (r.join_request_id ≡ r'.join_request_id)

-- A store with the same reservations, and the same transactions as far as their identifiers go.
pub record IsLike (st st' : InviterJoinStore) : Type 0 where
  pub same_reservations : st'.reservations ≡ st.reservations
  pub same_ids : (id : Bytes) → SameIds (lookup id st.commits) (lookup id st'.commits)

SameIds-refl : (o : Option CommittedRecord) → SameIds o o
SameIds-refl none = tt
SameIds-refl (some r) = (refl, refl)

SameIds-trans : (o p q : Option CommittedRecord) → SameIds o p → SameIds p q → SameIds o q
SameIds-trans none none q h k = k
SameIds-trans none (some b) q h k = absurd h
SameIds-trans (some a) none q h k = absurd h
SameIds-trans (some a) (some b) none h k = absurd k
SameIds-trans (some a) (some b) (some d) h k = (h.0 ∙ k.0, h.1 ∙ k.1)

pub IsLike-refl : (st : InviterJoinStore) → IsLike st st
IsLike-refl st = record { same_reservations = refl; same_ids = λ id. SameIds-refl _ }

pub IsLike-trans : (a b d : InviterJoinStore) → IsLike a b → IsLike b d → IsLike a d
IsLike-trans a b d h k = record {
  same_reservations = k.same_reservations ∙ h.same_reservations;
  same_ids = λ id. SameIds-trans _ _ _ (h.same_ids id) (k.same_ids id);
}

SameIds-back :
    (o : Option CommittedRecord) (r' : CommittedRecord)
    → SameIds o (some r')
    → (r : CommittedRecord) × (o ≡ some r)
      × (r.invitation_id ≡ r'.invitation_id)
      × (r.join_request_id ≡ r'.join_request_id)
SameIds-back none r' h = absurd h
SameIds-back (some r) r' h = (r, refl, h.0, h.1)

pub IsLike-IsSingleUse :
    (st st' : InviterJoinStore) → IsLike st st' → IsSingleUse st → IsSingleUse st'
IsLike-IsSingleUse st st' like h = record {
  one_each = λ id id' r r' e e' shared.
      let (a, ea, ia, ja) = back id r e in
      let (b, eb, ib, jb) = back id' r' e' in
      h.one_each id id' a b ea eb
        (elim shared [ inl i ↦ inl (ia ∙ i ∙ sym ib) | inr j ↦ inr (ja ∙ j ∙ sym jb) ]);
  not_reserved = λ id r e.
      let (a, ea, ia, ja) = back id r e in
      rw (like.same_reservations, ← ia) (h.not_reserved id a ea);
}
  where
    back :
        (id : Bytes) (r : CommittedRecord)
        → lookup id st'.commits ≡ some r
        → (a : CommittedRecord) × (lookup id st.commits ≡ some a)
          × (a.invitation_id ≡ r.invitation_id)
          × (a.join_request_id ≡ r.join_request_id)
    back id r e = SameIds-back _ r (rw e at (like.same_ids id))

module _ (st : InviterJoinStore) where
  lease_delivery-SameIds :
      (k : Bytes) (now seconds : ℕ) (id : Bytes)
      → SameIds (lookup id st.commits) (lookup id (lease_delivery st k now seconds).0.commits)
  unfolding lease_delivery lease_checks grant_lease
  lease_delivery-SameIds k now seconds id = grind (arith, lookup-replace, SameIds-refl)

  fail_delivery-SameIds :
      (lease : DeliveryLease) (id : Bytes)
      → SameIds (lookup id st.commits) (lookup id (fail_delivery st lease).0.commits)
  unfolding fail_delivery leased_record
  fail_delivery-SameIds lease id = grind (arith, lookup-replace, SameIds-refl)

  complete_delivery-SameIds :
      (lease : DeliveryLease) (now : ℕ) (id : Bytes)
      → SameIds (lookup id st.commits) (lookup id (complete_delivery st lease now).0.commits)
  unfolding complete_delivery leased_record
  complete_delivery-SameIds lease now id = grind (arith, lookup-replace, SameIds-refl)

  sweep-SameIds :
      (now : ℕ) (id : Bytes) → SameIds (lookup id st.commits) (lookup id (sweep st now).commits)
  unfolding sweep
  sweep-SameIds now id = ground (
    arith,
    SameIds-refl (lookup id st.commits),
    lookup-map_values id (mark_worn_out st.policy now) st.commits,
  )

  pub lease_delivery-IsLike :
      (k : Bytes) (now seconds : ℕ) → IsLike st (lease_delivery st k now seconds).0
  lease_delivery-IsLike k now seconds = record {
    same_reservations = unfold lease_delivery grant_lease in ground arith;
    same_ids = lease_delivery-SameIds k now seconds;
  }

  pub fail_delivery-IsLike : (lease : DeliveryLease) → IsLike st (fail_delivery st lease).0
  fail_delivery-IsLike lease = record {
    same_reservations = unfold fail_delivery in ground arith;
    same_ids = fail_delivery-SameIds lease;
  }

  pub complete_delivery-IsLike :
      (lease : DeliveryLease) (now : ℕ) → IsLike st (complete_delivery st lease now).0
  complete_delivery-IsLike lease now = record {
    same_reservations = unfold complete_delivery in ground arith;
    same_ids = complete_delivery-SameIds lease now;
  }

  pub sweep-IsLike : (now : ℕ) → IsLike st (sweep st now)
  sweep-IsLike now = record {
    same_reservations = unfold sweep in refl;
    same_ids = sweep-SameIds now;
  }
