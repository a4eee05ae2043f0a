-- ===== src/Transaction/Seed.antt =====
-- crates/session-inviter-transaction/src/lib.rs: `seed_reservation`, which makes room for a
-- reservation by retiring one that has expired.
use session_chat.Prelude.{
  ◌≡◌, ◌<◌, arith, ℕ, List, [], ◌∷◌, ◌++◌, Bool, false, ◌&&◌, ◌||◌, Option, none, some, ltb, leb,
  ◌==◌, if◌then◌else◌, length, drop, any,
}
use session_chat.Prelude.Outcome.{Result, ok, err, ◌>>=◌, ◌>>◌, reject_if, ok_or}
use session_chat.Prelude.Bytes.{Bytes, same, bytes_lt}
use session_chat.Prelude.Map.{Map, lookup, insert, remove, any_value}
use session_chat.Transaction.Types.{
  ReservedInvitation, TransactionError, capacity_exceeded, conflict, expired, ReservationRecord,
  RetiredReservation, InviterJoinStore, hard_maximum_retired_reservations,
}

-- The queue of retired reservations forgets its oldest entry when it is full.
unfoldable pub retire_reservation : InviterJoinStore → Bytes → ReservationRecord → InviterJoinStore
retire_reservation st id reservation = record st { retired_reservations = kept ++ retired ∷ [] }
  where
    open st use {retired_reservations}

    kept : List RetiredReservation
    kept =
        if leb hard_maximum_retired_reservations (length retired_reservations)
        then drop 1 retired_reservations
        else retired_reservations

    retired : RetiredReservation
    retired = record {
      invitation_id = id;
      invitation_generation = reservation.invitation_generation;
    }

-- The order of pairs of an expiry and an identifier.
abbrev pub is_earlier : ℕ × Bytes → ℕ × Bytes → Bool
is_earlier (e, id) (e', id') = ltb e e' || (e == e' && bytes_lt id id')

abbrev pub earliest : ℕ × Bytes → Option (ℕ × Bytes) → Option (ℕ × Bytes)
earliest a none = some a
earliest a (some b) = if is_earlier b a then some b else some a

-- `filter(expired).map((expiry, id)).min()`
unfoldable pub oldest_expired : ℕ → Map ReservationRecord → Option (ℕ × Bytes)
oldest_expired now [] = none
oldest_expired now ((id, r) ∷ m) =
    let rest = oldest_expired now m in
    if leb r.expires_at now then earliest (r.expires_at, id) rest else rest

-- The reservation is taken out and retired.
abbrev pub retire : InviterJoinStore → Bytes → ReservationRecord → InviterJoinStore
retire st id r = retire_reservation (record st { reservations = remove id st.reservations }) id r

unfoldable pub make_room : InviterJoinStore → Bytes → ℕ → Result TransactionError InviterJoinStore
make_room st id now = elim (lookup id st.reservations) [
  | some old ↦ ok (retire st id old)
  | none ↦
      if leb st.policy.maximum_transactions (length st.reservations)
      then (do
        oldest ← ok_or (oldest_expired now st.reservations) capacity_exceeded
        old ← ok_or (lookup oldest.1 st.reservations) capacity_exceeded
        ok (retire st oldest.1 old))
      else ok st
]

abbrev pub is_retired : ReservedInvitation → RetiredReservation → Bool
is_retired v r =
    same r.invitation_id v.invitation_id && same r.invitation_generation v.invitation_generation

-- The identifier is held by a reservation that is live, or is of the same generation.
abbrev pub is_held : ℕ → ReservedInvitation → Option ReservationRecord → Bool
is_held now v none = false
is_held now v (some r) =
    ltb now r.expires_at || same r.invitation_generation v.invitation_generation

unfoldable pub seed_checks :
    InviterJoinStore → ReservedInvitation → ℕ → Result TransactionError InviterJoinStore
seed_checks st v now = do
  reject_if (any_value (λ r. same r.invitation_id v.invitation_id) st.commits) conflict
  reject_if (leb v.expires_at now) expired
  reject_if (any (is_retired v) st.retired_reservations) conflict
  reject_if (is_held now v (lookup v.invitation_id st.reservations)) conflict
  make_room st v.invitation_id now

abbrev pub reservation_record : ReservedInvitation → ReservationRecord
reservation_record v = record {
  invitation_generation = v.invitation_generation;
  join_request_id = v.join_request_id;
  expires_at = v.expires_at;
}

unfoldable pub seed_reservation :
    InviterJoinStore
    → ReservedInvitation
    → ℕ
    → InviterJoinStore × Result TransactionError (Unit {0})
seed_reservation st v now = elim (seed_checks st v now) [
  | err e ↦ (st, err e)
  | ok room ↦ (
    record room { reservations = insert v.invitation_id (reservation_record v) room.reservations },
    ok tt,
  )
]

-- What an accepted reservation has passed.
pub seed_checks-ok :
    (st room : InviterJoinStore) (v : ReservedInvitation) (now : ℕ)
    → seed_checks st v now ≡ ok room
    → (any_value (λ r. same r.invitation_id v.invitation_id) st.commits ≡ false)
      × (now < v.expires_at)
      × (any (is_retired v) st.retired_reservations ≡ false)
      × (is_held now v (lookup v.invitation_id st.reservations) ≡ false)
      × (make_room st v.invitation_id now ≡ ok room)
unfolding seed_checks
seed_checks-ok st room v now h = ground arith
