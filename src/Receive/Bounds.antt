-- ===== src/Receive/Bounds.antt =====
-- What a rotation, a poll request and a delivered page guarantee.
use session_chat.Prelude.{
  ℕ, ◌+◌, ◌-◌, ◌≤◌, ◌<◌, ◌≡◌, ◌≢◌, refl, List, [], ◌∷◌, false, Option, arith, All, length, inl, inr,
  checked_add, checked_add-eq_some, Option-cases,
}
use session_chat.Prelude.Outcome.{ok, Result-cases}
use session_chat.Prelude.Bytes.{Bytes, Bytes-discrete}
use session_chat.Transport.Contract.{OperationBudget}
use session_chat.Receive.Binding.{
  TransportProfileId, local_v1, fast_v1, private_interactive_v1, private_mixnet_v1, off_grid_v1,
  as_str, try_from, CursorBindingV1, generation_successor,
}
use session_chat.Receive.Rotation.{
  LifecycleProviderContractV1, RotationModeV1, routine, RotationRequestV1, MailboxAuthoritySetV1,
  MailboxRotationResultV1, rotation_new, validate_rotation_request, rotation_result_new,
}
use session_chat.Receive.Page.{
  ReceivedCanonicalEnvelope, PollRequest, ReceiveBatch, has_repeat, ids_of, check_items, batch_new,
}

-- Each profile is read back from its identifier.
pub try_from-as_str : (p : TransportProfileId) → try_from (as_str p) ≡ ok p
unfolding try_from as_str Bytes-discrete
try_from-as_str local_v1 = refl
try_from-as_str fast_v1 = refl
try_from-as_str private_interactive_v1 = refl
try_from-as_str private_mixnet_v1 = refl
try_from-as_str off_grid_v1 = refl

module _ {D R A O : Type 0} where
  -- A rotation that is accepted moves to the next generation of the same mailbox, under a new receive
  -- scope and while its predecessor lives; a routine one drains the predecessor for no longer than
  -- declared, and neither beyond it nor beyond the successor.
  pub rotation-moves :
      (k : LifecycleProviderContractV1) (id : Bytes) (p : CursorBindingV1) (mode : RotationModeV1)
      (expires_at now : ℕ) (budget : OperationBudget) (r : RotationRequestV1)
      (authorities : MailboxAuthoritySetV1 D R A O) (result : MailboxRotationResultV1 D R A O)
      → rotation_new id p mode expires_at budget ≡ ok r
      → rotation_result_new k r authorities now ≡ ok result
      → let s = result.authorities.binding in
        (s.generation ≡ p.generation + 1)
        × (s.continuity_id ≡ p.continuity_id)
        × (s.receive_scope ≢ p.receive_scope)
        × (s.expires_at ≡ expires_at)
        × (now < p.expires_at)
        × ((until : ℕ)
            → mode ≡ routine until
            → (now < until)
              × (until ≤ p.expires_at)
              × (until < expires_at)
              × (until - now ≤ k.maximum_routine_drain))
  unfolding rotation_new rotation_result_new validate_rotation_request generation_successor
      checked_add
  rotation-moves k id p mode expires_at now budget r authorities result made done = ground arith

abbrev pub total_of : List ReceivedCanonicalEnvelope → ℕ
total_of [] = 0
total_of (item ∷ items) = length item.envelope.bytes + total_of items

check_items-ok :
    (maximum now counted : ℕ) (items : List ReceivedCanonicalEnvelope)
    → counted ≤ maximum
    → check_items maximum now items counted ≡ ok tt
    → All (λ item. now < item.envelope.expires_at) items × (counted + total_of items ≤ maximum)
unfolding check_items
check_items-ok maximum now counted [] small h = (tt, omega arith)
check_items-ok maximum now counted (item ∷ items) small h =
    elim (Option-cases (checked_add counted (length item.envelope.bytes))) [
      | inl q ↦ absurd (ground (arith, q, h))
      | inr (total, q) ↦
          let sum = checked_add-eq_some counted (length item.envelope.bytes) total q in
          let rest =
            check_items-ok maximum now total items (ground (arith, q, h)) (ground (arith, q, h)) in
          ground (arith, q, h, sum, rest)
    ]

module _ {Binding : Type 0} where
  -- A page that is accepted has no more envelopes and no more bytes than were asked for, none that has
  -- expired, no identifier twice, and the binding of its request.
  pub batch-within :
      (items : List ReceivedCanonicalEnvelope) (next : Option Bytes) (request : PollRequest Binding)
      (now : ℕ) (batch : ReceiveBatch Binding)
      → batch_new items next request now ≡ ok batch
      → (batch.items ≡ items)
        × (length items ≤ request.max_envelopes)
        × (total_of items ≤ request.max_encoded_bytes)
        × All (λ item. now < item.envelope.expires_at) items
        × (has_repeat (ids_of items) ≡ false)
        × (batch.receive_binding ≡ request.receive_binding)
  unfolding batch_new
  batch-within items next request now batch h =
      elim (Result-cases (check_items request.max_encoded_bytes now items 0)) [
        | inl (e, q) ↦ absurd (ground (arith, q, h))
        | inr (done, q) ↦ ground (
          arith,
          q,
          h,
          check_items-ok request.max_encoded_bytes now 0 items (omega arith) (ground (arith, q)),
        )
      ]
