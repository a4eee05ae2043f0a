-- ===== src/Lifecycle/Compromise.antt =====
-- What a rotation leaves of the predecessor: nothing from its retirement on, which for a compromise is
-- the moment of the rotation.
use session_chat.Prelude.{
  ℕ, ◌≤◌, ◌≡◌, refl, false, List, [], ◌∷◌, none, some, arith, find, update_first, Option-cases, inl,
  inr, find-update_first, find-append, find_holds, ◌++◌,
}
use session_chat.Prelude.Outcome.{ok, is_ok, Result-cases}
use session_chat.Prelude.Bytes.{Bytes, same}
use session_chat.Protocol.Cbor.{Cbor}
use session_chat.Transport.Contract.{OperationBudget, DepositRequest}
use session_chat.Transport.Dispatch.{DispatchControl, DispatchObservation}
use session_chat.Receive.Binding.{CursorBindingV1}
use session_chat.Receive.Rotation.{LifecycleProviderContractV1, RotationRequestV1}
use session_chat.Receive.Page.{PollRequest}
use session_chat.Receive.Checkpoint.{ReceivePollBindingV1}
use session_chat.Lifecycle.Provider.{
  DeterministicAuthorityV1, GenerationMaterial, MailboxState, LifecycleProvider, is_of,
  take_material, fresh_generation, mailbox_index, open_mailbox,
}
use session_chat.Lifecycle.Generations.{Rotated, rotate_active, rotate_at, retirement, mailbox_for}
use session_chat.Lifecycle.Deliveries.{
  AcknowledgementRequest, deposit_now, poll_now, acknowledge_now, poll_checks,
}

-- The first mailbox of the generation retires at that time.
abbrev pub Retires : LifecycleProvider → CursorBindingV1 → ℕ → Type 0
Retires p binding at =
    (m : MailboxState) × (find (is_of binding) p.mailboxes ≡ some m) × (m.retire_at ≡ some at)

pub fresh_generation-mailboxes :
    (p : LifecycleProvider) (fingerprint continuity : Bytes) (generation expires_at : ℕ)
    → (fresh_generation p fingerprint continuity generation expires_at).0.mailboxes ≡ p.mailboxes
unfolding fresh_generation take_material
fresh_generation-mailboxes p f k g e = ground arith

-- What the write of the rotation leaves is found, whatever is appended.
retire_found :
    (binding : CursorBindingV1) (at : ℕ) (ms ys : List MailboxState) (m : MailboxState)
    → find (is_of binding) ms ≡ some m
    → find
        (is_of binding)
        (update_first (is_of binding) (λ m. record m { retire_at = some at }) ms ++ ys)
      ≡ some (record m { retire_at = some at })
retire_found binding at ms ys m h =
    let f = λ (m : MailboxState). record m { retire_at = some at } in
    find-append (is_of binding) (update_first (is_of binding) f ms) ys (f m)
      (find-update_first (is_of binding) f ms m h (find_holds (is_of binding) ms m h))

rotate_active-Retires :
    (p : LifecycleProvider) (request : RotationRequestV1) (now : ℕ) (result : Rotated)
    → (rotate_active p request now).1 ≡ ok result
    → Retires (rotate_active p request now).0 request.predecessor (retirement request.mode now)
unfolding rotate_active
rotate_active-Retires p request now result h =
    let b = request.predecessor in
    let fresh =
      fresh_generation p b.binding_fingerprint b.continuity_id request.successor_generation
        request.successor_expires_at in
    elim (Result-cases fresh.1) [
      | inl (e, q) ↦ absurd (ground (arith, q, h))
      | inr (successor, q) ↦ elim (Option-cases (find (is_of b) fresh.0.mailboxes)) [
        | inl none_found ↦ absurd (ground (arith, q, none_found, h))
        | inr (m, found) ↦ (
          record m { retire_at = some (retirement request.mode now) },
          ground (
            arith,
            h,
            q,
            found,
            retire_found b (retirement request.mode now) fresh.0.mailboxes
                (mailbox_for successor ∷ []) m found,
          ),
          refl,
        )
      ]
    ]

pub open_mailbox_refused :
    (p : LifecycleProvider) (a : DeterministicAuthorityV1) (token : GenerationMaterial → Bytes)
    (at now : ℕ)
    → Retires p a.binding at
    → at ≤ now
    → is_ok (open_mailbox p a token now) ≡ false
unfolding open_mailbox mailbox_index
open_mailbox_refused p a token at now (m, found, retires) h = ground (arith, found, retires)

-- A fresh rotation retires its predecessor.
rotate_at-Retires :
    (p : LifecycleProvider) (expected : LifecycleProviderContractV1) (a : DeterministicAuthorityV1)
    (request : RotationRequestV1) (now : ℕ) (result : Rotated)
    → (rotate_at p expected a request now).1 ≡ ok result
    → find (λ kept. same kept.rotation_id request.rotation_id) p.rotations ≡ none
    → Retires
        (rotate_at p expected a request now).0
        request.predecessor
        (retirement request.mode now)
unfolding rotate_at
rotate_at-Retires p expected a request now result h new =
    ground (arith, h, new, rotate_active-Retires p request now result)

module _ {K : Type 0} (control : DispatchControl K) (c : Cbor) where
  -- At a mailbox that has retired, each operation is refused behind its first checkpoint.
  module _ (p : LifecycleProvider) (b : DeterministicAuthorityV1) (at : ℕ)
      (retires : Retires p b.binding at)
      (late : (budget : OperationBudget) (k : K) (o : DispatchObservation)
        → (control.checkpoint budget k).1 ≡ ok o
        → at ≤ o.wall_now) where
    deposit_refused :
        (k : K) (request : DepositRequest)
        → ((deposit_now control k p b request).1 ≡ p)
          × (is_ok (deposit_now control k p b request).2 ≡ false)
    unfolding deposit_now
    deposit_refused k request = elim (Result-cases (control.checkpoint request.budget k).1) [
      | inl (e, q) ↦ ground (arith, q)
      | inr (o, q) ↦ ground (
        arith,
        q,
        open_mailbox_refused p b (λ m. m.deposit) at o.wall_now retires (late request.budget k o q),
      )
    ]

    poll_refused :
        (k : K) (request : PollRequest ReceivePollBindingV1)
        → is_ok (poll_now control c k p b request).1 ≡ false
    unfolding poll_now poll_checks
    poll_refused k request = elim (Result-cases (control.checkpoint request.budget k).1) [
      | inl (e, q) ↦ ground (arith, q)
      | inr (o, q) ↦ ground (
        arith,
        q,
        open_mailbox_refused p b (λ m. m.receive) at o.wall_now retires (late request.budget k o q),
      )
    ]

    acknowledge_refused :
        (k : K) (request : AcknowledgementRequest)
        → ((acknowledge_now control k p b request).1 ≡ p)
          × (is_ok (acknowledge_now control k p b request).2 ≡ false)
    unfolding acknowledge_now
    acknowledge_refused k request = elim (Result-cases (control.checkpoint request.budget k).1) [
      | inl (e, q) ↦ ground (arith, q)
      | inr (o, q) ↦ ground (
        arith,
        q,
        open_mailbox_refused p b (λ m. m.acknowledgement) at o.wall_now retires
            (late request.budget k o q),
      )
    ]

  -- After a rotation that was not a repeat, under clocks whose checkpoints read no time before the
  -- retirement (the end of the drain, or for a compromise the rotation itself), each deposit, poll and
  -- acknowledgement with an authority of the predecessor is refused, and the provider stays as it was.
  pub retired_refused :
      (p : LifecycleProvider) (expected : LifecycleProviderContractV1)
      (a b : DeterministicAuthorityV1) (request : RotationRequestV1) (now : ℕ) (result : Rotated)
      (k : K) (deposit : DepositRequest) (poll : PollRequest ReceivePollBindingV1)
      (acknowledgement : AcknowledgementRequest)
      → (rotate_at p expected a request now).1 ≡ ok result
      → find (λ kept. same kept.rotation_id request.rotation_id) p.rotations ≡ none
      → b.binding ≡ request.predecessor
      → ((budget : OperationBudget) (k : K) (o : DispatchObservation)
          → (control.checkpoint budget k).1 ≡ ok o
          → retirement request.mode now ≤ o.wall_now)
      → let p' = (rotate_at p expected a request now).0 in
        ((deposit_now control k p' b deposit).1 ≡ p')
        × (is_ok (deposit_now control k p' b deposit).2 ≡ false)
        × (is_ok (poll_now control c k p' b poll).1 ≡ false)
        × ((acknowledge_now control k p' b acknowledgement).1 ≡ p')
        × (is_ok (acknowledge_now control k p' b acknowledgement).2 ≡ false)
  retired_refused p expected a b request now result k deposit poll acknowledgement h new is_b late =
      let (m, found, at) = rotate_at-Retires p expected a request now result h new in
      let p' = (rotate_at p expected a request now).0 in
      let retires : Retires p' b.binding (retirement request.mode now) =
        (m, ground (arith, found, is_b), at) in
      let time = retirement request.mode now in
      (
        (deposit_refused p' b time retires late k deposit).0,
        (deposit_refused p' b time retires late k deposit).1,
        poll_refused p' b time retires late k poll,
        (acknowledge_refused p' b time retires late k acknowledgement).0,
        (acknowledge_refused p' b time retires late k acknowledgement).1,
      )
