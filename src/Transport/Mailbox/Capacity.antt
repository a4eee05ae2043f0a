-- ===== src/Transport/Mailbox/Capacity.antt =====
-- crates/session-transport/src/lib.rs: the methods on `&mut self` of the local transport as one step
-- function, and the number of mailboxes that they keep.
use session_chat.Prelude.{ℕ, ◌≤◌, ◌<◌, ◌≡◌, List, [], ◌∷◌, Option, arith, inl, inr}
use session_chat.Prelude.Outcome.{ok, Result-cases}
use session_chat.Prelude.Bytes.{Bytes}
use session_chat.Prelude.Map.{retain, count_values}
use session_chat.Prelude.Map.Laws.{length-insert-le, length-retain, length-replace}
use session_chat.Protocol.Cbor.{Cbor}
use session_chat.Protocol.Envelope.{OpaqueEnvelope}
use session_chat.Protocol.Endpoint.{LocalWelcomeDepositEndpoint}
use session_chat.Transport.Mailbox.{
  LocalMailboxPolicy, LocalMemoryWelcomeTransport, LocalMailboxRecord, LocalWelcomeMailbox,
  LocalWelcomeCapability, Draws, is_live, mailbox_parts, create_welcome_mailbox, mailbox_count, new,
}
use session_chat.Transport.Mailbox.Operations.{deposit, accept, receive, acknowledge}

pub data Call : Type 0 where
  creates : (expires_at : ℕ) → Draws → Call
  deposits : LocalWelcomeDepositEndpoint → OpaqueEnvelope → (draw : Option Bytes) → Call
  receives : LocalWelcomeCapability → Call
  acknowledges : LocalWelcomeCapability → (delivery_id : Bytes) → Call

module _ (c : Cbor) (sha256 : Bytes → Bytes) where
  -- A call at its time, with the transport that it leaves.
  unfoldable pub step : LocalMemoryWelcomeTransport → ℕ × Call → LocalMemoryWelcomeTransport
  step t (now, creates expires_at draws) = (create_welcome_mailbox sha256 t expires_at now draws).0
  step t (now, deposits endpoint e draw) = (deposit c sha256 t endpoint e now draw).0
  step t (now, receives authority) = (receive sha256 t authority now).0
  step t (now, acknowledges authority id) = (acknowledge sha256 t authority id now).0

  unfoldable pub run : LocalMemoryWelcomeTransport → List (ℕ × Call) → LocalMemoryWelcomeTransport
  run t [] = t
  run t (call ∷ calls) = run (step t call) calls

-- No more mailboxes than the policy allows, and the policy is the one given.
pub record IsBounded (policy : LocalMailboxPolicy) (t : LocalMemoryWelcomeTransport) : Type 0 where
  pub same_policy : t.policy ≡ policy
  pub within : mailbox_count t ≤ policy.maximum_live_mailboxes

module _ (sha256 : Bytes → Bytes) (policy : LocalMailboxPolicy) where
  mailbox_parts-room :
      (t : LocalMemoryWelcomeTransport) (expires_at now : ℕ) (draws : Draws) (id : Bytes)
      (r : LocalMailboxRecord) (m : LocalWelcomeMailbox)
      → mailbox_parts sha256 t expires_at now draws ≡ ok (id, r, m)
      → count_values (is_live now) t.mailboxes < t.policy.maximum_live_mailboxes
  unfolding mailbox_parts
  mailbox_parts-room t expires_at now draws id r m h = ground arith

  create-IsBounded :
      (t : LocalMemoryWelcomeTransport) (expires_at now : ℕ) (draws : Draws)
      → IsBounded policy t
      → IsBounded policy (create_welcome_mailbox sha256 t expires_at now draws).0
  unfolding create_welcome_mailbox mailbox_count
  create-IsBounded t expires_at now draws h =
      elim (Result-cases (mailbox_parts sha256 t expires_at now draws)) [
        | inl (e, q) ↦ rw (q, create_welcome_mailbox) h
        | inr ((id, r, m), q) ↦
            rw (q, create_welcome_mailbox)
              (ground (
                arith,
                h.same_policy,
                mailbox_parts-room t expires_at now draws id r m q,
                length-insert-le id r (retain (is_live now) t.mailboxes),
                length-retain (is_live now) t.mailboxes,
              ))
      ]

module _ (c : Cbor) (sha256 : Bytes → Bytes) (policy : LocalMailboxPolicy) where
  step-IsBounded :
      (t : LocalMemoryWelcomeTransport) (call : ℕ × Call)
      → IsBounded policy t
      → IsBounded policy (step c sha256 t call)
  unfolding step mailbox_count deposit accept receive acknowledge
  step-IsBounded t (now, creates expires_at draws) h =
      create-IsBounded sha256 policy t expires_at now draws h
  step-IsBounded t (now, deposits endpoint e draw) h = grind (arith, length-replace)
  step-IsBounded t (now, receives authority) h = grind (arith, length-replace)
  step-IsBounded t (now, acknowledges authority id) h = grind (arith, length-replace)

  run-IsBounded :
      (t : LocalMemoryWelcomeTransport) (calls : List (ℕ × Call))
      → IsBounded policy t
      → IsBounded policy (run c sha256 t calls)
  unfolding run
  run-IsBounded t [] h = h
  run-IsBounded t (call ∷ calls) h =
      run-IsBounded (step c sha256 t call) calls (step-IsBounded t call h)

  -- A new local transport keeps at most `maximum_live_mailboxes` mailboxes, those that have expired
  -- and wait to be pruned included, after any calls at any times.
  pub run-new-few_mailboxes :
      (t : LocalMemoryWelcomeTransport) (draw : Option Bytes) (calls : List (ℕ × Call))
      → new policy draw ≡ ok t
      → mailbox_count (run c sha256 t calls) ≤ policy.maximum_live_mailboxes
  unfolding new mailbox_count
  run-new-few_mailboxes t draw calls made = (run-IsBounded t calls (ground arith)).within
