-- ===== src/Transport/Mailbox/Rounds.antt =====
-- What is deposited is what is received, once, until it is acknowledged.
use session_chat.Prelude.{ℕ, ◌<◌, ◌≡◌, ◌⊎◌, Option, none, some, arith, inl, inr}
use session_chat.Prelude.Outcome.{Result, ok, err, Result-cases}
use session_chat.Prelude.Bytes.{Bytes, same_refl}
use session_chat.Prelude.Map.{lookup, insert, retain}
use session_chat.Prelude.Map.Laws.{lookup-replace, lookup-insert}
use session_chat.Protocol.Cbor.{Cbor}
use session_chat.Protocol.Envelope.{OpaqueEnvelope, encode_canonical}
use session_chat.Protocol.Endpoint
use session_chat.Protocol.Endpoint.{LocalWelcomeDepositEndpoint, deposit_capability_new}
use session_chat.Transport.Mailbox.{
  rejected, LocalMailboxRecord, LocalMemoryWelcomeTransport, LocalWelcomeCapability,
  LocalWelcomeMailbox, Draws, random_nonzero, capability_digest, mailbox_parts,
  create_welcome_mailbox, is_live,
}
use session_chat.Transport.Mailbox.Operations.{
  envelope_digest, deposit_checks, accept, deposit, open_checks, receive, acknowledge,
}

-- `result.map(f)`
abbrev pub map_ok : {E A B : Type 0} → (A → B) → Result E A → Result E B
map_ok f (ok a) = ok (f a)
map_ok f (err e) = err e

module _ (c : Cbor) (sha256 : Bytes → Bytes) (t : LocalMemoryWelcomeTransport) where
  -- Depositing again what was accepted, before the endpoint and the envelope expire, answers with the
  -- same delivery identifier and changes nothing, whatever is drawn.
  pub deposit-deposit :
      (endpoint : LocalWelcomeDepositEndpoint) (e : OpaqueEnvelope) (now later : ℕ)
      (draw again : Option Bytes) (id : Bytes)
      → (deposit c sha256 t endpoint e now draw).1 ≡ ok id
      → later < endpoint.expires_at
      → later < e.expires_at
      → let after = (deposit c sha256 t endpoint e now draw).0 in
        deposit c sha256 after endpoint e later again ≡ (after, ok id)
  unfolding deposit deposit_checks accept random_nonzero
  deposit-deposit endpoint e now later draw again id h in_time fresh =
      grind (arith, lookup-replace, same_refl)

  -- After a mailbox accepted an envelope, a deposit through the same endpoint that succeeds, at any
  -- time, is of an envelope with the same identifier and the same digest, answers with the same
  -- delivery identifier, and changes nothing.
  pub deposit_once :
      (endpoint : LocalWelcomeDepositEndpoint) (e e' : OpaqueEnvelope) (now later : ℕ)
      (draw again : Option Bytes) (id id' : Bytes)
      → (deposit c sha256 t endpoint e now draw).1 ≡ ok id
      → let after = (deposit c sha256 t endpoint e now draw).0 in
        (deposit c sha256 after endpoint e' later again).1 ≡ ok id'
        → (e'.envelope_id ≡ e.envelope_id)
          × (map_ok (envelope_digest c sha256) (encode_canonical c e')
              ≡ map_ok (envelope_digest c sha256) (encode_canonical c e))
          × (id' ≡ id)
          × ((deposit c sha256 after endpoint e' later again).0 ≡ after)
  unfolding deposit deposit_checks accept random_nonzero
  deposit_once endpoint e e' now later draw again id id' h h' = grind (arith, lookup-replace)

  -- The mailbox of the authorities, as long as nothing was deposited.
  pub record IsOpen (m : LocalWelcomeMailbox) (expires_at : ℕ) : Type 0 where
    pub r : LocalMailboxRecord
    pub held : lookup m.deposit.mailbox_id t.mailboxes ≡ some r
    pub same_mailbox : m.receive.mailbox_id ≡ m.deposit.mailbox_id
    pub same_acknowledgement : m.acknowledgement.mailbox_id ≡ m.deposit.mailbox_id
    pub nothing_yet : r.accepted ≡ none
    pub receive_expiry : m.receive.expires_at ≡ expires_at
    pub record_expiry : r.expires_at ≡ expires_at
    pub receive_instance : m.receive.transport_instance_id ≡ t.transport_instance_id
    pub receive_secret : r.receive_digest ≡ capability_digest sha256 m.receive.secret

  receive-IsOpen :
      (m : LocalWelcomeMailbox) (expires_at : ℕ) (e : OpaqueEnvelope) (now later : ℕ)
      (draw : Option Bytes) (id : Bytes)
      → IsOpen m expires_at
      → (deposit c sha256 t m.deposit e now draw).1 ≡ ok id
      → later < e.expires_at
      → later < expires_at
      → (receive sha256 (deposit c sha256 t m.deposit e now draw).0 m.receive later).1
        ≡ ok (some (record { delivery_id = id; envelope = e }))
  unfolding deposit deposit_checks accept random_nonzero receive open_checks
  receive-IsOpen m expires_at e now later draw id o h fresh in_time = grind (
    arith, lookup-replace, same_refl, o.held, o.same_mailbox, o.nothing_yet, o.receive_expiry,
    o.record_expiry, o.receive_instance, o.receive_secret,
  )

mailbox_parts-IsOpen :
    (c : Cbor) (sha256 : Bytes → Bytes) (t : LocalMemoryWelcomeTransport) (expires_at now : ℕ)
    (draws : Draws) (id : Bytes) (r : LocalMailboxRecord) (m : LocalWelcomeMailbox)
    → mailbox_parts sha256 t expires_at now draws ≡ ok (id, r, m)
    → IsOpen c sha256
        (record t { mailboxes = insert id r (retain (is_live now) t.mailboxes) })
        m
        expires_at
unfolding mailbox_parts random_nonzero deposit_capability_new Endpoint.new
mailbox_parts-IsOpen c sha256 t expires_at now draws id r m h = record {
  r = r;
  held = grind (arith, lookup-insert, same_refl);
  same_mailbox = ground arith;
  same_acknowledgement = ground arith;
  nothing_yet = ground arith;
  receive_expiry = ground arith;
  record_expiry = ground arith;
  receive_instance = ground arith;
  receive_secret = ground arith;
}

create-IsOpen :
    (c : Cbor) (sha256 : Bytes → Bytes) (t : LocalMemoryWelcomeTransport) (expires_at now : ℕ)
    (draws : Draws) (m : LocalWelcomeMailbox)
    → (create_welcome_mailbox sha256 t expires_at now draws).1 ≡ ok m
    → IsOpen c sha256 (create_welcome_mailbox sha256 t expires_at now draws).0 m expires_at
unfolding create_welcome_mailbox
create-IsOpen c sha256 t expires_at now draws m h =
    elim (Result-cases (mailbox_parts sha256 t expires_at now draws)) [
      | inl (e, q) ↦ absurd (ground (arith, q, h))
      | inr ((id, r, m'), q) ↦
          rw (q, create_welcome_mailbox)
            (mailbox_parts-IsOpen c sha256 t expires_at now draws id r m (ground (arith, q, h)))
    ]

-- What is deposited into a new mailbox is received from it, under the delivery identifier that the
-- deposit answered, at any time before the envelope and the mailbox expire.
pub receive-deposit :
    (c : Cbor) (sha256 : Bytes → Bytes) (t : LocalMemoryWelcomeTransport) (expires_at now : ℕ)
    (draws : Draws) (m : LocalWelcomeMailbox) (e : OpaqueEnvelope) (then later : ℕ)
    (draw : Option Bytes) (id : Bytes)
    → (create_welcome_mailbox sha256 t expires_at now draws).1 ≡ ok m
    → let made = (create_welcome_mailbox sha256 t expires_at now draws).0 in
      (deposit c sha256 made m.deposit e then draw).1 ≡ ok id
      → later < e.expires_at
      → later < expires_at
      → (receive sha256 (deposit c sha256 made m.deposit e then draw).0 m.receive later).1
        ≡ ok (some (record { delivery_id = id; envelope = e }))
receive-deposit c sha256 t expires_at now draws m e then later draw id made h fresh in_time =
    receive-IsOpen c sha256 (create_welcome_mailbox sha256 t expires_at now draws).0 m expires_at e
      then later draw id (create-IsOpen c sha256 t expires_at now draws m made) h fresh in_time

-- An acknowledged envelope is gone: a receive from the same mailbox, at any time, is rejected or
-- gives nothing.
pub receive-acknowledge :
    (sha256 : Bytes → Bytes) (t : LocalMemoryWelcomeTransport)
    (authority receiver : LocalWelcomeCapability) (id : Bytes) (now later : ℕ)
    → receiver.mailbox_id ≡ authority.mailbox_id
    → (acknowledge sha256 t authority id now).1 ≡ ok tt
    → let answer = (receive sha256 (acknowledge sha256 t authority id now).0 receiver later).1 in
      (answer ≡ ok none) ⊎ (answer ≡ err rejected)
unfolding acknowledge receive open_checks
receive-acknowledge sha256 t authority receiver id now later same_mailbox h =
    grind (arith, lookup-replace, same_refl)
