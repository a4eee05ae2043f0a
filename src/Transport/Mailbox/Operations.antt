-- ===== src/Transport/Mailbox/Operations.antt =====
-- crates/session-transport/src/lib.rs: deposit, receive and acknowledge, and the local transport as
-- the coordinator's adapter. `constant_time::verify_slices_are_equal` is equality.
use session_chat.Prelude.{ℕ, not, ◌&&◌, ◌||◌, Option, none, some, ltb, leb, ◌==◌, if◌then◌else◌}
use session_chat.Prelude.Outcome.{Result, ok, err, ◌>>=◌, ◌>>◌, reject_if, ok_or, map_err}
use session_chat.Prelude.Bytes.{Bytes, same, all_zero}
use session_chat.Prelude.Map.{lookup, replace}
use session_chat.Protocol.Cbor.{Cbor}
use session_chat.Protocol.Envelope.{OpaqueEnvelope, encode_canonical, decode_canonical}
use session_chat.Protocol.Endpoint.{LocalWelcomeDepositEndpoint}
use session_chat.Transport.Contract.{
  TransportFailure, failure, expired_envelope, corrupt_remote_response, misconfigured,
  invalid_authority, queue_full, internal, never, backoff, DepositRequest,
}
use session_chat.Transport.Dispatch.{DispatchControl, EnvelopeDeposit}
use session_chat.Transport.Mailbox.{
  LocalTransportError, invalid_policy, rejected, capacity_exceeded, provider_failure,
  ReceivedEnvelope, AcceptedEnvelope, LocalMailboxRecord, LocalMemoryWelcomeTransport,
  LocalWelcomeCapability, random_nonzero, domain_digest, envelope_digest_domain, secret_matches,
}

abbrev pub map_local_dispatch_failure : LocalTransportError → TransportFailure
map_local_dispatch_failure invalid_policy = failure misconfigured never
map_local_dispatch_failure rejected = failure invalid_authority never
map_local_dispatch_failure capacity_exceeded = failure queue_full backoff
map_local_dispatch_failure provider_failure = failure internal backoff

-- A record in its place.
abbrev pub write :
    LocalMemoryWelcomeTransport → Bytes → LocalMailboxRecord → LocalMemoryWelcomeTransport
write t id r = record t { mailboxes = replace id r t.mailboxes }

module _ (c : Cbor) (sha256 : Bytes → Bytes) where
  abbrev pub envelope_digest : Bytes → Bytes
  envelope_digest encoded = domain_digest sha256 envelope_digest_domain encoded

  -- The record that the endpoint opens, and the digest of the envelope.
  unfoldable pub deposit_checks :
      LocalMemoryWelcomeTransport
      → LocalWelcomeDepositEndpoint
      → OpaqueEnvelope
      → ℕ
      → Result LocalTransportError (LocalMailboxRecord × Bytes)
  deposit_checks t endpoint e now = do
    reject_if
        (not (same endpoint.transport_instance_id t.transport_instance_id)
          || (leb endpoint.expires_at now
              || (leb e.expires_at now
                  || (ltb endpoint.expires_at e.expires_at || all_zero e.envelope_id))))
        rejected
    r ← ok_or (lookup endpoint.mailbox_id t.mailboxes) rejected
    reject_if
        (not (r.expires_at == endpoint.expires_at)
          || not (secret_matches sha256 r.deposit_digest endpoint.deposit_capability))
        rejected
    encoded ← map_err (λ _. rejected) (encode_canonical c e)
    ok (r, envelope_digest encoded)

  -- What a mailbox answers that has accepted an envelope before.
  abbrev pub repeated : AcceptedEnvelope → OpaqueEnvelope → Bytes → Result LocalTransportError Bytes
  repeated a e digest =
      if same a.envelope_id e.envelope_id && same a.envelope_digest digest
      then ok a.delivery_id
      else err rejected

  -- The record behind the checks, with the draw of a delivery identifier.
  unfoldable pub accept :
      LocalMemoryWelcomeTransport
      → Bytes
      → LocalMailboxRecord
      → OpaqueEnvelope
      → Bytes
      → Option Bytes
      → LocalMemoryWelcomeTransport × Result LocalTransportError Bytes
  accept t id r e digest draw = elim r.accepted [
    | some a ↦ (t, repeated a e digest)
    | none ↦ elim (random_nonzero draw) [
      | err f ↦ (t, err f)
      | ok delivery_id ↦ (
        write t id (record r {
          accepted = some (record {
            envelope_id = e.envelope_id;
            envelope_digest = digest;
            delivery_id = delivery_id;
            envelope = some e;
          });
        }),
        ok delivery_id,
      )
    ]
  ]

  unfoldable pub deposit :
      LocalMemoryWelcomeTransport
      → LocalWelcomeDepositEndpoint
      → OpaqueEnvelope
      → ℕ
      → Option Bytes
      → LocalMemoryWelcomeTransport × Result LocalTransportError Bytes
  deposit t endpoint e now draw = elim (deposit_checks t endpoint e now) [
    | err f ↦ (t, err f)
    | ok (r, digest) ↦ accept t endpoint.mailbox_id r e digest draw
  ]

-- An envelope that has expired is dropped.
abbrev pub unexpired : ℕ → Option OpaqueEnvelope → Option OpaqueEnvelope
unexpired now none = none
unexpired now (some e) = if leb e.expires_at now then none else some e

abbrev pub received : Bytes → Option OpaqueEnvelope → Option ReceivedEnvelope
received id none = none
received id (some e) = some (record { delivery_id = id; envelope = e })

module _ (sha256 : Bytes → Bytes) where
  -- The record that a capability opens, by the digest it is checked against.
  unfoldable pub open_checks :
      LocalMemoryWelcomeTransport
      → (LocalMailboxRecord → Bytes)
      → LocalWelcomeCapability
      → ℕ
      → Result LocalTransportError LocalMailboxRecord
  open_checks t digest authority now = do
    reject_if
        (not (same authority.transport_instance_id t.transport_instance_id)
          || leb authority.expires_at now)
        rejected
    r ← ok_or (lookup authority.mailbox_id t.mailboxes) rejected
    reject_if
        (not (r.expires_at == authority.expires_at)
          || not (secret_matches sha256 (digest r) authority.secret))
        rejected
    ok r

  abbrev pub receive_from :
      LocalMemoryWelcomeTransport
      → Bytes
      → LocalMailboxRecord
      → ℕ
      → Option AcceptedEnvelope
      → LocalMemoryWelcomeTransport × Result LocalTransportError (Option ReceivedEnvelope)
  receive_from t id r now none = (t, ok none)
  receive_from t id r now (some a) = (
    write t id (record r { accepted = some (record a { envelope = unexpired now a.envelope }) }),
    ok (received a.delivery_id (unexpired now a.envelope)),
  )

  unfoldable pub receive :
      LocalMemoryWelcomeTransport
      → LocalWelcomeCapability
      → ℕ
      → LocalMemoryWelcomeTransport × Result LocalTransportError (Option ReceivedEnvelope)
  receive t authority now = elim (open_checks t (λ r. r.receive_digest) authority now) [
    | err f ↦ (t, err f)
    | ok r ↦ receive_from t authority.mailbox_id r now r.accepted
  ]

  abbrev pub acknowledge_in :
      LocalMemoryWelcomeTransport
      → Bytes
      → LocalMailboxRecord
      → Bytes
      → Option AcceptedEnvelope
      → LocalMemoryWelcomeTransport × Result LocalTransportError (Unit {0})
  acknowledge_in t id r delivery_id none = (t, err rejected)
  acknowledge_in t id r delivery_id (some a) =
      if same a.delivery_id delivery_id
      then (write t id (record r { accepted = some (record a { envelope = none }) }), ok tt)
      else (t, err rejected)

  unfoldable pub acknowledge :
      LocalMemoryWelcomeTransport
      → LocalWelcomeCapability
      → Bytes
      → ℕ
      → LocalMemoryWelcomeTransport × Result LocalTransportError (Unit {0})
  acknowledge t authority delivery_id now =
      elim (open_checks t (λ r. r.acknowledgement_digest) authority now) [
        | err f ↦ (t, err f)
        | ok r ↦ acknowledge_in t authority.mailbox_id r delivery_id r.accepted
      ]

module _ (c : Cbor) (sha256 : Bytes → Bytes) {K : Type 0} (control : DispatchControl K)
    (draw : Option Bytes) where
  -- The deposit behind the first checkpoint and the checks of the envelope.
  abbrev pub after_deposit :
      K
      → DepositRequest
      → LocalMemoryWelcomeTransport × Result LocalTransportError Bytes
      → K × LocalMemoryWelcomeTransport × Result TransportFailure Bytes
  after_deposit k request (t, err f) = (k, t, err (map_local_dispatch_failure f))
  after_deposit k request (t, ok delivery_id) =
      let (k', observed) = control.checkpoint request.budget k in
      (k', t, elim observed [ err f ↦ err f | ok _ ↦ ok delivery_id ])

  abbrev pub deposit_at :
      K
      → LocalMemoryWelcomeTransport
      → LocalWelcomeDepositEndpoint
      → DepositRequest
      → ℕ
      → K × LocalMemoryWelcomeTransport × Result TransportFailure Bytes
  deposit_at k t endpoint request now =
      if leb request.envelope.expires_at now || ltb endpoint.expires_at request.envelope.expires_at
      then (k, t, err (failure expired_envelope never))
      else elim (decode_canonical c request.envelope.bytes) [
        | err _ ↦ (k, t, err (failure corrupt_remote_response never))
        | ok e ↦ after_deposit k request (deposit c sha256 t endpoint e now draw)
      ]

  unfoldable pub local_deposit :
      K
      → LocalMemoryWelcomeTransport
      → LocalWelcomeDepositEndpoint
      → DepositRequest
      → K × LocalMemoryWelcomeTransport × Result TransportFailure Bytes
  local_deposit k t endpoint request =
      let (k', observed) = control.checkpoint request.budget k in
      elim observed [ err f ↦ (k', t, err f) | ok o ↦ deposit_at k' t endpoint request o.wall_now ]

  -- `impl EnvelopeDeposit for LocalMemoryWelcomeTransport`, with the draw of its delivery identifier.
  abbrev pub local_adapter :
      EnvelopeDeposit K LocalMemoryWelcomeTransport LocalWelcomeDepositEndpoint
  local_adapter = record { deposit = local_deposit }
