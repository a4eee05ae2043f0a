-- ===== src/Transport/Mailbox.antt =====
-- crates/session-transport/src/lib.rs: the local single-message mailboxes, and the local transport as
-- an adapter. The random source gives each draw of its outcome, `none` for a failure, in the order of
-- the calls, and SHA-256 is a function on bytes: both are third-party code.
pub mod Operations
pub mod Rounds
pub mod Capacity
use session_chat.Prelude.{
  ℕ, ◌-◌, List, [], ◌++◌, Bool, true, false, not, ◌&&◌, ◌||◌, Option, none, some, ltb, leb, ◌==◌,
  if◌then◌else◌, length,
}
use session_chat.Prelude.Outcome.{Result, ok, err, ◌>>=◌, ◌>>◌, reject_if, ok_or, map_err}
use session_chat.Prelude.Bytes.{Bytes, same, all_zero, codes}
use session_chat.Prelude.Map.{Map, lookup, contains, insert, replace, retain, count_values}
use session_chat.Protocol.Cbor.{Cbor}
use session_chat.Protocol.Envelope.{OpaqueEnvelope, encode_canonical, decode_canonical}
use session_chat.Protocol.Endpoint
use session_chat.Protocol.Endpoint.{LocalWelcomeDepositEndpoint, deposit_capability_new}
use session_chat.Transport.Contract.{
  TransportFailure, failure, expired_envelope, corrupt_remote_response, misconfigured,
  invalid_authority, queue_full, internal, never, backoff, DepositRequest,
}
use session_chat.Transport.Dispatch.{DispatchControl, EnvelopeDeposit}

pub data LocalTransportError : Type 0 where
  invalid_policy rejected capacity_exceeded provider_failure : LocalTransportError

pub record LocalMailboxPolicy : Type 0 where
  pub maximum_lifetime_seconds : ℕ
  pub maximum_live_mailboxes : ℕ

unfoldable pub policy_new : ℕ → ℕ → Result LocalTransportError LocalMailboxPolicy
policy_new lifetime mailboxes =
    if lifetime == 0 || mailboxes == 0
    then err invalid_policy
    else ok (record { maximum_lifetime_seconds = lifetime; maximum_live_mailboxes = mailboxes })

pub record ReceivedEnvelope : Type 0 where
  pub delivery_id : Bytes
  pub envelope : OpaqueEnvelope

pub record AcceptedEnvelope : Type 0 where
  pub envelope_id : Bytes
  pub envelope_digest : Bytes
  pub delivery_id : Bytes
  pub envelope : Option OpaqueEnvelope

pub record LocalMailboxRecord : Type 0 where
  pub expires_at : ℕ
  pub deposit_digest : Bytes
  pub receive_digest : Bytes
  pub acknowledgement_digest : Bytes
  pub accepted : Option AcceptedEnvelope

pub record LocalMemoryWelcomeTransport : Type 0 where
  pub policy : LocalMailboxPolicy
  pub transport_instance_id : Bytes
  pub mailboxes : Map LocalMailboxRecord

-- The receive and the acknowledgement capability, which have the same fields.
pub record LocalWelcomeCapability : Type 0 where
  pub transport_instance_id : Bytes
  pub mailbox_id : Bytes
  pub secret : Bytes
  pub expires_at : ℕ

pub record LocalWelcomeMailbox : Type 0 where
  pub deposit : LocalWelcomeDepositEndpoint
  pub receive : LocalWelcomeCapability
  pub acknowledgement : LocalWelcomeCapability

-- `DeliveryId::from_provider_bytes`
unfoldable pub from_provider_bytes : Bytes → Option Bytes
from_provider_bytes bytes = if all_zero bytes then none else some bytes

abbrev pub capability_digest_domain : Bytes
capability_digest_domain = codes "session-chat/local-mailbox-capability/v1\0"

abbrev pub envelope_digest_domain : Bytes
envelope_digest_domain = codes "session-chat/local-mailbox-envelope/v1\0"

unfoldable pub random_nonzero : Option Bytes → Result LocalTransportError Bytes
random_nonzero draw = do
  bytes ← ok_or draw provider_failure
  reject_if (all_zero bytes) provider_failure
  ok bytes

unfoldable pub new :
    LocalMailboxPolicy → Option Bytes → Result LocalTransportError LocalMemoryWelcomeTransport
new policy draw = do
  id ← random_nonzero draw
  ok (record { policy = policy; transport_instance_id = id; mailboxes = [] })

-- A mailbox that has not expired.
abbrev pub is_live : ℕ → LocalMailboxRecord → Bool
is_live now r = ltb now r.expires_at

-- The four draws of a new mailbox.
pub record Draws : Type 0 where
  pub mailbox_id : Option Bytes
  pub deposit_secret : Option Bytes
  pub receive_secret : Option Bytes
  pub acknowledgement_secret : Option Bytes

abbrev pub capability : LocalMemoryWelcomeTransport → Bytes → Bytes → ℕ → LocalWelcomeCapability
capability t id secret expires_at = record {
  transport_instance_id = t.transport_instance_id;
  mailbox_id = id;
  secret = secret;
  expires_at = expires_at;
}

module _ (sha256 : Bytes → Bytes) where
  abbrev pub domain_digest : Bytes → Bytes → Bytes
  domain_digest domain value = sha256 (domain ++ value)

  abbrev pub capability_digest : Bytes → Bytes
  capability_digest secret = domain_digest capability_digest_domain secret

  abbrev pub secret_matches : Bytes → Bytes → Bool
  secret_matches expected secret = same expected (capability_digest secret)

  -- The identifier, the record and the authorities of a new mailbox.
  unfoldable pub mailbox_parts :
      LocalMemoryWelcomeTransport
      → ℕ
      → ℕ
      → Draws
      → Result LocalTransportError (Bytes × LocalMailboxRecord × LocalWelcomeMailbox)
  mailbox_parts t expires_at now draws = do
    reject_if (ltb expires_at now) rejected
    reject_if (expires_at - now == 0 || ltb t.policy.maximum_lifetime_seconds (expires_at - now))
        rejected
    reject_if (leb t.policy.maximum_live_mailboxes (count_values (is_live now) t.mailboxes))
        capacity_exceeded
    id ← random_nonzero draws.mailbox_id
    reject_if (contains id t.mailboxes) provider_failure
    deposit_secret ← random_nonzero draws.deposit_secret
    receive_secret ← random_nonzero draws.receive_secret
    acknowledgement_secret ← random_nonzero draws.acknowledgement_secret
    reject_if
        (same deposit_secret receive_secret
          || (same deposit_secret acknowledgement_secret
              || same receive_secret acknowledgement_secret))
        provider_failure
    checked ← map_err (λ _. provider_failure) (deposit_capability_new deposit_secret)
    endpoint ←
        map_err (λ _. provider_failure) (Endpoint.new t.transport_instance_id id checked expires_at)
    ok (
      id,
      record {
        expires_at = expires_at;
        deposit_digest = capability_digest deposit_secret;
        receive_digest = capability_digest receive_secret;
        acknowledgement_digest = capability_digest acknowledgement_secret;
        accepted = none;
      },
      record {
        deposit = endpoint;
        receive = capability t id receive_secret expires_at;
        acknowledgement = capability t id acknowledgement_secret expires_at;
      },
    )

  unfoldable pub create_welcome_mailbox :
      LocalMemoryWelcomeTransport
      → ℕ
      → ℕ
      → Draws
      → LocalMemoryWelcomeTransport × Result LocalTransportError LocalWelcomeMailbox
  create_welcome_mailbox t expires_at now draws = elim (mailbox_parts t expires_at now draws) [
    | err e ↦ (t, err e)
    | ok (id, r, mailbox) ↦
        (record t { mailboxes = insert id r (retain (is_live now) t.mailboxes) }, ok mailbox)
  ]

unfoldable pub mailbox_count : LocalMemoryWelcomeTransport → ℕ
mailbox_count t = length t.mailboxes
