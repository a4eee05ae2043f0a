-- ===== src/Tests/Transport.antt =====
-- The local mailbox and the coordinator at concrete values: a control whose world is the time, an
-- outbox with one Welcome, and a digest that keeps its input.
use session_chat.Prelude.{
  ◌∷◌, List, ℕ, ◌≡◌, ◌+◌, refl, arith, [], false, Option, none, some, all, ◌⊎◌, checked_add,
}
use session_chat.Prelude.Outcome.{ok, err}
use session_chat.Prelude.Bytes.{Bytes, all_zero, Bytes-discrete}
use session_chat.Prelude.Map.{
  lookup, insert, replace, retain, contains, count_values, map_values, remove, any_value,
}
use session_chat.Protocol.Envelope
use session_chat.Protocol.Envelope.{OpaqueEnvelope}
use session_chat.Protocol.Endpoint
use session_chat.Protocol.Endpoint.{LocalWelcomeDepositEndpoint}
use session_chat.Transport.Dispatch.{DispatchControl}
use session_chat.Transport.Contract.{
  budget_new, deposit_request_new, from_canonical_bytes, from_validated,
}
use session_chat.Transport.Dispatch.{default_checkpoint, default_control}
use session_chat.Transport.Coordinator
use session_chat.Transport.Coordinator.{
  CoordinatorPolicy, World, accepted, local_resolver, local_resolve, instant_checked_add, report,
  report_at, dispatch, deliver, lease_and_deliver, run_once,
}
use session_chat.Transport.Coordinator.Steps.{Pass}
use session_chat.Transport.Coordinator.Passes.{run_once-Pass}
use session_chat.Transport.Mailbox.Capacity.{Call, creates, deposits, receives, acknowledges}
use session_chat.Transport.Mailbox.{
  new, LocalMemoryWelcomeTransport, LocalWelcomeMailbox, LocalWelcomeCapability, Draws, rejected,
  random_nonzero, mailbox_parts, create_welcome_mailbox,
}
use session_chat.Transport.Mailbox.Operations.{
  deposit_checks, accept, deposit, open_checks, receive, acknowledge, local_adapter, local_deposit,
  envelope_digest,
}
use session_chat.Transport.Mailbox.Rounds.{
  map_ok, receive-deposit, deposit_once, receive-acknowledge,
}
use session_chat.Protocol.Parser.{
  array, u16, u64, byte_string, require_array, require_value, decode_fixed,
}
use session_chat.Transaction.Port.{store_port, lease_next, sweep, lease_payload, report_accepted}
use session_chat.Transaction.Delivery.{
  lease_checks, grant_lease, lease_delivery, leased_record, delivery_payload, complete_delivery,
  pending_ids, pending_transaction_ids,
}
use session_chat.Transaction.Delivered.{IsDelivered, run_once-IsDelivered}
use session_chat.Transaction.Commit
use session_chat.Tests.Instances.{repeat, plain_cbor}
use session_chat.Tests.Transaction.{welcome, endpoint, empty_store, the_commit}
use session_chat.Transaction.Types.{InviterJoinStore}
use session_chat.Transaction.Commit.{installed}

abbrev keep : Bytes → Bytes
keep bytes = bytes

abbrev transport : LocalMemoryWelcomeTransport
transport = record {
  policy = record { maximum_lifetime_seconds = 2000; maximum_live_mailboxes = 2 };
  transport_instance_id = repeat 16 1;
  mailboxes = [];
}

abbrev draws : Draws
draws = record {
  mailbox_id = some (repeat 16 2);
  deposit_secret = some (repeat 32 5);
  receive_secret = some (repeat 32 6);
  acknowledgement_secret = some (repeat 32 7);
}

abbrev capability_of : ℕ → LocalWelcomeCapability
capability_of secret = record {
  transport_instance_id = repeat 16 1;
  mailbox_id = repeat 16 2;
  secret = repeat 32 secret;
  expires_at = 1000;
}

abbrev mailbox : LocalWelcomeMailbox
mailbox = record {
  deposit = endpoint;
  receive = capability_of 6;
  acknowledgement = capability_of 7;
}

abbrev made : LocalMemoryWelcomeTransport
made = (create_welcome_mailbox keep transport 1000 20 draws).0

abbrev draw : Option Bytes
draw = some (repeat 16 8)

abbrev deposited : LocalMemoryWelcomeTransport
deposited = (deposit plain_cbor keep made endpoint welcome 30 draw).0

created_now : (create_welcome_mailbox keep transport 1000 20 draws).1 ≡ ok mailbox
unfolding create_welcome_mailbox mailbox_parts random_nonzero Endpoint.new
    Endpoint.deposit_capability_new Bytes-discrete all_zero all contains count_values
created_now = refl

deposited_now : (deposit plain_cbor keep made endpoint welcome 30 draw).1 ≡ ok (repeat 16 8)
unfolding create_welcome_mailbox mailbox_parts random_nonzero Endpoint.new
    Endpoint.deposit_capability_new Bytes-discrete all_zero all contains count_values deposit
    deposit_checks accept lookup insert retain replace Envelope.encode_canonical Envelope.encoded
deposited_now = refl

receive-deposit_example :
    (receive keep deposited (capability_of 6) 40).1
    ≡ ok (some (record { delivery_id = repeat 16 8; envelope = welcome }))
receive-deposit_example =
    receive-deposit plain_cbor keep transport 1000 20 draws mailbox welcome 30 40 draw (repeat 16 8)
      created_now deposited_now (omega arith) (omega arith)

again_now : (deposit plain_cbor keep deposited endpoint welcome 60 none).1 ≡ ok (repeat 16 8)
unfolding create_welcome_mailbox mailbox_parts random_nonzero Endpoint.new
    Endpoint.deposit_capability_new Bytes-discrete all_zero all contains count_values deposit
    deposit_checks accept lookup insert retain replace Envelope.encode_canonical Envelope.encoded
again_now = refl

deposit_once_example :
    (welcome.envelope_id ≡ welcome.envelope_id)
    × (map_ok (envelope_digest plain_cbor keep) (Envelope.encode_canonical plain_cbor welcome)
        ≡ map_ok (envelope_digest plain_cbor keep) (Envelope.encode_canonical plain_cbor welcome))
    × (repeat 16 8 ≡ repeat 16 8)
    × ((deposit plain_cbor keep deposited endpoint welcome 60 none).0 ≡ deposited)
deposit_once_example =
    deposit_once plain_cbor keep made endpoint welcome welcome 30 60 draw none (repeat 16 8)
      (repeat 16 8) deposited_now again_now

acknowledged_now : (acknowledge keep deposited (capability_of 7) (repeat 16 8) 50).1 ≡ ok tt
unfolding create_welcome_mailbox mailbox_parts random_nonzero Endpoint.new
    Endpoint.deposit_capability_new Bytes-discrete all_zero all contains count_values deposit
    deposit_checks accept lookup insert retain replace Envelope.encode_canonical Envelope.encoded
    acknowledge open_checks
acknowledged_now = refl

receive-acknowledge_example :
    let answer =
      (receive keep
        (acknowledge keep deposited (capability_of 7) (repeat 16 8) 50).0
        (capability_of 6)
        60).1 in
    (answer ≡ ok none) ⊎ (answer ≡ err rejected)
receive-acknowledge_example =
    receive-acknowledge keep deposited (capability_of 7) (capability_of 6) (repeat 16 8) 50 60 refl
      acknowledged_now

-- A clock that moves on by a nanosecond with each reading, at the wall time of 30 seconds.
abbrev clock : DispatchControl ℕ
clock = default_control (λ k. (k + 1, k)) (λ k. (k + 1, some 30)) (λ k. (k + 1, false))

abbrev coordinator_policy : CoordinatorPolicy
coordinator_policy = record {
  operation_timeout = 5000000000;
  lease_seconds = 60;
  maximum_network_bytes = 4096;
}

abbrev world : World ℕ InviterJoinStore (Unit {0}) LocalMemoryWelcomeTransport
world = record {
  control = 7;
  store = installed empty_store the_commit;
  resolver = tt;
  adapter = made;
}

accepted_now :
    (run_once plain_cbor clock store_port
      (local_resolver plain_cbor)
      (local_adapter plain_cbor keep clock draw)
      coordinator_policy
      world).1
    ≡ ok accepted
unfolding run_once lease_and_deliver deliver dispatch Coordinator.deposit report report_at
    instant_checked_add budget_new deposit_request_new from_canonical_bytes from_validated
    default_checkpoint local_resolve store_port lease_next sweep map_values lease_payload
    lease_delivery lease_checks grant_lease delivery_payload leased_record pending_transaction_ids
    pending_ids report_accepted complete_delivery checked_add Commit.new remove any_value
    Envelope.decode_canonical Envelope.decode_fields Envelope.encode_canonical Envelope.encoded
    Envelope.new Endpoint.decode_canonical Endpoint.decode_from Endpoint.new
    Endpoint.encode_canonical Endpoint.encode_into Endpoint.deposit_capability_new array u16 u64
    byte_string require_array require_value decode_fixed create_welcome_mailbox mailbox_parts
    random_nonzero Bytes-discrete all_zero all contains count_values local_deposit deposit
    deposit_checks accept lookup insert retain replace
accepted_now = refl

run_once-Pass_example :
    Pass plain_cbor clock store_port
      (local_resolver plain_cbor)
      (local_adapter plain_cbor keep clock draw)
      coordinator_policy
      world
      (run_once plain_cbor clock store_port
        (local_resolver plain_cbor)
        (local_adapter plain_cbor keep clock draw)
        coordinator_policy
        world)
run_once-Pass_example =
    run_once-Pass plain_cbor clock store_port (local_resolver plain_cbor)
      (local_adapter plain_cbor keep clock draw) coordinator_policy world

run_once-IsDelivered_example :
    IsDelivered plain_cbor clock
      (local_resolver plain_cbor)
      (local_adapter plain_cbor keep clock draw)
      coordinator_policy
      world
run_once-IsDelivered_example =
    run_once-IsDelivered plain_cbor clock (local_resolver plain_cbor)
      (local_adapter plain_cbor keep clock draw) coordinator_policy world accepted_now

new_now : new transport.policy (some (repeat 16 1)) ≡ ok transport
unfolding new random_nonzero all_zero all
new_now = refl

abbrev mailbox_calls : List (ℕ × Call)
mailbox_calls =
    (20, creates 1000 draws)
    ∷ (30, deposits endpoint welcome draw)
    ∷ (40, receives (capability_of 6))
    ∷ (50, acknowledges (capability_of 7) (repeat 16 8))
    ∷ []
