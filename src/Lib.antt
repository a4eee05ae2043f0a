-- ===== src/Lib.antt =====
-- Session Chat: the invitations of a private chat, the protected join requests, their admission, the
-- inviter's join transaction, the delivery of its Welcome, the state of a receiver, and the wire
-- objects between them.
--
-- An inviter signs an invitation (crates/session-protocol, invitation.rs) with an HPKE key of its own
-- (crates/session-crypto-hpke), and issues it into a registry (crates/session-core). A joiner seals a
-- join request under it (crates/session-protocol, protected_join.rs). The inviter opens the request,
-- and admits it (crates/admission-capability): a verifier keeps a request from being replayed, the
-- registry lets one request reserve the invitation, a person decides, and an MLS Add consumes both
-- reservations or gives both back. The join itself is a transaction (crates/
-- session-inviter-transaction): a store takes the reserved invitation and, in one commit, the
-- approval, the state of the group and the Welcome for the joiner. The store owns the Welcome's
-- outbox, and hands it out under leases. A coordinator (crates/session-transport, coordinator.rs)
-- asks the store for a lease, resolves the endpoint, deposits the Welcome with an adapter and reports
-- how it went. The local adapter (crates/session-transport, lib.rs) keeps single-message mailboxes,
-- with separate rights to deposit, to receive and to acknowledge. A receiver polls a mailbox from a
-- checkpoint, and its receive-state owner (crates/session-transport, receive_state.rs; crates/
-- transport-conformance, receive_owner.rs) commits a page of envelopes with the next checkpoint
-- before the page is acknowledged.
--
-- Prelude: `Result` and the `?` operator, byte strings, `BTreeMap` as the list of its entries in the
--   order of the keys, lists, and checked arithmetic on `u64`. Numbers are natural numbers; where the
--   source adds with a check or saturates, so do the definitions.
-- Protocol (crates/session-protocol/src): Error is `WireError`; Cbor and Signature are the crates
--   `minicbor` and `ed25519_dalek`, as records of operations with the laws that they document; Parser
--   is the decoder at its position; Envelope, Endpoint, Claims, Invitation, InvitationV2,
--   ProtectedJoin and JoinRequest are the objects, each with `encode_canonical` and its strict
--   decoder. A signed or validated invitation of the registry is the signed invitation that it wraps.
-- Protection (crates/session-crypto-hpke/src/lib.rs): Provider is HPKE, a record of operations with
--   the laws that it documents; Invitations generates and restores an invitation with its key;
--   Requests is `seal_capability_request` and `open_capability_request`.
-- Registry (crates/session-core/src/lib.rs): Types, Issue (`issue`, `issue_v2`, `insert_record`, the
--   validation), Reserve (`reserve_after_admission`, `reserve_v2_after_admission`, `release`,
--   `consume_after_membership`, `validate_reservation`), and Calls, the methods as one step function.
-- Admission (crates/session-admission/src/lib.rs, crates/admission-capability/src/lib.rs): Contract is
--   the approval context; Types and Verify are the verifier with `verify_and_reserve`; Approval is
--   `reserve_v2_for_approval` and `decide_v2`; Addition is the MLS Add, prepared, dropped, applied
--   and settled; Calls has the methods as one step function. The KeyPackage validator and the MLS
--   group are parameters. The verifier and the registry that a prepared value borrows are the ones of
--   the state at hand.
-- Transaction (crates/session-inviter-transaction/src/lib.rs): Types, Commit (`commit_with_fault`),
--   Seed (`seed_reservation`), Delivery (`lease_delivery`, `delivery_payload`, `fail_delivery`,
--   `complete_delivery`, the views), Port (`lease_next`, `report_accepted`, `report_failed`), and
--   Calls. `InMemoryInviterJoinStore` is `InviterJoinStore`; the `Arc` that tells stores apart is a
--   number.
-- Transport (crates/session-transport/src): OutboxPort, Contract and Dispatch are the contracts,
--   Coordinator is `run_once` over any owner, resolver, adapter and control, with its ways through as
--   relations in Coordinator/Steps; Mailbox with its
--   Operations is the local transport, and its Capacity has the methods as one step function.
-- Receive (crates/session-transport/src): Binding and Rotation are lifecycle.rs, Page is the poll
--   request and the receive batch of contract.rs, Checkpoint is receive_state.rs. State, Commit and
--   Leasing are `DeterministicReceiveStateOwnerV1` (crates/transport-conformance/src/
--   receive_owner.rs), and Calls has its methods as one step function; an `Arc` that tells owners and
--   leases apart is the number of its allocation.
-- Lifecycle (crates/transport-conformance/src/lifecycle_provider.rs): Provider is the state of
--   `DeterministicLifecycleProviderV1` with its material and authorities, Generations is `issue_now`
--   and `rotate_now`, Deliveries is `deposit_now`, `poll_now` and `acknowledge_now`. A mailbox is
--   reached by its generation, as the first of the vector that has it.
-- Tests: concrete third-party code, and the theorems at concrete inputs.
--
-- A method on `&mut self` returns the state that it leaves beside its result. The states are the
-- source's, field by field; a run is a list of calls, each at a time of its own, so that a clock may
-- also go back. No definition needs fuel: the loops run over lists. A pass of the coordinator is
-- awaited to its end; a control's readings and an adapter share a world, in which each moves the time,
-- and a control may override its checkpoint.
-- An instant is at most `i64::MAX` seconds.
--
-- Not modelled: the destructors that erase secrets; profile.rs and the supervisor of
-- crates/session-transport; delivery.rs and the trace runner of crates/transport-conformance; the
-- adapters for memory, Iroh, MLS and SQLCipher, with crates/session-storage; the command line
-- application. A coordinator's pass that is dropped while it waits is not modelled either: it leaves
-- its lease to expire.
pub mod Prelude
pub mod Protocol
pub mod Protection
pub mod Registry
pub mod Admission
pub mod Transaction
pub mod Transport
pub mod Receive
pub mod Lifecycle
pub mod Tests
