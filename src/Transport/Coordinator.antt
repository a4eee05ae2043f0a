-- ===== src/Transport/Coordinator.antt =====
-- crates/session-transport/src/coordinator.rs: one pass of the coordinator, over any owner of an
-- outbox, resolver, adapter and control. A pass that is dropped while it waits is not modelled.
pub mod Steps
pub mod Passes
use session_chat.Prelude.{
  ℕ, ◌+◌, Bool, true, false, ◌&&◌, ◌||◌, Option, none, some, ltb, leb, ◌==◌, if◌then◌else◌,
}
use session_chat.Prelude.Outcome.{Result, ok, err, map_err}
use session_chat.Prelude.Bytes.{Bytes}
use session_chat.Protocol.Cbor.{Cbor}
use session_chat.Protocol.Error.{max_wire_object_bytes}
use session_chat.Protocol.Endpoint
use session_chat.Protocol.Endpoint.{LocalWelcomeDepositEndpoint}
use session_chat.Transport.OutboxPort.{LeasedWelcome, OutboxPortError, WelcomeOutboxPort}
use session_chat.Transport.Contract.{
  from_secs, TransportContractError, invalid_envelope, TransportFailure, failure, internal, never,
  CanonicalEnvelope, from_canonical_bytes, OperationBudget, budget_new, DepositRequest,
  deposit_request_new,
}
use session_chat.Transport.Dispatch.{DispatchObservation, DispatchControl, EnvelopeDeposit}

pub record CoordinatorPolicy : Type 0 where
  pub operation_timeout : ℕ
  pub lease_seconds : ℕ
  pub maximum_network_bytes : ℕ

pub data CoordinatorOutcome : Type 0 where
  idle accepted : CoordinatorOutcome

pub data CoordinatorError : Type 0 where
  invalid_policy invalid_owner_work : CoordinatorError
  owner_store : OutboxPortError → CoordinatorError
  transport : TransportFailure → CoordinatorError

pub data EndpointResolutionError : Type 0 where
  rejected : EndpointResolutionError

abbrev pub max_coordinator_lease_seconds : ℕ
max_coordinator_lease_seconds = 3600

-- `CoordinatorPolicy::new`
unfoldable pub policy_new : ℕ → ℕ → ℕ → Result CoordinatorError CoordinatorPolicy
policy_new timeout seconds network_bytes =
    if timeout == 0
      || (seconds == 0
          || (ltb max_coordinator_lease_seconds seconds
              || (ltb (from_secs seconds) timeout
                  || (network_bytes == 0 || ltb max_wire_object_bytes network_bytes))))
    then err invalid_policy
    else ok (record {
      operation_timeout = timeout;
      lease_seconds = seconds;
      maximum_network_bytes = network_bytes;
    })

-- A resolver with states `R`, for endpoints of type `E`.
pub record DepositEndpointResolver (R E : Type 0) : Type 0 where
  pub resolve : R → Bytes → ℕ → R × Result EndpointResolutionError E

module _ (c : Cbor) where
  unfoldable pub local_resolve :
      Bytes → ℕ → Result EndpointResolutionError LocalWelcomeDepositEndpoint
  local_resolve bytes now = elim (Endpoint.decode_canonical c bytes) [
    | err e ↦ err rejected
    | ok endpoint ↦ if leb endpoint.expires_at now then err rejected else ok endpoint
  ]

  -- `LocalV1DepositEndpointResolver`, which has no state.
  abbrev pub local_resolver : DepositEndpointResolver (Unit {0}) LocalWelcomeDepositEndpoint
  local_resolver = record { resolve = λ r bytes now. (r, local_resolve bytes now) }

-- The largest instant, `i64::MAX` seconds and 999999999 nanoseconds, and `Instant::checked_add`.
abbrev pub instant_max : ℕ
instant_max = 9223372036854775807999999999

unfoldable pub instant_checked_add : ℕ → ℕ → Option ℕ
instant_checked_add instant duration =
    if leb (instant + duration) instant_max then some (instant + duration) else none

-- All that a pass borrows mutably, and the readings of its control.
pub record World (K S R D : Type 0) : Type 0 where
  pub control : K
  pub store : S
  pub resolver : R
  pub adapter : D

module _ (c : Cbor) {K S L R D E : Type 0} (control : DispatchControl K)
    (port : WelcomeOutboxPort S L) (resolver : DepositEndpointResolver R E)
    (adapter : EnvelopeDeposit K D E) where
  abbrev Answer : Type 0
  Answer = World K S R D × Result CoordinatorError CoordinatorOutcome

  -- The failed delivery goes back to its owner, and the pass answers with the error.
  unfoldable pub release : World K S R D → L → CoordinatorError → Answer
  release w lease e =
      let (st, result) = port.report_failed w.store lease in
      elim result [
        | err o ↦ (record w { store = st }, err (owner_store o))
        | ok _ ↦ (record w { store = st }, err e)
      ]

  unfoldable pub report_at : World K S R D → L → ℕ → Answer
  report_at w lease completed_at =
      let (st, result) = port.report_accepted w.store lease completed_at in
      elim result [
        | err o ↦ (record w { store = st }, err (owner_store o))
        | ok _ ↦ (record w { store = st }, ok accepted)
      ]

  -- The completed delivery is reported at the wall time behind the deposit.
  unfoldable pub report : World K S R D → L → Answer
  report w lease =
      let (k, wall) = control.wall_now w.control in
      elim wall [
        | none ↦ (record w { control = k }, err (transport (failure internal never)))
        | some completed_at ↦ report_at (record w { control = k }) lease completed_at
      ]

  unfoldable pub deposit : World K S R D → L → E → DepositRequest → Answer
  deposit w lease endpoint request =
      let (k, d, result) = adapter.deposit w.control w.adapter endpoint request in
      elim result [
        | err f ↦ release (record w { control = k; adapter = d }) lease (transport f)
        | ok _ ↦ report (record w { control = k; adapter = d }) lease
      ]

  -- `from_canonical_bytes` with the guard on the expiry of the outbox.
  abbrev pub usable : LeasedWelcome L → ℕ → Result TransportContractError CanonicalEnvelope
  usable work now = elim (from_canonical_bytes c work.welcome_envelope) [
    | err e ↦ err e
    | ok canonical ↦
        if ltb now work.outbox_expires_at && leb work.outbox_expires_at canonical.expires_at
        then ok canonical
        else err invalid_envelope
  ]

  -- The second checkpoint, and the deposit behind it.
  unfoldable pub dispatch : World K S R D → L → E → DepositRequest → Answer
  dispatch w lease endpoint request =
      let (k, result) = control.checkpoint request.budget w.control in
      elim result [
        | err f ↦ release (record w { control = k }) lease (transport f)
        | ok _ ↦ deposit (record w { control = k }) lease endpoint request
      ]

  -- The work under a lease: the checks of it, then the deposit.
  unfoldable pub deliver : World K S R D → OperationBudget → ℕ → LeasedWelcome L → Answer
  deliver w budget now work = elim (usable work now) [
    | err e ↦ release w work.lease invalid_owner_work
    | ok canonical ↦
        let (r, resolved) = resolver.resolve w.resolver work.deposit_endpoint now in
        elim resolved [
          | err e ↦ release (record w { resolver = r }) work.lease invalid_owner_work
          | ok endpoint ↦ elim (deposit_request_new canonical budget) [
            | err e ↦ release (record w { resolver = r }) work.lease invalid_owner_work
            | ok request ↦ dispatch (record w { resolver = r }) work.lease endpoint request
          ]
        ]
  ]

  -- The lease at the first checkpoint's wall time.
  unfoldable pub lease_and_deliver :
      CoordinatorPolicy → World K S R D → OperationBudget → ℕ → Answer
  lease_and_deliver policy w budget now =
      let (st, result) = port.lease_next w.store now policy.lease_seconds in
      elim result [
        | err o ↦ (record w { store = st }, err (owner_store o))
        | ok none ↦ (record w { store = st }, ok idle)
        | ok (some work) ↦ deliver (record w { store = st }) budget now work
      ]

  abbrev pub start_budget : CoordinatorPolicy → ℕ → Result CoordinatorError OperationBudget
  start_budget policy started_at = elim (instant_checked_add started_at policy.operation_timeout) [
    | none ↦ err invalid_policy
    | some deadline ↦
        map_err (λ _. invalid_policy) (budget_new deadline policy.maximum_network_bytes 1)
  ]

  abbrev pub begin : CoordinatorPolicy → World K S R D → OperationBudget → Answer
  begin policy w budget =
      let (k, result) = control.checkpoint budget w.control in
      elim result [
        | err f ↦ (record w { control = k }, err (transport f))
        | ok o ↦ lease_and_deliver policy (record w { control = k }) budget o.wall_now
      ]

  -- `WelcomeDeliveryCoordinator::run_once`
  unfoldable pub run_once : CoordinatorPolicy → World K S R D → Answer
  run_once policy w =
      let (k, started_at) = control.monotonic_now w.control in
      elim (start_budget policy started_at) [
        | err e ↦ (record w { control = k }, err e)
        | ok budget ↦ begin policy (record w { control = k }) budget
      ]
