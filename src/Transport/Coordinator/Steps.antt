-- ===== src/Transport/Coordinator/Steps.antt =====
-- What a pass of the coordinator may do, as relations between the worlds before and behind it: each
-- constructor is one way through, with the readings of the control that it rests on.
use session_chat.Prelude.{ℕ, ◌+◌, ◌<◌, ◌≤◌, ◌≡◌, ◌⊎◌, none, some, length}
use session_chat.Prelude.Outcome.{Result, ok, err}
use session_chat.Prelude.Bytes.{Bytes}
use session_chat.Protocol.Cbor.{Cbor}
use session_chat.Transport.OutboxPort.{LeasedWelcome, OutboxPortError, WelcomeOutboxPort}
use session_chat.Transport.Contract.{
  from_canonical_bytes, failure, internal, never, TransportFailure, OperationBudget, DepositRequest,
}
use session_chat.Transport.Dispatch.{DispatchControl, DispatchObservation, EnvelopeDeposit}
use session_chat.Transport.Coordinator.{
  CoordinatorPolicy, CoordinatorOutcome, idle, accepted, CoordinatorError, invalid_policy,
  invalid_owner_work, owner_store, transport, DepositEndpointResolver, World, instant_max,
}

-- The answer of a pass behind a report: the owner's error comes first.
abbrev pub answer_to :
    Result OutboxPortError (Unit {0})
    → Result CoordinatorError CoordinatorOutcome
    → Result CoordinatorError CoordinatorOutcome
answer_to (err o) answer = err (owner_store o)
answer_to (ok _) answer = answer

module _ (c : Cbor) {K S L R D E : Type 0} (control : DispatchControl K)
    (port : WelcomeOutboxPort S L) (resolver : DepositEndpointResolver R E)
    (adapter : EnvelopeDeposit K D E) where
  abbrev pub Answer : Type 0
  Answer = World K S R D × Result CoordinatorError CoordinatorOutcome

  -- What follows a deposit that the adapter answered with `result` at the readings `k`: a failure is
  -- reported as failed; an accepted deposit as accepted, at the wall time that is read next; and when
  -- that reading fails, nothing is reported, so that the lease is left to expire.
  pub data Reported (st : S) (lease : L) (k : K) (result : Result TransportFailure Bytes)
      (a : Answer) : Type 0 where
    deposit_failed :
        (f : TransportFailure)
        → result ≡ err f
        → a.0.store ≡ (port.report_failed st lease).0
        → a.1 ≡ answer_to (port.report_failed st lease).1 (err (transport f))
        → Reported st lease k result a
    deposit_accepted :
        (delivery_id : Bytes) (at : ℕ)
        → result ≡ ok delivery_id
        → (control.wall_now k).1 ≡ some at
        → a.0.store ≡ (port.report_accepted st lease at).0
        → a.1 ≡ answer_to (port.report_accepted st lease at).1 (ok accepted)
        → Reported st lease k result a
    left_to_expire :
        (delivery_id : Bytes)
        → result ≡ ok delivery_id
        → (control.wall_now k).1 ≡ none
        → a.0.store ≡ st
        → a.1 ≡ err (transport (failure internal never))
        → Reported st lease k result a

  -- A request for the leased work at the time `now`: the leased bytes, at the endpoint that they
  -- resolve to, within the budget, while the outbox has not expired and the envelope outlives it.
  pub record Fits (now : ℕ) (budget : OperationBudget) (work : LeasedWelcome L) (r : R)
      (endpoint : E) (request : DepositRequest) : Type 0 where
    pub resolved : (resolver.resolve r work.deposit_endpoint now).1 ≡ ok endpoint
    pub decoded : from_canonical_bytes c work.welcome_envelope ≡ ok request.envelope
    pub same_bytes : request.envelope.bytes ≡ work.welcome_envelope
    pub same_budget : request.budget ≡ budget
    pub in_size : length request.envelope.bytes ≤ budget.max_network_bytes
    pub in_time : now < work.outbox_expires_at
    pub outlives : work.outbox_expires_at ≤ request.envelope.expires_at

  -- The work under a lease, from the world that the lease leaves: without a request that fits, or when
  -- the second checkpoint fails, it goes back to the owner and the adapter is left alone; else the
  -- adapter gets that request once, from the readings of the second checkpoint.
  pub data Handled (now : ℕ) (budget : OperationBudget) (work : LeasedWelcome L) (w : World K S R D)
      (a : Answer) : Type 0 where
    unfit :
        ((endpoint : E) (request : DepositRequest)
          → ¬ Fits now budget work w.resolver endpoint request)
        → a.0.adapter ≡ w.adapter
        → a.0.store ≡ (port.report_failed w.store work.lease).0
        → a.1 ≡ answer_to (port.report_failed w.store work.lease).1 (err invalid_owner_work)
        → Handled now budget work w a
    overtaken :
        (f : TransportFailure) (endpoint : E) (request : DepositRequest)
        → Fits now budget work w.resolver endpoint request
        → (control.checkpoint budget w.control).1 ≡ err f
        → a.0.adapter ≡ w.adapter
        → a.0.store ≡ (port.report_failed w.store work.lease).0
        → a.1 ≡ answer_to (port.report_failed w.store work.lease).1 (err (transport f))
        → Handled now budget work w a
    sent :
        (k : K) (o : DispatchObservation) (endpoint : E) (request : DepositRequest)
        → Fits now budget work w.resolver endpoint request
        → control.checkpoint budget w.control ≡ (k, ok o)
        → a.0.adapter ≡ (adapter.deposit k w.adapter endpoint request).1
        → Reported w.store work.lease
            (adapter.deposit k w.adapter endpoint request).0
            (adapter.deposit k w.adapter endpoint request).2
            a
        → Handled now budget work w a

  -- The budget of a pass that starts at that time, and a first checkpoint under it that has passed.
  pub record IsBudget (policy : CoordinatorPolicy) (started_at : ℕ) (budget : OperationBudget)
      : Type 0 where
    pub deadline : budget.deadline ≡ started_at + policy.operation_timeout
    pub size : budget.max_network_bytes ≡ policy.maximum_network_bytes
    pub once : budget.max_attempts ≡ 1

  pub record IsStarted (policy : CoordinatorPolicy) (w : World K S R D) (budget : OperationBudget)
      (k : K) (o : DispatchObservation) : Type 0 where
    pub its_budget : IsBudget policy (control.monotonic_now w.control).1 budget
    pub passed : control.checkpoint budget (control.monotonic_now w.control).0 ≡ (k, ok o)

  -- A pass: it does not start, or it asks for a lease at the wall time that its first checkpoint
  -- observed, and either gets none or handles the leased work at that time.
  pub data Pass (policy : CoordinatorPolicy) (w : World K S R D) (a : Answer) : Type 0 where
    bad_policy :
        (instant_max < (control.monotonic_now w.control).1 + policy.operation_timeout)
          ⊎ (policy.maximum_network_bytes ≡ 0)
        → a.0.store ≡ w.store
        → a.0.adapter ≡ w.adapter
        → a.1 ≡ err invalid_policy
        → Pass policy w a
    not_started :
        (budget : OperationBudget) (f : TransportFailure)
        → IsBudget policy (control.monotonic_now w.control).1 budget
        → (control.checkpoint budget (control.monotonic_now w.control).0).1 ≡ err f
        → a.0.store ≡ w.store
        → a.0.adapter ≡ w.adapter
        → a.1 ≡ err (transport f)
        → Pass policy w a
    not_leased :
        (budget : OperationBudget) (k : K) (o : DispatchObservation) (e : OutboxPortError)
        → IsStarted policy w budget k o
        → (port.lease_next w.store o.wall_now policy.lease_seconds).1 ≡ err e
        → a.0.store ≡ (port.lease_next w.store o.wall_now policy.lease_seconds).0
        → a.0.adapter ≡ w.adapter
        → a.1 ≡ err (owner_store e)
        → Pass policy w a
    nothing_due :
        (budget : OperationBudget) (k : K) (o : DispatchObservation)
        → IsStarted policy w budget k o
        → (port.lease_next w.store o.wall_now policy.lease_seconds).1 ≡ ok none
        → a.0.store ≡ (port.lease_next w.store o.wall_now policy.lease_seconds).0
        → a.0.adapter ≡ w.adapter
        → a.1 ≡ ok idle
        → Pass policy w a
    under_lease :
        (budget : OperationBudget) (k : K) (o : DispatchObservation) (work : LeasedWelcome L)
        → IsStarted policy w budget k o
        → (port.lease_next w.store o.wall_now policy.lease_seconds).1 ≡ ok (some work)
        → Handled o.wall_now budget work
            (record w {
              control = k;
              store = (port.lease_next w.store o.wall_now policy.lease_seconds).0;
            })
            a
        → Pass policy w a
