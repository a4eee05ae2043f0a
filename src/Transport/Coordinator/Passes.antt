-- ===== src/Transport/Coordinator/Passes.antt =====
-- A pass of the coordinator keeps to the relations of Steps.
use session_chat.Prelude.{
  ℕ, ◌+◌, ◌<◌, ◌≤◌, ◌≡◌, ◌⊎◌, refl, ap, inl, inr, none, some, arith, length, Option-cases,
}
use session_chat.Prelude.Outcome.{ok, err, Result-cases}
use session_chat.Prelude.Bytes.{Bytes}
use session_chat.Protocol.Cbor.{Cbor}
use session_chat.Transport.OutboxPort.{LeasedWelcome, WelcomeOutboxPort}
use session_chat.Transport.Contract.{
  from_validated, from_canonical_bytes, CanonicalEnvelope, TransportContractError, OperationBudget,
  DepositRequest, deposit_request_new, budget_new,
}
use session_chat.Transport.Dispatch.{DispatchControl, DispatchObservation, EnvelopeDeposit}
use session_chat.Transport.Coordinator.{
  CoordinatorPolicy, CoordinatorError, EndpointResolutionError, transport, invalid_policy,
  invalid_owner_work, DepositEndpointResolver, World, release, report_at, report, deposit, usable,
  dispatch, deliver, lease_and_deliver, start_budget, begin, run_once, instant_checked_add,
  instant_max,
}
use session_chat.Transport.Coordinator.Steps.{
  answer_to, Reported, deposit_failed, deposit_accepted, left_to_expire, Fits, Handled, unfit,
  overtaken, sent, IsBudget, IsStarted, Pass, bad_policy, not_started, not_leased, nothing_due,
  under_lease,
}

module _ (c : Cbor) {K S L R D E : Type 0} (control : DispatchControl K)
    (port : WelcomeOutboxPort S L) (resolver : DepositEndpointResolver R E)
    (adapter : EnvelopeDeposit K D E) where
  release-answer_to :
      (w : World K S R D) (lease : L) (e : CoordinatorError)
      → let a = release c control port resolver adapter w lease e in
        (a.0.adapter ≡ w.adapter)
        × (a.0.store ≡ (port.report_failed w.store lease).0)
        × (a.1 ≡ answer_to (port.report_failed w.store lease).1 (err e))
  unfolding release
  release-answer_to w lease e = ground arith

  -- An accepted deposit is reported from the world behind it.
  report-Reported :
      (w : World K S R D) (lease : L) (delivery_id : Bytes)
      → let a = report c control port resolver adapter w lease in
        (a.0.adapter ≡ w.adapter)
        × Reported c control port resolver adapter w.store lease w.control (ok delivery_id) a
  unfolding report report_at
  report-Reported w lease delivery_id = elim (Option-cases (control.wall_now w.control).1) [
    | inl q ↦ (
      rw (q, report) refl,
      left_to_expire delivery_id refl q (rw (q, report) refl) (rw (q, report) refl),
    )
    | inr (at, q) ↦ (
      ground (arith, q),
      deposit_accepted delivery_id at refl q (ground (arith, q)) (ground (arith, q)),
    )
  ]

  usable-ok :
      (now : ℕ) (budget : OperationBudget) (work : LeasedWelcome L) (canonical : CanonicalEnvelope)
      (request : DepositRequest)
      → usable c control port resolver adapter work now ≡ ok canonical
      → deposit_request_new canonical budget ≡ ok request
      → (from_canonical_bytes c work.welcome_envelope ≡ ok request.envelope)
        × (request.envelope.bytes ≡ work.welcome_envelope)
        × (request.budget ≡ budget)
        × (length request.envelope.bytes ≤ budget.max_network_bytes)
        × (now < work.outbox_expires_at)
        × (work.outbox_expires_at ≤ request.envelope.expires_at)
  unfolding from_canonical_bytes from_validated deposit_request_new
  usable-ok now budget work canonical request u q = ground arith

  module _ (w : World K S R D) (now : ℕ) (budget : OperationBudget) (work : LeasedWelcome L) where
    abbrev IsFit : E → DepositRequest → Type 0
    IsFit = Fits c control port resolver adapter now budget work w.resolver

    unusable :
        (e : TransportContractError)
        → usable c control port resolver adapter work now ≡ err e
        → (endpoint : E) (request : DepositRequest) → ¬ IsFit endpoint request
    unusable e q endpoint request h = ground (arith, q, h.decoded, h.in_time, h.outlives)

    unresolved :
        (e : EndpointResolutionError)
        → (resolver.resolve w.resolver work.deposit_endpoint now).1 ≡ err e
        → (endpoint : E) (request : DepositRequest) → ¬ IsFit endpoint request
    unresolved e q endpoint request h = ground (arith, q, h.resolved)

    oversized :
        (canonical : CanonicalEnvelope) (e : TransportContractError)
        → usable c control port resolver adapter work now ≡ ok canonical
        → deposit_request_new canonical budget ≡ err e
        → (endpoint : E) (request : DepositRequest) → ¬ IsFit endpoint request
    unfolding deposit_request_new
    oversized canonical e u q endpoint request h =
        ground (arith, u, q, h.decoded, h.in_time, h.outlives, h.in_size)

    deposit-Handled :
        (k : K) (o : DispatchObservation) (r : R) (endpoint : E) (request : DepositRequest)
        → IsFit endpoint request
        → control.checkpoint request.budget w.control ≡ (k, ok o)
        → Handled c control port resolver adapter now budget work w (
            deposit c control port resolver adapter
              (record w { control = k; resolver = r })
              work.lease
              endpoint
              request)
    unfolding deposit
    deposit-Handled k o r endpoint request fits passed =
        let (k', d, result) = adapter.deposit k w.adapter endpoint request in
        let its = rw (fits.same_budget) at passed in
        let behind : World K S R D = record w { control = k'; resolver = r; adapter = d } in
        elim (Result-cases result) [
          | inl (f, q) ↦
              let (its_adapter, its_store, answer) =
                release-answer_to behind work.lease (transport f) in
              rw (q, deposit)
                (sent k o endpoint request fits its its_adapter
                  (deposit_failed f q its_store answer))
          | inr (delivery_id, q) ↦
              let (its_adapter, reported) = report-Reported behind work.lease delivery_id in
              rw (q, deposit) (sent k o endpoint request fits its its_adapter (rw q reported))
        ]

    released :
        (r : R) (e : CoordinatorError)
        → let a =
            release c control port resolver adapter (record w { resolver = r }) work.lease e in
          (a.0.adapter ≡ w.adapter)
          × (a.0.store ≡ (port.report_failed w.store work.lease).0)
          × (a.1 ≡ answer_to (port.report_failed w.store work.lease).1 (err e))
    released r e = release-answer_to (record w { resolver = r }) work.lease e

    dispatch-Handled :
        (r : R) (endpoint : E) (request : DepositRequest)
        → IsFit endpoint request
        → Handled c control port resolver adapter now budget work w (
            dispatch c control port resolver adapter
              (record w { resolver = r })
              work.lease
              endpoint
              request)
    unfolding dispatch
    dispatch-Handled r endpoint request fits =
        let (k, result) = control.checkpoint request.budget w.control in
        elim (Result-cases result) [
          | inl (f, q) ↦
              let (its_adapter, its_store, answer) =
                release-answer_to (record w { control = k; resolver = r }) work.lease
                  (transport f) in
              rw (q, dispatch)
                (overtaken f endpoint request fits (rw (fits.same_budget) at q) its_adapter
                  its_store answer)
          | inr (o, q) ↦
              rw (q, dispatch) (deposit-Handled k o r endpoint request fits (ap (λ x. (k, x)) q))
        ]

    deliver-Handled :
        Handled c control port resolver adapter now budget work w
          (deliver c control port resolver adapter w budget now work)
    unfolding deliver
    deliver-Handled =
        let (r, resolved) = resolver.resolve w.resolver work.deposit_endpoint now in
        elim (Result-cases (usable c control port resolver adapter work now)) [
          | inl (e, q) ↦
              let (its_adapter, its_store, answer) = released w.resolver invalid_owner_work in
              rw (q, deliver) (unfit (unusable e q) its_adapter its_store answer)
          | inr (canonical, q) ↦ elim (Result-cases resolved) [
            | inl (e, q') ↦
                let (its_adapter, its_store, answer) = released r invalid_owner_work in
                rw (q, q', deliver) (unfit (unresolved e q') its_adapter its_store answer)
            | inr (endpoint, q') ↦ elim (Result-cases (deposit_request_new canonical budget)) [
              | inl (e, q'') ↦
                  let (its_adapter, its_store, answer) = released r invalid_owner_work in
                  rw (q, q', q'', deliver)
                    (unfit (oversized canonical e q q'') its_adapter its_store answer)
              | inr (request, q'') ↦
                  let (r0, r1, r2, r3, r4, r5) =
                    usable-ok now budget work canonical request q q'' in
                  rw (q, q', q'', deliver)
                    (dispatch-Handled r endpoint request (record {
                      resolved = q';
                      decoded = r0;
                      same_bytes = r1;
                      same_budget = r2;
                      in_size = r3;
                      in_time = r4;
                      outlives = r5;
                    }))
            ]
          ]
        ]

  start_budget-IsBudget :
      (policy : CoordinatorPolicy) (started_at : ℕ) (budget : OperationBudget)
      → start_budget c control port resolver adapter policy started_at ≡ ok budget
      → IsBudget c control port resolver adapter policy started_at budget
  unfolding budget_new instant_checked_add
  start_budget-IsBudget policy started_at budget h = record {
    deadline = ground (arith, h);
    size = ground (arith, h);
    once = ground (arith, h);
  }

  start_budget-err :
      (policy : CoordinatorPolicy) (started_at : ℕ) (e : CoordinatorError)
      → start_budget c control port resolver adapter policy started_at ≡ err e
      → ((instant_max < started_at + policy.operation_timeout) ⊎ (policy.maximum_network_bytes ≡ 0))
        × (e ≡ invalid_policy)
  unfolding budget_new instant_checked_add
  start_budget-err policy started_at e h = ground (arith, h)

  lease_and_deliver-Pass :
      (policy : CoordinatorPolicy) (w : World K S R D) (k : K) (budget : OperationBudget)
      (o : DispatchObservation)
      → IsStarted c control port resolver adapter policy w budget k o
      → Pass c control port resolver adapter policy w (
          lease_and_deliver c control port resolver adapter policy
            (record w { control = k })
            budget
            o.wall_now)
  unfolding lease_and_deliver
  lease_and_deliver-Pass policy w k budget o started =
      let (st, result) = port.lease_next w.store o.wall_now policy.lease_seconds in
      elim (Result-cases result) [
        | inl (e, q) ↦ rw (q, lease_and_deliver) (not_leased budget k o e started q refl refl refl)
        | inr (none, q) ↦
            rw (q, lease_and_deliver) (nothing_due budget k o started q refl refl refl)
        | inr (some work, q) ↦
            rw (q, lease_and_deliver)
              (under_lease budget k o work started q
                (deliver-Handled (record w { control = k; store = st }) o.wall_now budget work))
      ]

  -- Any pass, over any owner, resolver, adapter and control, goes one of the ways of `Pass`. It starts
  -- under a budget of the policy, with one attempt, when a first checkpoint passes; it asks for a lease
  -- at the wall time of that checkpoint. Leased work without a request that fits at that time, and work
  -- overtaken by a failure of the second checkpoint, goes back to the owner, and the adapter is left
  -- alone. Otherwise the adapter gets one deposit, behind the second checkpoint, of the leased bytes at
  -- the endpoint that they resolve to, within the size of the policy; the wall time of the lease is
  -- before the expiry of the outbox. A failed deposit is reported as failed. An accepted one is
  -- reported as accepted at the wall time that is read behind it, or, when that reading fails, is left
  -- to its lease to expire. The answer tells which way was gone, the owner's error first.
  pub run_once-Pass :
      (policy : CoordinatorPolicy) (w : World K S R D)
      → Pass c control port resolver adapter policy w
          (run_once c control port resolver adapter policy w)
  unfolding run_once
  run_once-Pass policy w =
      let (k, started_at) = control.monotonic_now w.control in
      elim (Result-cases (start_budget c control port resolver adapter policy started_at)) [
        | inl (e, q) ↦
            let (why, invalid) = start_budget-err policy started_at e q in
            rw (q, run_once) (bad_policy why refl refl (ap err invalid))
        | inr (budget, q) ↦
            let its = start_budget-IsBudget policy started_at budget q in
            let (k', result) = control.checkpoint budget k in
            elim (Result-cases result) [
              | inl (f, q') ↦
                  rw (q, q', run_once, begin) (not_started budget f its q' refl refl refl)
              | inr (o, q') ↦
                  rw (q, q', run_once, begin)
                    (lease_and_deliver-Pass policy w k' budget o
                      (record { its_budget = its; passed = ap (λ x. (k', x)) q' }))
            ]
      ]
