-- ===== src/Transaction/Delivered.antt =====
-- The coordinator over this store: what an accepted pass means for the transaction.
use session_chat.Prelude.{
  ℕ, ◌<◌, ◌≡◌, ◌∙◌, List, [], ◌∷◌, true, Option, none, some, arith, Bool-cases, Option-cases, inl,
  inr,
}
use session_chat.Prelude.Outcome.{ok, is_ok, Result-cases}
use session_chat.Prelude.Bytes.{Bytes}
use session_chat.Prelude.Map.{lookup}
use session_chat.Prelude.Map.Laws.{lookup-map_values, lookup-replace}
use mathlib.Core.Option
use session_chat.Protocol.Cbor.{Cbor}
use session_chat.Transport.OutboxPort.{LeasedWelcome}
use session_chat.Transport.Contract.{OperationBudget, DepositRequest}
use session_chat.Transport.Dispatch.{DispatchControl, DispatchObservation, EnvelopeDeposit}
use session_chat.Transport.Coordinator.{
  CoordinatorPolicy, DepositEndpointResolver, World, accepted, run_once,
}
use session_chat.Transport.Coordinator.Steps.{
  deposit_failed, deposit_accepted, left_to_expire, Handled, unfit, overtaken, sent, IsStarted,
  bad_policy, not_started, not_leased, nothing_due, under_lease,
}
use session_chat.Transport.Coordinator.Passes.{run_once-Pass}
use session_chat.Transaction.Types.{
  InviterJoinStore, DeliveryLease, CommittedRecord, TransactionView, OutboxState, is_delivered,
}
use session_chat.Transaction.Delivery.{lease_delivery, complete_delivery, leased_record, recover}
use session_chat.Transaction.Port.{
  is_bad_lease, mark_worn_out, sweep, lease_payload, lease_first, lease_next, report_accepted,
  store_port,
}
use session_chat.Transaction.Leases.{lease_delivery-ok, payload-lease}

-- The work is the record of a transaction of the store: its identifier, its Welcome, its endpoint.
pub record IsWork (st : InviterJoinStore) (work : LeasedWelcome DeliveryLease) : Type 0 where
  pub r : CommittedRecord
  pub held : lookup work.lease.transaction_id st.commits ≡ some r
  pub same_welcome : work.welcome_envelope ≡ r.welcome_envelope
  pub same_endpoint : work.deposit_endpoint ≡ r.deposit_endpoint
  pub same_expiry : work.outbox_expires_at ≡ r.outbox_expires_at

lease_payload-IsWork :
    (st : InviterJoinStore) (id : Bytes) (now seconds : ℕ) (work : LeasedWelcome DeliveryLease)
    → (lease_payload (lease_delivery st id now seconds) now).1 ≡ ok (some work)
    → IsWork st work
lease_payload-IsWork st id now seconds work h =
    elim (Result-cases (lease_delivery st id now seconds).1) [
      | inl (e, q) ↦ absurd (unfold lease_payload in ground (arith, q, h))
      | inr (lease, q) ↦
          let g = lease_delivery-ok st id now seconds lease q in
          let (r, held, paid) = payload-lease st id now seconds lease q in
          record {
            r = r;
            held = unfold lease_payload in ground (arith, q, h, g.the_lease, held, paid);
            same_welcome = unfold lease_payload in ground (arith, q, h, held, paid);
            same_endpoint = unfold lease_payload in ground (arith, q, h, held, paid);
            same_expiry = unfold lease_payload in ground (arith, q, h, held, paid);
          }
    ]

sweep-IsWork :
    (st : InviterJoinStore) (now : ℕ) (work : LeasedWelcome DeliveryLease)
    → IsWork (sweep st now) work
    → IsWork st work
sweep-IsWork st now work is = elim (Option-cases (lookup work.lease.transaction_id st.commits)) [
  | inl e ↦ absurd (ground (arith, swept, is.held, e))
  | inr (r, e) ↦ record {
    r = r;
    held = e;
    same_welcome = ground (arith, swept, is.held, is.same_welcome, e);
    same_endpoint = ground (arith, swept, is.held, is.same_endpoint, e);
    same_expiry = ground (arith, swept, is.held, is.same_expiry, e);
  }
]
  where
    swept :
        lookup work.lease.transaction_id (sweep st now).commits
        ≡ Option.map (mark_worn_out st.policy now) (lookup work.lease.transaction_id st.commits)
    swept =
        unfold sweep in
        lookup-map_values work.lease.transaction_id (mark_worn_out st.policy now) st.commits

lease_first-IsWork :
    (st : InviterJoinStore) (ids : List Bytes) (now seconds : ℕ)
    (work : LeasedWelcome DeliveryLease)
    → (lease_first st ids now seconds).1 ≡ ok (some work)
    → IsWork st work
lease_first-IsWork st [] now seconds work h = absurd (ground (arith, h))
lease_first-IsWork st (id ∷ ids) now seconds work h = lease_payload-IsWork st id now seconds work h

lease_next-IsWork :
    (st : InviterJoinStore) (now seconds : ℕ) (work : LeasedWelcome DeliveryLease)
    → (lease_next st now seconds).1 ≡ ok (some work)
    → IsWork st work
unfolding lease_next
lease_next-IsWork st now seconds work h = elim (Bool-cases (is_bad_lease st.policy now seconds)) [
  | inl bad ↦ absurd (ground (arith, h, bad))
  | inr fine ↦
      sweep-IsWork st now work (lease_first-IsWork (sweep st now) _ now seconds work (rw fine at h))
]

-- The outbox of the transaction, as a caller sees it.
abbrev pub outbox_of : Option TransactionView → Option OutboxState
outbox_of none = none
outbox_of (some v) = some v.outbox_state

recover-report :
    (st : InviterJoinStore) (lease : DeliveryLease) (at : ℕ)
    → (report_accepted st lease at).1 ≡ ok tt
    → outbox_of (recover (report_accepted st lease at).0 lease.transaction_id) ≡ some is_delivered
unfolding report_accepted complete_delivery leased_record recover
recover-report st lease at h = grind (arith, lookup-replace)

module _ (c : Cbor) {K R D E : Type 0} (control : DispatchControl K)
    (resolver : DepositEndpointResolver R E) (adapter : EnvelopeDeposit K D E)
    (policy : CoordinatorPolicy) (w : World K InviterJoinStore R D) where
  abbrev after : World K InviterJoinStore R D
  after = (run_once c control store_port resolver adapter policy w).0

  -- A transaction of the store is delivered, by one deposit of its Welcome at its endpoint that the
  -- adapter accepted. `first` is what the checkpoint of the lease observed, `behind` what the readings
  -- of the control are behind the checkpoint of the deposit.
  pub record IsDelivered : Type 0 where
    pub budget : OperationBudget
    pub leased_at : K
    pub first : DispatchObservation
    pub started : IsStarted c control store_port resolver adapter policy w budget leased_at first
    pub work : LeasedWelcome DeliveryLease
    pub leased : (lease_next w.store first.wall_now policy.lease_seconds).1 ≡ ok (some work)
    pub r : CommittedRecord
    pub held : lookup work.lease.transaction_id w.store.commits ≡ some r
    pub in_time : first.wall_now < r.outbox_expires_at
    pub behind : K
    pub second : DispatchObservation
    pub passed : control.checkpoint budget leased_at ≡ (behind, ok second)
    pub endpoint : E
    pub its_endpoint :
        (resolver.resolve w.resolver r.deposit_endpoint first.wall_now).1 ≡ ok endpoint
    pub request : DepositRequest
    pub its_welcome : request.envelope.bytes ≡ r.welcome_envelope
    pub one_deposit : after.adapter ≡ (adapter.deposit behind w.adapter endpoint request).1
    pub accepted_by : is_ok (adapter.deposit behind w.adapter endpoint request).2 ≡ true
    pub completed_at : ℕ
    pub read_behind :
        (control.wall_now (adapter.deposit behind w.adapter endpoint request).0).1
        ≡ some completed_at
    pub completed :
        after.store
        ≡ (report_accepted
            (lease_next w.store first.wall_now policy.lease_seconds).0
            work.lease
            completed_at).0
    pub its_outbox : outbox_of (recover after.store work.lease.transaction_id) ≡ some is_delivered

  handled-IsDelivered :
      (budget : OperationBudget) (k : K) (o : DispatchObservation)
      (work : LeasedWelcome DeliveryLease)
      → let a = run_once c control store_port resolver adapter policy w in
        a.1 ≡ ok accepted
        → IsStarted c control store_port resolver adapter policy w budget k o
        → (lease_next w.store o.wall_now policy.lease_seconds).1 ≡ ok (some work)
        → Handled c control store_port resolver adapter o.wall_now budget work
            (record w {
              control = k;
              store = (lease_next w.store o.wall_now policy.lease_seconds).0;
            })
            a
        → IsDelivered
  unfolding store_port report_accepted
  handled-IsDelivered budget k o work h started leased (unfit n e d answer) =
      absurd (ground (arith, h, answer))
  handled-IsDelivered budget k o work h started leased (overtaken f x y z p e d answer) =
      absurd (ground (arith, h, answer))
  handled-IsDelivered budget k o work h started leased
        (sent k2 o2 endpoint request fits p d (deposit_failed f q e answer)) =
      absurd (ground (arith, h, answer))
  handled-IsDelivered budget k o work h started leased
        (sent k2 o2 endpoint request fits p d (left_to_expire id q n e answer)) =
      absurd (ground (arith, h, answer))
  handled-IsDelivered budget k o work h started leased
        (sent k2 o2 endpoint request fits p d (deposit_accepted id at q n e answer)) =
      let is = lease_next-IsWork w.store o.wall_now policy.lease_seconds work leased in
      record {
        budget = budget;
        leased_at = k;
        first = o;
        started = started;
        work = work;
        leased = leased;
        r = is.r;
        held = is.held;
        in_time = ground (arith, fits.in_time, is.same_expiry);
        behind = k2;
        second = o2;
        passed = p;
        endpoint = endpoint;
        its_endpoint = rw (is.same_endpoint) at fits.resolved;
        request = request;
        its_welcome = fits.same_bytes ∙ is.same_welcome;
        one_deposit = d;
        accepted_by = ground (arith, q);
        completed_at = at;
        read_behind = n;
        completed = e;
        its_outbox = rw e (recover-report _ work.lease at (ground (arith, h, answer)));
      }

  -- A pass of the coordinator over the store that answers `accepted` has delivered a committed
  -- transaction. It was leased at the wall time that the pass's first checkpoint observed, which is
  -- before its outbox expires. The adapter accepted one deposit, made behind a second checkpoint that
  -- passed, of its Welcome, byte for byte as committed, at the endpoint that the committed one resolves
  -- to at that wall time. The delivery was completed at the wall time that was read behind the deposit,
  -- and the store now tells that the transaction is delivered.
  pub run_once-IsDelivered :
      (run_once c control store_port resolver adapter policy w).1 ≡ ok accepted → IsDelivered
  unfolding store_port
  run_once-IsDelivered h = elim (run_once-Pass c control store_port resolver adapter policy w) [
    | bad_policy why e d answer ↦ absurd (ground (arith, h, answer))
    | not_started b f i q e d answer ↦ absurd (ground (arith, h, answer))
    | not_leased b k o x i q e d answer ↦ absurd (ground (arith, h, answer))
    | nothing_due b k o i q e d answer ↦ absurd (ground (arith, h, answer))
    | under_lease budget k o work started leased handled ↦
        handled-IsDelivered budget k o work h started leased handled
  ]
