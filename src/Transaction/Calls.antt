-- ===== src/Transaction/Calls.antt =====
-- The methods on `&mut self` of the store as one step function, and runs of them.
use session_chat.Prelude.{ℕ, List, [], ◌∷◌}
use session_chat.Prelude.Bytes.{Bytes}
use session_chat.Protocol.Cbor.{Cbor}
use session_chat.Transaction.Types.{
  ReservedInvitation, InviterJoinCommit, CommitFault, DeliveryLease, InviterJoinStore,
}
use session_chat.Transaction.Commit.{commit_with_fault}
use session_chat.Transaction.Seed.{seed_reservation}
use session_chat.Transaction.Delivery.{lease_delivery, fail_delivery, complete_delivery}
use session_chat.Transaction.Port.{lease_next}

pub data Call : Type 0 where
  seeds : ReservedInvitation → Call
  commits : InviterJoinCommit → CommitFault → Call
  leases : (transaction_id : Bytes) → (seconds : ℕ) → Call
  leases_next : (seconds : ℕ) → Call
  fails : DeliveryLease → Call
  completes : DeliveryLease → Call

module _ (c : Cbor) where
  -- A call at its time, with the store that it leaves.
  unfoldable pub step : InviterJoinStore → ℕ × Call → InviterJoinStore
  step st (now, seeds v) = (seed_reservation st v now).0
  step st (now, commits k fault) = (commit_with_fault c st k now fault).0
  step st (now, leases id seconds) = (lease_delivery st id now seconds).0
  step st (now, leases_next seconds) = (lease_next st now seconds).0
  step st (now, fails lease) = (fail_delivery st lease).0
  step st (now, completes lease) = (complete_delivery st lease now).0

  unfoldable pub run : InviterJoinStore → List (ℕ × Call) → InviterJoinStore
  run st [] = st
  run st (call ∷ calls) = run (step st call) calls
