-- ===== src/Transport/Dispatch.antt =====
-- crates/session-transport/src/dispatch.rs: the clocks and the cancellation that an operation reads,
-- and the deposit of an adapter. The readings and the adapter share a world `K`, in which each moves
-- the time on; a future is awaited to its end.
use session_chat.Prelude.{ℕ, Bool, true, false, Option, none, some, leb, if◌then◌else◌}
use session_chat.Prelude.Outcome.{Result, ok, err}
use session_chat.Prelude.Bytes.{Bytes}
use session_chat.Transport.Contract.{
  TransportFailure, failure, cancelled, deadline_exceeded, internal, never, OperationBudget,
  DepositRequest,
}

pub record DispatchObservation : Type 0 where
  pub monotonic_now : ℕ
  pub wall_now : ℕ

-- A `DispatchControl`: its readings, and its checkpoint, which an implementation may override.
pub record DispatchControl (K : Type 0) : Type 0 where
  pub monotonic_now : K → K × ℕ
  pub wall_now : K → K × Option ℕ
  pub is_cancelled : K → K × Bool
  pub checkpoint : OperationBudget → K → K × Result TransportFailure DispatchObservation

-- An adapter with states `D`, its endpoints of type `E`; a receipt is its delivery identifier.
pub record EnvelopeDeposit (K D E : Type 0) : Type 0 where
  pub deposit : K → D → E → DepositRequest → K × D × Result TransportFailure Bytes

module _ {K : Type 0} (monotonic_now : K → K × ℕ) (wall_now : K → K × Option ℕ)
    (is_cancelled : K → K × Bool) where
  abbrev observed : ℕ → K × Option ℕ → K × Result TransportFailure DispatchObservation
  observed monotonic (k, none) = (k, err (failure internal never))
  observed monotonic (k, some wall) =
      (k, ok (record { monotonic_now = monotonic; wall_now = wall }))

  abbrev within_deadline : OperationBudget → K × ℕ → K × Result TransportFailure DispatchObservation
  within_deadline budget (k, monotonic) =
      if leb budget.deadline monotonic
      then (k, err (failure deadline_exceeded never))
      else observed monotonic (wall_now k)

  abbrev unless_cancelled :
      OperationBudget → K × Bool → K × Result TransportFailure DispatchObservation
  unless_cancelled budget (k, true) = (k, err (failure cancelled never))
  unless_cancelled budget (k, false) = within_deadline budget (monotonic_now k)

  -- The checkpoint that the trait gives, and a control that does not override it.
  unfoldable pub default_checkpoint :
      OperationBudget → K → K × Result TransportFailure DispatchObservation
  default_checkpoint budget k = unless_cancelled budget (is_cancelled k)

  abbrev pub default_control : DispatchControl K
  default_control = record {
    monotonic_now = monotonic_now;
    wall_now = wall_now;
    is_cancelled = is_cancelled;
    checkpoint = default_checkpoint;
  }
