-- ===== src/Transport/OutboxPort.antt =====
-- crates/session-transport/src/outbox_port.rs: what the coordinator asks of the owner of the outbox.
use session_chat.Prelude.{ℕ, Option}
use session_chat.Prelude.Outcome.{Result}
use session_chat.Prelude.Bytes.{Bytes}

pub record LeasedWelcome (L : Type 0) : Type 0 where
  pub lease : L
  pub welcome_envelope : Bytes
  pub deposit_endpoint : Bytes
  pub outbox_expires_at : ℕ

pub data OutboxPortError : Type 0 where
  unavailable conflict internal : OutboxPortError

-- An owner with stores `S` and leases `L`.
pub record WelcomeOutboxPort (S L : Type 0) : Type 0 where
  pub lease_next : S → ℕ → ℕ → S × Result OutboxPortError (Option (LeasedWelcome L))
  pub report_accepted : S → L → ℕ → S × Result OutboxPortError (Unit {0})
  pub report_failed : S → L → S × Result OutboxPortError (Unit {0})
