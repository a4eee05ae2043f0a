-- ===== src/Admission/Contract.antt =====
-- crates/session-admission/src/lib.rs: the provider-neutral contract of an approval.
use session_chat.Prelude.{ℕ, ◌||◌, ◌==◌, if◌then◌else◌}
use session_chat.Prelude.Outcome.{Result, ok, err}
use session_chat.Prelude.Bytes.{Bytes, all_zero}

pub data AdmissionMethod : Type 0 where
  secret_capability : AdmissionMethod

pub data ApprovalDecision : Type 0 where
  approve reject : ApprovalDecision

pub data AdmissionContractError : Type 0 where
  invalid_context : AdmissionContractError

pub record ApprovalContext : Type 0 where
  pub method : AdmissionMethod
  pub invitation_id : Bytes
  pub join_request_id : Bytes
  pub key_package_reference : Bytes
  pub expires_at : ℕ

unfoldable pub context_new :
    AdmissionMethod → Bytes → Bytes → Bytes → ℕ → Result AdmissionContractError ApprovalContext
context_new method id request reference expires_at =
    if all_zero id || (all_zero request || (all_zero reference || expires_at == 0))
    then err invalid_context
    else ok (record {
      method = method;
      invitation_id = id;
      join_request_id = request;
      key_package_reference = reference;
      expires_at = expires_at;
    })
