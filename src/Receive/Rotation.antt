-- ===== src/Receive/Rotation.antt =====
-- crates/session-transport/src/lifecycle.rs: issuing a mailbox and rotating it to a new generation.
use session_chat.Prelude.{ℕ, ◌-◌, Bool, false, ◌||◌, not, ◌==◌, ltb, leb, if◌then◌else◌}
use session_chat.Prelude.Outcome.{Result, ok, err, ◌>>=◌, ◌>>◌, reject_if}
use session_chat.Prelude.Bytes.{Bytes, same}
use session_chat.Transport.Contract.{OperationBudget}
use session_chat.Receive.Binding.{
  TransportProfileId, same_profile, is_local, MailboxLifecycleContractError,
  unsupported_lifecycle_profile, invalid_lifecycle_declaration, invalid_rotation, invalid_expiry,
  provider_result_mismatch, CursorBindingV1, generation_successor,
}

pub record LifecycleProviderContractV1 : Type 0 where
  pub profile : TransportProfileId
  pub cursor_schema : ℕ
  pub maximum_routine_drain : ℕ

unfoldable pub contract_new :
    TransportProfileId
    → (schema drain : ℕ) → Result MailboxLifecycleContractError LifecycleProviderContractV1
contract_new profile schema drain =
    if is_local profile
    then err unsupported_lifecycle_profile
    else if drain == 0
    then err invalid_lifecycle_declaration
    else ok (record { profile = profile; cursor_schema = schema; maximum_routine_drain = drain })

pub data RotationModeV1 : Type 0 where
  routine : (drain_predecessor_until : ℕ) → RotationModeV1
  compromise : RotationModeV1

pub record RotationRequestV1 : Type 0 where
  pub rotation_id : Bytes
  pub predecessor : CursorBindingV1
  pub successor_generation : ℕ
  pub mode : RotationModeV1
  pub successor_expires_at : ℕ
  pub budget : OperationBudget

abbrev pub is_bad_drain : RotationModeV1 → CursorBindingV1 → ℕ → Bool
is_bad_drain (routine until) predecessor successor_expires_at =
    until == 0 || (ltb predecessor.expires_at until || leb successor_expires_at until)
is_bad_drain compromise predecessor successor_expires_at = false

unfoldable pub rotation_new :
    Bytes
    → CursorBindingV1
    → RotationModeV1
    → ℕ
    → OperationBudget
    → Result MailboxLifecycleContractError RotationRequestV1
rotation_new id predecessor mode successor_expires_at budget = do
  reject_if (successor_expires_at == 0) invalid_rotation
  reject_if (is_bad_drain mode predecessor successor_expires_at) invalid_rotation
  generation ← generation_successor predecessor.generation
  ok (record {
    rotation_id = id;
    predecessor = predecessor;
    successor_generation = generation;
    mode = mode;
    successor_expires_at = successor_expires_at;
    budget = budget;
  })

pub record MailboxIssueRequestV1 : Type 0 where
  pub profile : TransportProfileId
  pub binding_fingerprint : Bytes
  pub expires_at : ℕ
  pub budget : OperationBudget

unfoldable pub issue_request_new :
    TransportProfileId
    → Bytes
    → ℕ
    → OperationBudget
    → Result MailboxLifecycleContractError MailboxIssueRequestV1
issue_request_new profile fingerprint expires_at budget =
    if is_local profile
    then err unsupported_lifecycle_profile
    else if expires_at == 0
    then err invalid_expiry
    else ok (record {
      profile = profile;
      binding_fingerprint = fingerprint;
      expires_at = expires_at;
      budget = budget;
    })

abbrev pub is_bad_window : RotationModeV1 → (now maximum : ℕ) → Bool
is_bad_window (routine until) now maximum = leb until now || ltb maximum (until - now)
is_bad_window compromise now maximum = false

unfoldable pub validate_rotation_request :
    LifecycleProviderContractV1
    → RotationRequestV1
    → ℕ
    → Result MailboxLifecycleContractError (Unit {0})
validate_rotation_request k r now = do
  reject_if
      (now == 0
        || (leb r.predecessor.expires_at now
            || (leb r.successor_expires_at now
                || (not (same_profile r.predecessor.profile k.profile)
                    || not (r.predecessor.cursor_schema == k.cursor_schema)))))
      provider_result_mismatch
  reject_if (is_bad_window r.mode now k.maximum_routine_drain) invalid_rotation

unfoldable pub validate_issue_request :
    LifecycleProviderContractV1
    → MailboxIssueRequestV1
    → ℕ
    → Result MailboxLifecycleContractError (Unit {0})
validate_issue_request k r now =
    reject_if (now == 0 || (leb r.expires_at now || not (same_profile r.profile k.profile)))
      provider_result_mismatch

-- The four rights of the provider, and the generation that they are for.
pub record MailboxAuthoritySetV1 (D R A O : Type 0) : Type 0 where
  pub binding : CursorBindingV1
  pub deposit : D
  pub receive : R
  pub acknowledgement : A
  pub rotation : O

pub record MailboxIssueResultV1 (D R A O : Type 0) : Type 0 where
  pub lifecycle_contract : LifecycleProviderContractV1
  pub authorities : MailboxAuthoritySetV1 D R A O

pub record MailboxRotationResultV1 (D R A O : Type 0) : Type 0 where
  pub lifecycle_contract : LifecycleProviderContractV1
  pub rotation_id : Bytes
  pub predecessor_generation : ℕ
  pub mode : RotationModeV1
  pub authorities : MailboxAuthoritySetV1 D R A O

abbrev pub is_other_successor :
    LifecycleProviderContractV1 → RotationRequestV1 → CursorBindingV1 → Bool
is_other_successor k r s =
    let p = r.predecessor in
    not (same_profile s.profile k.profile)
    || (not (same s.binding_fingerprint p.binding_fingerprint)
        || (not (same s.continuity_id p.continuity_id)
            || (not (s.generation == r.successor_generation)
                || (same s.receive_scope p.receive_scope
                    || (not (s.cursor_schema == p.cursor_schema)
                        || (not (s.provider_state_epoch == p.provider_state_epoch)
                            || not (s.expires_at == r.successor_expires_at)))))))

module _ {D R A O : Type 0} where
  unfoldable pub issue_result_new :
      LifecycleProviderContractV1
      → MailboxIssueRequestV1
      → MailboxAuthoritySetV1 D R A O
      → ℕ
      → Result MailboxLifecycleContractError (MailboxIssueResultV1 D R A O)
  issue_result_new k r authorities now = do
    validate_issue_request k r now
    let b = authorities.binding
    reject_if
        (not (same_profile b.profile r.profile)
          || (not (same b.binding_fingerprint r.binding_fingerprint)
              || (not (b.cursor_schema == k.cursor_schema) || not (b.expires_at == r.expires_at))))
        provider_result_mismatch
    ok (record { lifecycle_contract = k; authorities = authorities })

  unfoldable pub rotation_result_new :
      LifecycleProviderContractV1
      → RotationRequestV1
      → MailboxAuthoritySetV1 D R A O
      → ℕ
      → Result MailboxLifecycleContractError (MailboxRotationResultV1 D R A O)
  rotation_result_new k r authorities now = do
    validate_rotation_request k r now
    reject_if (is_other_successor k r authorities.binding) provider_result_mismatch
    ok (record {
      lifecycle_contract = k;
      rotation_id = r.rotation_id;
      predecessor_generation = r.predecessor.generation;
      mode = r.mode;
      authorities = authorities;
    })
