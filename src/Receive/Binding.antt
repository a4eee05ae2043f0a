-- ===== src/Receive/Binding.antt =====
-- crates/session-transport/src/lifecycle.rs, and the profiles of contract.rs: the values that bind a
-- cursor to one mailbox generation. A wrapper is its contents.
use session_chat.Prelude.{ℕ, Bool, true, false, ◌&&◌, ◌==◌, if◌then◌else◌, checked_add}
use session_chat.Prelude.Outcome.{Result, ok, err, ok_or}
use session_chat.Prelude.Bytes.{Bytes, same, all_zero, codes}
use session_chat.Transport.Contract.{TransportContractError, unsupported_profile}

pub data TransportProfileId : Type 0 where
  local_v1 fast_v1 private_interactive_v1 private_mixnet_v1 off_grid_v1 : TransportProfileId

unfoldable pub as_str : TransportProfileId → Bytes
as_str local_v1 = codes "session-chat.transport.local.v1"
as_str fast_v1 = codes "session-chat.transport.fast.v1"
as_str private_interactive_v1 = codes "session-chat.transport.private-interactive.v1"
as_str private_mixnet_v1 = codes "session-chat.transport.private-mixnet.v1"
as_str off_grid_v1 = codes "session-chat.transport.off-grid.v1"

unfoldable pub try_from : Bytes → Result TransportContractError TransportProfileId
try_from value =
    if same value (codes "session-chat.transport.local.v1")
    then ok local_v1
    else if same value (codes "session-chat.transport.fast.v1")
    then ok fast_v1
    else if same value (codes "session-chat.transport.private-interactive.v1")
    then ok private_interactive_v1
    else if same value (codes "session-chat.transport.private-mixnet.v1")
    then ok private_mixnet_v1
    else if same value (codes "session-chat.transport.off-grid.v1")
    then ok off_grid_v1
    else err unsupported_profile

-- `==` on profiles.
abbrev pub same_profile : TransportProfileId → TransportProfileId → Bool
same_profile local_v1 local_v1 = true
same_profile fast_v1 fast_v1 = true
same_profile private_interactive_v1 private_interactive_v1 = true
same_profile private_mixnet_v1 private_mixnet_v1 = true
same_profile off_grid_v1 off_grid_v1 = true
same_profile _ _ = false

pub data MailboxLifecycleContractError : Type 0 where
  invalid_binding_fingerprint invalid_continuity_id invalid_generation generation_exhausted :
      MailboxLifecycleContractError
  invalid_receive_scope invalid_cursor_schema invalid_provider_state_epoch invalid_expiry :
      MailboxLifecycleContractError
  invalid_lifecycle_declaration unsupported_lifecycle_profile invalid_rotation_id invalid_rotation :
      MailboxLifecycleContractError
  provider_result_mismatch : MailboxLifecycleContractError

-- The constructors of the wrappers of bytes, each with its error, and of those of numbers.
abbrev pub nonzero_bytes :
    MailboxLifecycleContractError → Bytes → Result MailboxLifecycleContractError Bytes
nonzero_bytes e bytes = if all_zero bytes then err e else ok bytes

abbrev pub nonzero : MailboxLifecycleContractError → ℕ → Result MailboxLifecycleContractError ℕ
nonzero e value = if value == 0 then err e else ok value

unfoldable pub fingerprint_from_bytes : Bytes → Result MailboxLifecycleContractError Bytes
fingerprint_from_bytes = nonzero_bytes invalid_binding_fingerprint

unfoldable pub continuity_from_bytes : Bytes → Result MailboxLifecycleContractError Bytes
continuity_from_bytes = nonzero_bytes invalid_continuity_id

unfoldable pub scope_from_bytes : Bytes → Result MailboxLifecycleContractError Bytes
scope_from_bytes = nonzero_bytes invalid_receive_scope

unfoldable pub rotation_id_from_bytes : Bytes → Result MailboxLifecycleContractError Bytes
rotation_id_from_bytes = nonzero_bytes invalid_rotation_id

unfoldable pub generation_new : ℕ → Result MailboxLifecycleContractError ℕ
generation_new = nonzero invalid_generation

unfoldable pub schema_new : ℕ → Result MailboxLifecycleContractError ℕ
schema_new = nonzero invalid_cursor_schema

unfoldable pub epoch_new : ℕ → Result MailboxLifecycleContractError ℕ
epoch_new = nonzero invalid_provider_state_epoch

unfoldable pub generation_successor : ℕ → Result MailboxLifecycleContractError ℕ
generation_successor generation = ok_or (checked_add generation 1) generation_exhausted

pub record CursorBindingV1 : Type 0 where
  pub profile : TransportProfileId
  pub binding_fingerprint : Bytes
  pub continuity_id : Bytes
  pub generation : ℕ
  pub receive_scope : Bytes
  pub cursor_schema : ℕ
  pub provider_state_epoch : ℕ
  pub expires_at : ℕ

abbrev pub is_local : TransportProfileId → Bool
is_local p = same_profile p local_v1

unfoldable pub binding_new :
    TransportProfileId
    → (fingerprint continuity : Bytes) → ℕ
    → Bytes
    → (schema epoch expires_at : ℕ) → Result MailboxLifecycleContractError CursorBindingV1
binding_new profile fingerprint continuity generation scope schema epoch expires_at =
    if is_local profile
    then err unsupported_lifecycle_profile
    else if expires_at == 0
    then err invalid_expiry
    else ok (record {
      profile = profile;
      binding_fingerprint = fingerprint;
      continuity_id = continuity;
      generation = generation;
      receive_scope = scope;
      cursor_schema = schema;
      provider_state_epoch = epoch;
      expires_at = expires_at;
    })

-- `==` on bindings.
unfoldable pub same_binding : CursorBindingV1 → CursorBindingV1 → Bool
same_binding a b =
    same_profile a.profile b.profile
    && (same a.binding_fingerprint b.binding_fingerprint
        && (same a.continuity_id b.continuity_id
            && (a.generation == b.generation
                && (same a.receive_scope b.receive_scope
                    && (a.cursor_schema == b.cursor_schema
                        && (a.provider_state_epoch == b.provider_state_epoch
                            && a.expires_at == b.expires_at))))))

pub record BoundCursorV1 : Type 0 where
  pub cursor : Bytes
  pub binding : CursorBindingV1
