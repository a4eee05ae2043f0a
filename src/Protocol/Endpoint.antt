-- ===== src/Protocol/Endpoint.antt =====
-- crates/session-protocol/src/protected_join.rs: the deposit-only Welcome endpoint.
pub mod Canonical
use Prim.Native.Nat.{ℕ}
use mathlib.Core.List.{[], ◌∷◌}
use session_chat.Prelude.{ltb, leb, if◌then◌else◌, length, not}
use session_chat.Prelude.Outcome.{Result, ok, err}
use session_chat.Prelude.Bytes.{Bytes, same, all_zero}
use session_chat.Protocol.Error.{
  WireError, wire_object_too_large, unsupported_version, unsupported_object_type,
  unsupported_transport_profile, invalid_transport_instance_id_length, invalid_mailbox_id_length,
  invalid_deposit_capability_length, zero_transport_instance_id, zero_mailbox_id,
  zero_deposit_capability, non_deterministic_encoding,
}
use session_chat.Protocol.Cbor.{Cbor, written}
use session_chat.Protocol.Parser.{
  Parser, ◌>>=◌, ◌>>◌, return, check, lift, run, u64, require_array, require_value, decode_fixed,
  reject_trailing,
}

pub data NestedObjectType : Type 0 where
  capability_join_request local_welcome_deposit_endpoint : NestedObjectType

-- `object_type as u16`
abbrev pub nested_type_number : NestedObjectType → ℕ
nested_type_number capability_join_request = 4
nested_type_number local_welcome_deposit_endpoint = 5

pub record LocalWelcomeDepositEndpoint : Type 0 where
  pub transport_instance_id : Bytes
  pub mailbox_id : Bytes
  pub deposit_capability : Bytes
  pub expires_at : ℕ

abbrev pub max_local_welcome_endpoint_bytes : ℕ
max_local_welcome_endpoint_bytes = 128

abbrev pub local_welcome_endpoint_version : ℕ
local_welcome_endpoint_version = 1

abbrev pub local_welcome_endpoint_fields : ℕ
local_welcome_endpoint_fields = 7

-- `TransportProfile::LocalMemory as u16`
abbrev pub local_memory : ℕ
local_memory = 1

-- `DepositCapability::new`; the wrapper is its bytes here.
unfoldable pub deposit_capability_new : Bytes → Result WireError Bytes
deposit_capability_new bytes = if all_zero bytes then err zero_deposit_capability else ok bytes

unfoldable pub new : Bytes → Bytes → Bytes → ℕ → Result WireError LocalWelcomeDepositEndpoint
new instance_id mailbox capability expires_at =
    if all_zero instance_id
    then err zero_transport_instance_id
    else if all_zero mailbox
    then err zero_mailbox_id
    else ok (record {
      transport_instance_id = instance_id;
      mailbox_id = mailbox;
      deposit_capability = capability;
      expires_at = expires_at;
    })

module _ (c : Cbor) where
  unfoldable pub encode_into : LocalWelcomeDepositEndpoint → Bytes
  encode_into e = written (
      c.put_array local_welcome_endpoint_fields
      ∷ c.put_u16 local_welcome_endpoint_version
      ∷ c.put_u16 (nested_type_number local_welcome_deposit_endpoint)
      ∷ c.put_u16 local_memory
      ∷ c.put_bytes e.transport_instance_id
      ∷ c.put_bytes e.mailbox_id
      ∷ c.put_bytes e.deposit_capability
      ∷ c.put_u64 e.expires_at
      ∷ [])

  unfoldable pub encode_canonical : LocalWelcomeDepositEndpoint → Result WireError Bytes
  encode_canonical e =
      if ltb max_local_welcome_endpoint_bytes (length (encode_into e))
      then err (wire_object_too_large (length (encode_into e)) max_local_welcome_endpoint_bytes)
      else ok (encode_into e)

  unfoldable pub decode_from : Parser LocalWelcomeDepositEndpoint
  decode_from = do
    require_array c local_welcome_endpoint_fields
    require_value c local_welcome_endpoint_version unsupported_version
    require_value c (nested_type_number local_welcome_deposit_endpoint) unsupported_object_type
    require_value c local_memory unsupported_transport_profile
    instance_id ← decode_fixed c 16 invalid_transport_instance_id_length
    mailbox ← decode_fixed c 16 invalid_mailbox_id_length
    capability ← decode_fixed c 32 invalid_deposit_capability_length
    expires_at ← u64 c
    checked ← lift (deposit_capability_new capability)
    lift (new instance_id mailbox checked expires_at)

  unfoldable pub decode_canonical : Bytes → Result WireError LocalWelcomeDepositEndpoint
  decode_canonical bytes =
      run
        (do
          check (leb (length bytes) max_local_welcome_endpoint_bytes)
              (wire_object_too_large (length bytes) max_local_welcome_endpoint_bytes)
          endpoint ← decode_from
          reject_trailing
          reencoded ← lift (encode_canonical endpoint)
          check (same reencoded bytes) non_deterministic_encoding
          return endpoint)
        bytes
