-- ===== src/Protocol/Error.antt =====
-- crates/session-protocol/src/lib.rs: the errors and the numbers of the wire boundary.
use Prim.Native.Nat.{ℕ}

pub data WireError : Type 0 where
  wire_object_too_large : (actual maximum : ℕ) → WireError
  ciphertext_too_large : (actual maximum : ℕ) → WireError
  unsupported_version : ℕ → WireError
  unsupported_object_type : ℕ → WireError
  invalid_envelope_id_length : ℕ → WireError
  invalid_invitation_id_length : ℕ → WireError
  invalid_join_challenge_length : ℕ → WireError
  invalid_secret_capability_length : ℕ → WireError
  invalid_verifying_key_length : ℕ → WireError
  invalid_signature_length : ℕ → WireError
  unsupported_signature_suite : ℕ → WireError
  unsupported_admission_mode : ℕ → WireError
  unsupported_invitation_use_policy : ℕ → WireError
  unsupported_invitation_encryption_suite : ℕ → WireError
  unsupported_join_request_schema : ℕ → WireError
  unsupported_application_protocol_version : ℕ → WireError
  unsupported_transport_profile : ℕ → WireError
  zero_invitation_id zero_join_challenge zero_secret_capability : WireError
  zero_invitation_key_id zero_hpke_public_key : WireError
  invalid_invitation_key_id_length : ℕ → WireError
  invalid_hpke_public_key_length : ℕ → WireError
  invalid_hpke_encapsulated_key_length : ℕ → WireError
  empty_protected_join_ciphertext : WireError
  protected_join_ciphertext_too_large : (actual maximum : ℕ) → WireError
  unsupported_admission_proof_version : ℕ → WireError
  unsupported_mls_protocol_version : ℕ → WireError
  unsupported_mls_ciphersuite : ℕ → WireError
  unsupported_credential_type : ℕ → WireError
  invalid_transport_instance_id_length : ℕ → WireError
  invalid_mailbox_id_length : ℕ → WireError
  invalid_deposit_capability_length : ℕ → WireError
  zero_transport_instance_id zero_mailbox_id zero_deposit_capability : WireError
  invalid_join_request_id_length : ℕ → WireError
  invalid_request_nonce_length : ℕ → WireError
  invalid_key_package_reference_length : ℕ → WireError
  invalid_credential_identity_length : ℕ → WireError
  invalid_leaf_signature_key_length : ℕ → WireError
  zero_join_request_id zero_request_nonce zero_credential_identity : WireError
  zero_leaf_signature_key invalid_leaf_signature_key empty_key_package : WireError
  key_package_too_large : (actual maximum : ℕ) → WireError
  invalid_join_request_time_range : (issued_at expires_at : ℕ) → WireError
  response_endpoint_outlives_request : WireError
  invalid_invitation_time_range : (issued_at expires_at : ℕ) → WireError
  invalid_verifying_key invalid_signature malformed trailing_data : WireError
  non_deterministic_encoding encoding : WireError

pub data WireObjectType : Type 0 where
  opaque_envelope signed_capability_invitation protected_join_request : WireObjectType

-- `object_type as u16`
abbrev pub object_type_number : WireObjectType → ℕ
object_type_number opaque_envelope = 1
object_type_number signed_capability_invitation = 2
object_type_number protected_join_request = 3

abbrev pub protocol_version : ℕ
protocol_version = 1

abbrev pub max_wire_object_bytes : ℕ
max_wire_object_bytes = 65536

abbrev pub max_envelope_ciphertext_bytes : ℕ
max_envelope_ciphertext_bytes = 61440
