-- ===== src/Protocol/ProtectedJoin.antt =====
-- crates/session-protocol/src/protected_join.rs: the HPKE-protected join request.
pub mod Canonical
use Prim.Native.Nat.{ℕ}
use session_chat.Prelude.{List, [], ◌∷◌, ◌++◌, ltb, leb, if◌then◌else◌, length, is_empty, not}
use session_chat.Prelude.Outcome.{Result, ok, err}
use session_chat.Prelude.Bytes.{Bytes, same, all_zero}
use session_chat.Protocol.Error.{
  WireError, wire_object_too_large, unsupported_version, unsupported_object_type,
  unsupported_invitation_encryption_suite, invalid_invitation_id_length,
  invalid_invitation_key_id_length, invalid_hpke_encapsulated_key_length, zero_invitation_id,
  zero_invitation_key_id, empty_protected_join_ciphertext, protected_join_ciphertext_too_large,
  non_deterministic_encoding, protected_join_request, object_type_number,
}
use session_chat.Protocol.Cbor.{Cbor, written}
use session_chat.Protocol.Claims.{hpke_suite}
use session_chat.Protocol.Parser.{
  Parser, ◌>>=◌, ◌>>◌, return, check, lift, run, byte_string, require_array, require_value,
  decode_fixed, reject_trailing,
}

pub record ProtectedJoinRequest : Type 0 where
  pub invitation_id : Bytes
  pub invitation_key_id : Bytes
  pub encapsulated_key : Bytes
  pub ciphertext : Bytes

abbrev pub max_protected_join_request_bytes : ℕ
max_protected_join_request_bytes = 32768

-- `MAX_PROTECTED_JOIN_REQUEST_BYTES - 75`
abbrev pub max_protected_join_ciphertext_bytes : ℕ
max_protected_join_ciphertext_bytes = 32693

abbrev pub protected_join_request_version : ℕ
protected_join_request_version = 1

abbrev pub protected_join_request_fields : ℕ
protected_join_request_fields = 7

abbrev pub protected_join_aad_fields : ℕ
protected_join_aad_fields = 6

unfoldable pub new : Bytes → Bytes → Bytes → Bytes → Result WireError ProtectedJoinRequest
new id key_id encapsulated_key ciphertext =
    if all_zero id
    then err zero_invitation_id
    else if all_zero key_id
    then err zero_invitation_key_id
    else if is_empty ciphertext
    then err empty_protected_join_ciphertext
    else if ltb max_protected_join_ciphertext_bytes (length ciphertext)
    then err (
        protected_join_ciphertext_too_large (length ciphertext) max_protected_join_ciphertext_bytes)
    else ok (record {
      invitation_id = id;
      invitation_key_id = key_id;
      encapsulated_key = encapsulated_key;
      ciphertext = ciphertext;
    })

module _ (c : Cbor) where
  -- What `encode_prefix` appends, in its order.
  abbrev pub prefix : ProtectedJoinRequest → ℕ → List Bytes
  prefix r fields =
      c.put_array fields
      ∷ c.put_u16 protected_join_request_version
      ∷ c.put_u16 (object_type_number protected_join_request)
      ∷ c.put_u16 hpke_suite
      ∷ c.put_bytes r.invitation_id
      ∷ c.put_bytes r.invitation_key_id
      ∷ c.put_bytes r.encapsulated_key
      ∷ []

  -- It cannot fail here: the encoder writes to memory.
  unfoldable pub encode_prefix : ProtectedJoinRequest → ℕ → Bytes
  encode_prefix r fields = written (prefix r fields)

  -- The associated data of the HPKE encryption.
  unfoldable pub aad_canonical : ProtectedJoinRequest → Bytes
  aad_canonical r = encode_prefix r protected_join_aad_fields

  unfoldable pub encoded : ProtectedJoinRequest → Bytes
  encoded r = written (prefix r protected_join_request_fields ++ c.put_bytes r.ciphertext ∷ [])

  unfoldable pub encode_canonical : ProtectedJoinRequest → Result WireError Bytes
  encode_canonical r =
      if ltb max_protected_join_request_bytes (length (encoded r))
      then err (wire_object_too_large (length (encoded r)) max_protected_join_request_bytes)
      else ok (encoded r)

  -- The reads, and the checks on the ciphertext between them.
  unfoldable pub decode_fields : Parser ProtectedJoinRequest
  decode_fields = do
    require_array c protected_join_request_fields
    require_value c protected_join_request_version unsupported_version
    require_value c (object_type_number protected_join_request) unsupported_object_type
    require_value c hpke_suite unsupported_invitation_encryption_suite
    id ← decode_fixed c 16 invalid_invitation_id_length
    key_id ← decode_fixed c 16 invalid_invitation_key_id_length
    encapsulated_key ← decode_fixed c 32 invalid_hpke_encapsulated_key_length
    ciphertext ← byte_string c
    check (not (is_empty ciphertext)) empty_protected_join_ciphertext
    check (leb (length ciphertext) max_protected_join_ciphertext_bytes) (
        protected_join_ciphertext_too_large (length ciphertext) max_protected_join_ciphertext_bytes)
    reject_trailing
    lift (new id key_id encapsulated_key ciphertext)

  unfoldable pub decode_canonical : Bytes → Result WireError ProtectedJoinRequest
  decode_canonical bytes =
      run
        (do
          check (leb (length bytes) max_protected_join_request_bytes)
              (wire_object_too_large (length bytes) max_protected_join_request_bytes)
          request ← decode_fields
          reencoded ← lift (encode_canonical request)
          check (same reencoded bytes) non_deterministic_encoding
          return request)
        bytes
