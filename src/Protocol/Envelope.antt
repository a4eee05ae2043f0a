-- ===== src/Protocol/Envelope.antt =====
-- crates/session-protocol/src/lib.rs: the opaque transport envelope.
pub mod Canonical
use Prim.Native.Nat.{ℕ}
use mathlib.Core.List.{[], ◌∷◌}
use session_chat.Prelude.{ltb, leb, if◌then◌else◌, length, not}
use session_chat.Prelude.Outcome.{Result, ok, err}
use session_chat.Prelude.Bytes.{Bytes, same}
use session_chat.Protocol.Error.{
  WireError, wire_object_too_large, ciphertext_too_large, unsupported_version,
  unsupported_object_type, invalid_envelope_id_length, non_deterministic_encoding, opaque_envelope,
  object_type_number, protocol_version, max_wire_object_bytes, max_envelope_ciphertext_bytes,
}
use session_chat.Protocol.Cbor.{Cbor, written}
use session_chat.Protocol.Parser.{
  Parser, ◌>>=◌, ◌>>◌, return, check, lift, run, u64, byte_string, require_array, require_value,
  decode_fixed, reject_trailing,
}

pub record OpaqueEnvelope : Type 0 where
  pub envelope_id : Bytes
  pub expires_at : ℕ
  pub ciphertext : Bytes

abbrev pub envelope_id_bytes : ℕ
envelope_id_bytes = 16

abbrev pub opaque_envelope_fields : ℕ
opaque_envelope_fields = 5

unfoldable pub new : Bytes → ℕ → Bytes → Result WireError OpaqueEnvelope
new id expires_at ciphertext =
    if ltb max_envelope_ciphertext_bytes (length ciphertext)
    then err (ciphertext_too_large (length ciphertext) max_envelope_ciphertext_bytes)
    else ok (record { envelope_id = id; expires_at = expires_at; ciphertext = ciphertext })

module _ (c : Cbor) where
  unfoldable pub encoded : OpaqueEnvelope → Bytes
  encoded e = written (
      c.put_array opaque_envelope_fields
      ∷ c.put_u16 protocol_version
      ∷ c.put_u16 (object_type_number opaque_envelope)
      ∷ c.put_bytes e.envelope_id
      ∷ c.put_u64 e.expires_at
      ∷ c.put_bytes e.ciphertext
      ∷ [])

  unfoldable pub encode_canonical : OpaqueEnvelope → Result WireError Bytes
  encode_canonical e =
      if ltb max_wire_object_bytes (length (encoded e))
      then err (wire_object_too_large (length (encoded e)) max_wire_object_bytes)
      else ok (encoded e)

  -- The reads, up to the test for trailing data.
  unfoldable pub decode_fields : Parser (Bytes × ℕ × Bytes)
  decode_fields = do
    require_array c opaque_envelope_fields
    require_value c protocol_version unsupported_version
    require_value c (object_type_number opaque_envelope) unsupported_object_type
    id ← decode_fixed c envelope_id_bytes invalid_envelope_id_length
    expires_at ← u64 c
    ciphertext ← byte_string c
    check (leb (length ciphertext) max_envelope_ciphertext_bytes)
        (ciphertext_too_large (length ciphertext) max_envelope_ciphertext_bytes)
    reject_trailing
    return (id, expires_at, ciphertext)

  unfoldable pub decode_canonical : Bytes → Result WireError OpaqueEnvelope
  decode_canonical bytes =
      run
        (do
          check (leb (length bytes) max_wire_object_bytes)
              (wire_object_too_large (length bytes) max_wire_object_bytes)
          fields ← decode_fields
          envelope ← lift (new fields.0 fields.1 fields.2)
          canonical ← lift (encode_canonical envelope)
          check (same canonical bytes) non_deterministic_encoding
          return envelope)
        bytes
