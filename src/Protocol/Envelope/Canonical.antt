-- ===== src/Protocol/Envelope/Canonical.antt =====
-- The canonical encoding of an envelope: round trip, and one encoding for each envelope.
use Prim.Native.Nat.{◌≤◌}
use session_chat.Prelude.{◌≡◌, arith, length, length-append, u64_max, le→leb, le→ltb, []}
use session_chat.Prelude.Outcome.{ok}
use session_chat.Prelude.Bytes.{Bytes, same_refl}
use session_chat.Protocol.Cbor.{Cbor, IsCbor}
use session_chat.Protocol.Parser.{decode_fixed}
use session_chat.Protocol.Parser.Laws
use session_chat.Protocol.Envelope.{
  OpaqueEnvelope, new, encoded, encode_canonical, decode_fields, decode_canonical,
}

-- What the types of the fields and the constructor guarantee.
pub record IsEnvelope (e : OpaqueEnvelope) : Type 0 where
  pub id_length : length e.envelope_id ≡ 16
  pub expiry_word : e.expires_at ≤ u64_max
  pub ciphertext_bound : length e.ciphertext ≤ 61440

module _ (c : Cbor) (laws : IsCbor c) where
  pub length-encoded : (e : OpaqueEnvelope) → IsEnvelope e → length (encoded c e) ≤ 65536
  unfolding encoded
  length-encoded e h =
      grind (arith, length-append, laws.array_size, laws.u16_size, laws.u64_size, laws.bytes_size)

  decode_fields-encoded :
      (e : OpaqueEnvelope)
      → IsEnvelope e
      → decode_fields c (encoded c e) ≡ ok ((e.envelope_id, e.expires_at, e.ciphertext), [])
  unfolding decode_fields encoded
  decode_fields-encoded e h = simp (
    Laws.require_array-put c laws 5 _ (omega arith),
    Laws.require_value-put c laws 1 _ _ (omega arith),
    Laws.decode_fixed-put c laws 16 _ e.envelope_id _ h.id_length (omega arith),
    Laws.u64-put c laws e.expires_at _ h.expiry_word,
    Laws.byte_string-put c laws e.ciphertext _ (omega arith),
    le→leb _ _ h.ciphertext_bound,
  )

  new_ok : (e : OpaqueEnvelope) → IsEnvelope e → new e.envelope_id e.expires_at e.ciphertext ≡ ok e
  unfolding new
  new_ok e h = rw (le→ltb _ _ h.ciphertext_bound)

  pub encode_canonical-ok :
      (e : OpaqueEnvelope) → IsEnvelope e → encode_canonical c e ≡ ok (encoded c e)
  unfolding encode_canonical
  encode_canonical-ok e h = rw (le→ltb _ _ (length-encoded e h))

  -- With an encoding that keeps its laws, what an envelope with fields of their sizes is encoded to decodes to that envelope.
  pub decode-encode :
      (e : OpaqueEnvelope)
      → IsEnvelope e
      → (bytes : Bytes) × (encode_canonical c e ≡ ok bytes) × (decode_canonical c bytes ≡ ok e)
  unfolding decode_canonical
  decode-encode e h = (
    encoded c e,
    encode_canonical-ok e h,
    simp (
      le→leb _ _ (length-encoded e h),
      decode_fields-encoded e h,
      new_ok e h,
      encode_canonical-ok e h,
      same_refl (encoded c e),
    ),
  )

module _ (c : Cbor) where
  -- What decodes is the one encoding of the envelope that it decodes to, and within the limits.
  pub encode-decode :
      (bytes : Bytes) (e : OpaqueEnvelope)
      → decode_canonical c bytes ≡ ok e
      → (encode_canonical c e ≡ ok bytes)
        × (length bytes ≤ 65536)
        × (length e.envelope_id ≡ 16)
        × (length e.ciphertext ≤ 61440)
  unfolding decode_canonical decode_fields decode_fixed new
  encode-decode bytes e h = ground arith
