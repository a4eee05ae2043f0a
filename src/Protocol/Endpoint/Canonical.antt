-- ===== src/Protocol/Endpoint/Canonical.antt =====
-- The canonical encoding of a deposit endpoint: round trip, and one encoding for each endpoint.
use Prim.Native.Nat.{◌≤◌}
use session_chat.Prelude.{◌≡◌, arith, length, length-append, u64_max, le→leb, le→ltb, false, []}
use session_chat.Prelude.Outcome.{ok}
use session_chat.Prelude.Bytes.{Bytes, same_refl, all_zero}
use session_chat.Protocol.Cbor.{Cbor, IsCbor}
use session_chat.Protocol.Parser.Laws
use session_chat.Protocol.Endpoint.{
  LocalWelcomeDepositEndpoint, deposit_capability_new, new, encode_into, encode_canonical,
  decode_from, decode_canonical,
}

-- What the types of the fields and the constructors guarantee.
pub record IsEndpoint (e : LocalWelcomeDepositEndpoint) : Type 0 where
  pub instance_length : length e.transport_instance_id ≡ 16
  pub mailbox_length : length e.mailbox_id ≡ 16
  pub capability_length : length e.deposit_capability ≡ 32
  pub expiry_word : e.expires_at ≤ u64_max
  pub instance_nonzero : all_zero e.transport_instance_id ≡ false
  pub mailbox_nonzero : all_zero e.mailbox_id ≡ false
  pub capability_nonzero : all_zero e.deposit_capability ≡ false

module _ (c : Cbor) (laws : IsCbor c) where
  pub length-encode_into :
      (e : LocalWelcomeDepositEndpoint) → IsEndpoint e → length (encode_into c e) ≤ 128
  unfolding encode_into
  length-encode_into e h =
      grind (arith, length-append, laws.array_size, laws.u16_size, laws.u64_size, laws.bytes_size)

  pub decode_from-encode_into :
      (e : LocalWelcomeDepositEndpoint)
      → IsEndpoint e
      → decode_from c (encode_into c e) ≡ ok (e, [])
  unfolding decode_from encode_into deposit_capability_new new
  decode_from-encode_into e h = simp (
    Laws.require_array-put c laws 7 _ (omega arith),
    Laws.require_value-put c laws 1 _ _ (omega arith),
    Laws.require_value-put c laws 5 _ _ (omega arith),
    Laws.decode_fixed-put c laws 16 _ e.transport_instance_id _ h.instance_length (omega arith),
    Laws.decode_fixed-put c laws 16 _ e.mailbox_id _ h.mailbox_length (omega arith),
    Laws.decode_fixed-put c laws 32 _ e.deposit_capability _ h.capability_length (omega arith),
    Laws.u64-put c laws e.expires_at _ h.expiry_word,
    h.capability_nonzero,
    h.instance_nonzero,
    h.mailbox_nonzero,
  )

  encode_canonical-ok :
      (e : LocalWelcomeDepositEndpoint) → IsEndpoint e → encode_canonical c e ≡ ok (encode_into c e)
  unfolding encode_canonical
  encode_canonical-ok e h = rw (le→ltb _ _ (length-encode_into e h))

  -- With an encoding that keeps its laws, what a constructed endpoint is encoded to decodes to that endpoint.
  pub endpoint_decode-encode :
      (e : LocalWelcomeDepositEndpoint)
      → IsEndpoint e
      → (bytes : Bytes) × (encode_canonical c e ≡ ok bytes) × (decode_canonical c bytes ≡ ok e)
  unfolding decode_canonical
  endpoint_decode-encode e h = (
    encode_into c e,
    encode_canonical-ok e h,
    simp (
      le→leb _ _ (length-encode_into e h),
      decode_from-encode_into e h,
      encode_canonical-ok e h,
      same_refl (encode_into c e),
    ),
  )

module _ (c : Cbor) where
  -- What decodes is the one encoding of its endpoint, whose identifiers and capability are not zero.
  pub endpoint_encode-decode :
      (bytes : Bytes) (e : LocalWelcomeDepositEndpoint)
      → decode_canonical c bytes ≡ ok e
      → (encode_canonical c e ≡ ok bytes)
        × (all_zero e.transport_instance_id ≡ false)
        × (all_zero e.mailbox_id ≡ false)
        × (all_zero e.deposit_capability ≡ false)
  unfolding decode_canonical decode_from deposit_capability_new new
  endpoint_encode-decode bytes e h = ground arith
