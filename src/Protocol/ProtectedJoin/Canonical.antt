-- ===== src/Protocol/ProtectedJoin/Canonical.antt =====
-- The canonical encoding of a protected join request, and what its associated data binds.
use Prim.Native.Nat.{ℕ, ◌+◌, ◌≤◌}
use session_chat.Prelude.{
  ◌≡◌, sym, ap, ◌∙◌, arith, length, length-append, is_empty, le→leb, le→ltb, false, [],
}
use session_chat.Prelude.Outcome.{ok}
use session_chat.Prelude.Bytes.{Bytes, same_refl, all_zero}
use session_chat.Protocol.Cbor.{Cbor, IsCbor, IsCompact, head_size}
use session_chat.Protocol.Parser.Laws
use session_chat.Protocol.Parser.{
  Parser, ◌>>=◌, ◌>>◌, return, require_array, require_value, decode_fixed,
}
use session_chat.Protocol.Error.{malformed}
use session_chat.Protocol.ProtectedJoin.{
  ProtectedJoinRequest, new, encode_prefix, aad_canonical, encoded, encode_canonical, decode_fields,
  decode_canonical,
}

-- What the types of the fields and the constructor guarantee.
pub record IsProtected (r : ProtectedJoinRequest) : Type 0 where
  pub id_length : length r.invitation_id ≡ 16
  pub key_id_length : length r.invitation_key_id ≡ 16
  pub key_length : length r.encapsulated_key ≡ 32
  pub id_nonzero : all_zero r.invitation_id ≡ false
  pub key_id_nonzero : all_zero r.invitation_key_id ≡ false
  pub ciphertext_nonempty : is_empty r.ciphertext ≡ false
  pub ciphertext_length : length r.ciphertext ≤ 32693

module _ (c : Cbor) (compact : IsCompact c) where
  put_bytes-fixed : (n : ℕ) (b : Bytes) → length b ≡ n → length (c.put_bytes b) ≤ head_size n + n
  put_bytes-fixed n b h = rw (sym h) (compact.bytes_head b)

  put_bytes-short : (b : Bytes) → length b ≤ 65535 → length (c.put_bytes b) ≤ 3 + length b
  put_bytes-short b h = ground (arith, compact.bytes_head b)

  length-encoded : (r : ProtectedJoinRequest) → IsProtected r → length (encoded c r) ≤ 32768
  unfolding encoded
  length-encoded r h = simp (length-append) (
      omega (
        arith,
        compact.array_head 7,
        compact.u16_head 1,
        compact.u16_head 3,
        put_bytes-fixed 16 r.invitation_id h.id_length,
        put_bytes-fixed 16 r.invitation_key_id h.key_id_length,
        put_bytes-fixed 32 r.encapsulated_key h.key_length,
        put_bytes-short r.ciphertext (omega (arith, h.ciphertext_length)),
        h.ciphertext_length,
      ))

module _ (c : Cbor) (laws : IsCbor c) where
  decode_fields-encoded :
      (r : ProtectedJoinRequest) → IsProtected r → decode_fields c (encoded c r) ≡ ok (r, [])
  unfolding decode_fields encoded new
  decode_fields-encoded r h = simp (
    Laws.require_array-put c laws 7 _ (omega arith),
    Laws.require_value-put c laws 1 _ _ (omega arith),
    Laws.require_value-put c laws 3 _ _ (omega arith),
    Laws.decode_fixed-put c laws 16 _ r.invitation_id _ h.id_length (omega arith),
    Laws.decode_fixed-put c laws 16 _ r.invitation_key_id _ h.key_id_length (omega arith),
    Laws.decode_fixed-put c laws 32 _ r.encapsulated_key _ h.key_length (omega arith),
    Laws.byte_string-put c laws r.ciphertext _ (omega (arith, h.ciphertext_length)),
    h.ciphertext_nonempty,
    h.id_nonzero,
    h.key_id_nonzero,
    le→leb _ _ h.ciphertext_length,
    le→ltb _ _ h.ciphertext_length,
  )

  -- What the associated data holds, read back.
  abbrev aad_fields : Parser (Bytes × (Bytes × Bytes))
  aad_fields = do
    require_array c 6
    require_value c 1 (λ n. malformed)
    require_value c 3 (λ n. malformed)
    require_value c 1 (λ n. malformed)
    id ← decode_fixed c 16 (λ n. malformed)
    key_id ← decode_fixed c 16 (λ n. malformed)
    key ← decode_fixed c 32 (λ n. malformed)
    return (id, (key_id, key))

  aad_fields-aad_canonical :
      (r : ProtectedJoinRequest)
      → IsProtected r
      → aad_fields (aad_canonical c r)
        ≡ ok ((r.invitation_id, (r.invitation_key_id, r.encapsulated_key)), [])
  unfolding aad_canonical encode_prefix
  aad_fields-aad_canonical r h = simp (
    Laws.require_array-put c laws 6 _ (omega arith),
    Laws.require_value-put c laws 1 _ _ (omega arith),
    Laws.require_value-put c laws 3 _ _ (omega arith),
    Laws.decode_fixed-put c laws 16 _ r.invitation_id _ h.id_length (omega arith),
    Laws.decode_fixed-put c laws 16 _ r.invitation_key_id _ h.key_id_length (omega arith),
    Laws.decode_fixed-put c laws 32 _ r.encapsulated_key _ h.key_length (omega arith),
  )

  -- With an encoding that keeps its laws, two protected requests with the same associated data name
  -- the same invitation, invitation key and encapsulated key.
  pub aad_canonical-binds :
      (r s : ProtectedJoinRequest)
      → IsProtected r
      → IsProtected s
      → aad_canonical c r ≡ aad_canonical c s
      → (r.invitation_id ≡ s.invitation_id)
        × (r.invitation_key_id ≡ s.invitation_key_id)
        × (r.encapsulated_key ≡ s.encapsulated_key)
  aad_canonical-binds r s h k e =
      ground
        (arith, sym (aad_fields-aad_canonical r h) ∙ ap aad_fields e ∙ aad_fields-aad_canonical s k)

module _ (c : Cbor) (laws : IsCbor c) (compact : IsCompact c) where
  pub encode_canonical-ok :
      (r : ProtectedJoinRequest) → IsProtected r → encode_canonical c r ≡ ok (encoded c r)
  unfolding encode_canonical
  encode_canonical-ok r h = rw (le→ltb _ _ (length-encoded c compact r h))

  -- With a compact encoding that keeps its laws, every request that the constructor accepts, up to
  -- the longest ciphertext, fits the wire bound, and what it is encoded to decodes to it.
  pub protected_join_decode-encode :
      (r : ProtectedJoinRequest)
      → IsProtected r
      → (bytes : Bytes) × (encode_canonical c r ≡ ok bytes) × (decode_canonical c bytes ≡ ok r)
  unfolding decode_canonical
  protected_join_decode-encode r h = (
    encoded c r,
    encode_canonical-ok r h,
    simp (
      le→leb _ _ (length-encoded c compact r h),
      decode_fields-encoded c laws r h,
      encode_canonical-ok r h,
      same_refl (encoded c r),
    ),
  )

module _ (c : Cbor) where
  -- What decodes is the one encoding of its request.
  pub protected_join_encode-decode :
      (bytes : Bytes) (r : ProtectedJoinRequest)
      → decode_canonical c bytes ≡ ok r
      → (encode_canonical c r ≡ ok bytes)
        × (all_zero r.invitation_id ≡ false)
        × (all_zero r.invitation_key_id ≡ false)
        × (is_empty r.ciphertext ≡ false)
        × (length r.ciphertext ≤ 32693)
  unfolding decode_canonical decode_fields new
  protected_join_encode-decode bytes r h = ground arith
