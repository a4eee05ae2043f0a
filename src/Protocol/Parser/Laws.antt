-- ===== src/Protocol/Parser/Laws.antt =====
-- Each read gives back what was written, and leaves what follows.
use Prim.Native.Nat.{ℕ, ◌≤◌}
use session_chat.Prelude.{◌≡◌, arith, length, u64_max, ◌++◌}
use session_chat.Prelude.Outcome.{ok}
use session_chat.Prelude.Bytes.{Bytes}
use session_chat.Protocol.Error.{WireError}
use session_chat.Protocol.Cbor.{Cbor, IsCbor}
use session_chat.Protocol.Parser.{
  array, u16, u64, byte_string, require_array, require_value, decode_fixed,
}

module _ (c : Cbor) (laws : IsCbor c) where
  pub u16-put : (n : ℕ) (rest : Bytes) → n ≤ 65535 → u16 c (c.put_u16 n ++ rest) ≡ ok (n, rest)
  unfolding u16
  u16-put n rest h = rw (laws.u16_law n rest h)

  pub u64-put : (n : ℕ) (rest : Bytes) → n ≤ u64_max → u64 c (c.put_u64 n ++ rest) ≡ ok (n, rest)
  unfolding u64
  u64-put n rest h = rw (laws.u64_law n rest h)

  pub byte_string-put :
      (b rest : Bytes) → length b ≤ u64_max → byte_string c (c.put_bytes b ++ rest) ≡ ok (b, rest)
  unfolding byte_string
  byte_string-put b rest h = rw (laws.bytes_law b rest h)

  pub require_array-put :
      (n : ℕ) (rest : Bytes)
      → n ≤ u64_max
      → require_array c n (c.put_array n ++ rest) ≡ ok (tt, rest)
  unfolding require_array array
  require_array-put n rest h = rw (laws.array_law n rest h) (ground arith)

  pub require_value-put :
      (n : ℕ) (error : ℕ → WireError) (rest : Bytes)
      → n ≤ 65535
      → require_value c n error (c.put_u16 n ++ rest) ≡ ok (tt, rest)
  unfolding require_value
  require_value-put n error rest h = rw (u16-put n rest h) (ground arith)

  pub decode_fixed-put :
      (n : ℕ) (error : ℕ → WireError) (b rest : Bytes)
      → length b ≡ n
      → n ≤ u64_max
      → decode_fixed c n error (c.put_bytes b ++ rest) ≡ ok (b, rest)
  unfolding decode_fixed
  decode_fixed-put n error b rest h k = rw (byte_string-put b rest (omega arith)) (ground arith)
