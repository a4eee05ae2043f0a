-- ===== src/Protocol/Cbor.antt =====
-- The third-party crate `minicbor`, as far as the wire objects use it. An operation of its `Encoder`
-- is the bytes that it appends; one of its `Decoder` is the value read and the bytes after it, or
-- `none` for a decoding error. `get_array` reads `some none` for an array of indefinite length.
use Prim.Native.Nat.{ℕ, ◌+◌, ◌≤◌}
use mathlib.Core.Path.{◌≡◌}
use mathlib.Core.Option.{Option, some}
use mathlib.Core.List.{List, [], ◌∷◌, ◌++◌}
use session_chat.Prelude.{length, u64_max, ltb, if◌then◌else◌}
use session_chat.Prelude.Bytes.{Bytes}

pub record Cbor : Type 0 where
  pub put_array : ℕ → Bytes
  pub put_u16 : ℕ → Bytes
  pub put_u64 : ℕ → Bytes
  pub put_bytes : Bytes → Bytes
  pub get_array : Bytes → Option (Option ℕ × Bytes)
  pub get_u16 : Bytes → Option (ℕ × Bytes)
  pub get_u64 : Bytes → Option (ℕ × Bytes)
  pub get_bytes : Bytes → Option (Bytes × Bytes)

-- What RFC 8949 and the crate's documentation promise: each value that was written is read back,
-- whatever follows it, and a header takes at most nine bytes.
pub record IsCbor (c : Cbor) : Type 0 where
  pub array_law :
      (n : ℕ) (rest : Bytes)
      → n ≤ u64_max
      → c.get_array (c.put_array n ++ rest) ≡ some (some n, rest)
  pub u16_law :
      (n : ℕ) (rest : Bytes) → n ≤ 65535 → c.get_u16 (c.put_u16 n ++ rest) ≡ some (n, rest)
  pub u64_law :
      (n : ℕ) (rest : Bytes) → n ≤ u64_max → c.get_u64 (c.put_u64 n ++ rest) ≡ some (n, rest)
  pub bytes_law :
      (b rest : Bytes) → length b ≤ u64_max → c.get_bytes (c.put_bytes b ++ rest) ≡ some (b, rest)
  pub array_size : (n : ℕ) → length (c.put_array n) ≤ 9
  pub u16_size : (n : ℕ) → length (c.put_u16 n) ≤ 3
  pub u64_size : (n : ℕ) → length (c.put_u64 n) ≤ 9
  pub bytes_size : (b : Bytes) → length (c.put_bytes b) ≤ 9 + length b

-- The bytes before the content of an item, whose head holds the number `n`.
abbrev pub head_size : ℕ → ℕ
head_size n =
    if ltb n 24
    then 1
    else if ltb n 256
    then 2
    else if ltb n 65536
    then 3
    else if ltb n 4294967296
    then 5
    else 9

-- Preferred serialization (RFC 8949, 4.1), which the crate writes: the head of an item is as short
-- as its number allows.
pub record IsCompact (c : Cbor) : Type 0 where
  pub array_head : (n : ℕ) → length (c.put_array n) ≤ head_size n
  pub u16_head : (n : ℕ) → length (c.put_u16 n) ≤ head_size n
  pub bytes_head : (b : Bytes) → length (c.put_bytes b) ≤ head_size (length b) + length b

-- An encoder's output: what its calls append, one after the other.
abbrev pub written : List Bytes → Bytes
written [] = []
written (b ∷ bs) = b ++ written bs
