-- ===== src/Protocol/Parser.antt =====
-- A decoder at a position: the bytes that are left, threaded through the `?` operator.
pub mod Laws
use Prim.Native.Nat.{ℕ}
use mathlib.Core.Bool.{Bool, true, false}
use mathlib.Core.Option.{Option, none, some}
use mathlib.Core.List.{[], ◌∷◌}
use session_chat.Prelude.{ltb, ◌==◌, if◌then◌else◌, length, not}
use session_chat.Prelude.Outcome.{Result, ok, err, ok_or}
use session_chat.Prelude.Bytes.{Bytes, all_zero}
use session_chat.Protocol.Error.{WireError, malformed, trailing_data, wire_object_too_large}
use session_chat.Protocol.Cbor.{Cbor}

abbrev pub Parser : Type 0 → Type 0
Parser A = Bytes → Result WireError (A × Bytes)

abbrev pub continue :
    {A B : Type 0} → Result WireError (A × Bytes) → (A → Parser B) → Result WireError (B × Bytes)
continue (ok (a, rest)) f = f a rest
continue (err e) f = err e

infixl 5 ◌>>=◌ ◌>>◌
abbrev pub ◌>>=◌ : {A B : Type 0} → Parser A → (A → Parser B) → Parser B
◌>>=◌ p f bytes = continue (p bytes) f

abbrev pub ◌>>◌ : {B : Type 0} → Parser (Unit {0}) → Parser B → Parser B
◌>>◌ p q = p >>= λ _. q

abbrev pub return : {A : Type 0} → A → Parser A
return a bytes = ok (a, bytes)

abbrev pub reject : {A : Type 0} → WireError → Parser A
reject e bytes = err e

abbrev pub check : Bool → WireError → Parser (Unit {0})
check true e = return tt
check false e = reject e

module _ (c : Cbor) where
  unfoldable pub array : Parser (Option ℕ)
  array bytes = ok_or (c.get_array bytes) malformed

  unfoldable pub u16 : Parser ℕ
  u16 bytes = ok_or (c.get_u16 bytes) malformed

  unfoldable pub u64 : Parser ℕ
  u64 bytes = ok_or (c.get_u64 bytes) malformed

  unfoldable pub byte_string : Parser Bytes
  byte_string bytes = ok_or (c.get_bytes bytes) malformed

  abbrev pub is_fields : ℕ → Option ℕ → Bool
  is_fields n none = false
  is_fields n (some m) = m == n

  -- `decoder.array()? != Some(fields)`
  unfoldable pub require_array : ℕ → Parser (Unit {0})
  require_array fields = array >>= λ n. check (is_fields fields n) malformed

  -- The number read must be the expected one.
  unfoldable pub require_value : ℕ → (ℕ → WireError) → Parser (Unit {0})
  require_value expected error = u16 >>= λ actual. check (actual == expected) (error actual)

  unfoldable pub decode_fixed : ℕ → (ℕ → WireError) → Parser Bytes
  decode_fixed n length_error = byte_string >>= λ encoded.
      check (length encoded == n) (length_error (length encoded)) >> return encoded

-- A step that reads nothing.
abbrev pub lift : {A : Type 0} → Result WireError A → Parser A
lift (ok a) bytes = ok (a, bytes)
lift (err e) bytes = err e

-- `decoder.position() != bytes.len()`
abbrev pub reject_trailing : Parser (Unit {0})
reject_trailing [] = ok (tt, [])
reject_trailing (b ∷ bs) = err trailing_data

abbrev pub outcome : {A : Type 0} → Result WireError (A × Bytes) → Result WireError A
outcome (ok (a, rest)) = ok a
outcome (err e) = err e

abbrev pub run : {A : Type 0} → Parser A → Bytes → Result WireError A
run p bytes = outcome (p bytes)
