-- ===== src/Prelude/Bytes.antt =====
-- Byte strings: `[u8; N]`, `Vec<u8>` and slices. The length of an array is not part of its type here.
use Prim.Native.Nat.{ℕ}
use Prim.Native.Char.{code}
use Prim.Native.String.{String}
use mathlib.Core.Path.{◌≡◌, refl}
use mathlib.Core.Bool.{Bool, true, false}
use mathlib.Core.List.{List, [], ◌∷◌}
use native.Mathlib.Omega.{arith}
use native.Mathlib.Decide.{ℕ_discrete}
use session_chat.Prelude.Tests.{ltb, ◌==◌, if◌then◌else◌}
use session_chat.Prelude.Lists.{all}

abbrev pub Bytes : Type 0
Bytes = List ℕ

unfoldable pub Bytes-discrete : Discrete Bytes
unfolding ℕ_discrete
Bytes-discrete [] [] = yes refl
Bytes-discrete [] (y ∷ ys) = no (λ p. cc)
Bytes-discrete (x ∷ xs) [] = no (λ p. cc)
Bytes-discrete (x ∷ xs) (y ∷ ys) = elim (ℕ_discrete x y) [
  | yes p ↦ elim (Bytes-discrete xs ys) [ yes q ↦ yes (cc) | no n ↦ no (λ e. n (cc)) ]
  | no n ↦ no (λ e. n (cc))
]

-- `a == b` on arrays, vectors and slices.
abbrev pub same : Bytes → Bytes → Bool
same a b = elim (Bytes-discrete a b) [ yes _ ↦ true | no _ ↦ false ]

-- The lexicographic order of arrays and slices.
unfoldable pub bytes_lt : Bytes → Bytes → Bool
bytes_lt [] [] = false
bytes_lt [] (y ∷ ys) = true
bytes_lt (x ∷ xs) [] = false
bytes_lt (x ∷ xs) (y ∷ ys) = if ltb x y then true else if x == y then bytes_lt xs ys else false

-- `bytes.iter().all(|byte| *byte == 0)`
unfoldable pub all_zero : Bytes → Bool
unfolding all
all_zero bytes = all (λ b. b == 0) bytes

pub same_refl : (a : Bytes) → same a a ≡ true
same_refl a = ground arith

pub same→eq : (a b : Bytes) → same a b ≡ true → a ≡ b
same→eq a b h = ground arith

-- The bytes of an ASCII text.
abbrev pub codes : String → Bytes
codes String.[] = []
codes (String.◌∷◌ c s) = code c ∷ codes s
