-- ===== src/Prelude/Words.antt =====
-- Rust's checked and saturating arithmetic on `u64`.
use Prim.Native.Nat.{ℕ, ◌+◌, ◌≤◌, min}
use mathlib.Core.Path.{◌≡◌}
use mathlib.Core.Option.{Option, none, some}
use native.Mathlib.Omega.{arith}
use session_chat.Prelude.Tests.{leb, if◌then◌else◌}

abbrev pub u64_max : ℕ
u64_max = 18446744073709551615

-- `a.checked_add(b)`
unfoldable pub checked_add : ℕ → ℕ → Option ℕ
checked_add a b = if leb (a + b) u64_max then some (a + b) else none

-- `a.saturating_add(b)`
abbrev pub saturating_add : ℕ → ℕ → ℕ
saturating_add a b = min (a + b) u64_max

-- A checked sum is the sum, and fits the word.
pub checked_add-eq_some : (a b c : ℕ) → checked_add a b ≡ some c → (c ≡ a + b) × (a + b ≤ u64_max)
unfolding checked_add
checked_add-eq_some a b c h = ground arith

pub checked_add-le : (a b : ℕ) → a + b ≤ u64_max → checked_add a b ≡ some (a + b)
unfolding checked_add
checked_add-le a b h = ground arith
