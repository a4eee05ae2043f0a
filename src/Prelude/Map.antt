-- ===== src/Prelude/Map.antt =====
-- `BTreeMap<[u8; N], V>`: the entries in the order of their keys.
pub mod Laws
use mathlib.Core.Bool.{Bool, true, false}
use mathlib.Core.Option.{Option, none, some}
use mathlib.Core.List.{List, [], ◌∷◌}
use Prim.Native.Nat.{ℕ, suc}
use session_chat.Prelude.Tests.{if◌then◌else◌}
use session_chat.Prelude.Bytes.{Bytes, same, bytes_lt}

abbrev pub Map {ℓ} : Type ℓ → Type ℓ
Map V = List (Bytes × V)

module _ {ℓ} {V : Type ℓ} where
  -- `get`
  unfoldable pub lookup : Bytes → Map V → Option V
  lookup k [] = none
  lookup k ((j, v) ∷ m) = if same k j then some v else lookup k m

  -- `contains_key`
  unfoldable pub contains : Bytes → Map V → Bool
  contains k [] = false
  contains k ((j, v) ∷ m) = if same k j then true else contains k m

  -- `insert`, which keeps the order and replaces the value of a key that is there.
  unfoldable pub insert : Bytes → V → Map V → Map V
  insert k v [] = (k, v) ∷ []
  insert k v ((j, w) ∷ m) =
      if same k j
      then (k, v) ∷ m
      else if bytes_lt k j
      then (k, v) ∷ (j, w) ∷ m
      else (j, w) ∷ insert k v m

  -- A write through `get_mut`: the value of a key that is there, in place.
  unfoldable pub replace : Bytes → V → Map V → Map V
  replace k v [] = []
  replace k v ((j, w) ∷ m) = if same k j then (j, v) ∷ m else (j, w) ∷ replace k v m

  -- `remove`
  unfoldable pub remove : Bytes → Map V → Map V
  remove k [] = []
  remove k ((j, w) ∷ m) = let rest = remove k m in if same k j then rest else (j, w) ∷ rest

  -- `retain(|_, value| p(value))`
  unfoldable pub retain : (V → Bool) → Map V → Map V
  retain p [] = []
  retain p ((j, w) ∷ m) = let rest = retain p m in if p w then (j, w) ∷ rest else rest

  -- `values().any(p)`
  unfoldable pub any_value : (V → Bool) → Map V → Bool
  any_value p [] = false
  any_value p ((j, w) ∷ m) = if p w then true else any_value p m

  -- `values().filter(p).count()`
  unfoldable pub count_values : (V → Bool) → Map V → ℕ
  count_values p [] = 0
  count_values p ((j, w) ∷ m) = let rest = count_values p m in if p w then suc rest else rest

  -- `for value in values_mut()`
  unfoldable pub map_values : (V → V) → Map V → Map V
  map_values f [] = []
  map_values f ((j, w) ∷ m) = (j, f w) ∷ map_values f m
