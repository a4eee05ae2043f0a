-- ===== src/Prelude/Map/Laws.antt =====
-- The laws of the map, each with its test in the statement where it has one.
use mathlib.Core.Path.{◌≡◌, refl, ap}
use mathlib.Core.Bool.{Bool, true, not}
use mathlib.Core.Option
use mathlib.Core.Option.{none, some}
use mathlib.Core.List.{[], ◌∷◌}
use Prim.Native.Nat.{suc, ◌≤◌, ◌<◌}
use native.Mathlib.Omega.{arith}
use session_chat.Prelude.Tests.{if◌then◌else◌, is_none}
use session_chat.Prelude.Lists.{length}
use session_chat.Prelude.Bytes.{Bytes, same}
use session_chat.Prelude.Map.{
  Map, lookup, contains, insert, replace, remove, retain, any_value, count_values, map_values,
}

module _ {ℓ} {V : Type ℓ} where
  pub lookup-insert :
      (j k : Bytes) (v : V) (m : Map V)
      → lookup j (insert k v m) ≡ (if same j k then some v else lookup j m)
  unfolding lookup insert
  lookup-insert j k v [] = refl
  lookup-insert j k v ((i, w) ∷ m) = ground (arith, lookup-insert j k v m)

  pub lookup-remove :
      (j k : Bytes) (m : Map V) → lookup j (remove k m) ≡ (if same j k then none else lookup j m)
  unfolding lookup remove
  lookup-remove j k [] = ground arith
  lookup-remove j k ((i, w) ∷ m) = ground (arith, lookup-remove j k m)

  pub lookup-replace :
      (j k : Bytes) (v w : V) (m : Map V)
      → lookup k m ≡ some w
      → lookup j (replace k v m) ≡ (if same j k then some v else lookup j m)
  unfolding lookup replace
  lookup-replace j k v w [] h = ground arith
  lookup-replace j k v w ((i, u) ∷ m) h = ground (arith, lookup-replace j k v w m)

  -- Writing back what was read restores the map.
  pub replace-replace :
      (k : Bytes) (v w : V) (m : Map V) → lookup k m ≡ some w → replace k w (replace k v m) ≡ m
  unfolding lookup replace
  replace-replace k v w [] h = refl
  replace-replace k v w ((i, u) ∷ m) h = ground (arith, replace-replace k v w m)

  pub length-replace : (k : Bytes) (v : V) (m : Map V) → length (replace k v m) ≡ length m
  unfolding replace
  length-replace k v [] = refl
  length-replace k v ((i, u) ∷ m) = ground (arith, length-replace k v m)

  pub length-insert-le : (k : Bytes) (v : V) (m : Map V) → length (insert k v m) ≤ suc (length m)
  unfolding insert
  length-insert-le k v [] = omega arith
  length-insert-le k v ((i, u) ∷ m) = ground (arith, length-insert-le k v m)

  pub length-remove-le : (k : Bytes) (m : Map V) → length (remove k m) ≤ length m
  unfolding remove
  length-remove-le k [] = omega arith
  length-remove-le k ((i, u) ∷ m) = ground (arith, length-remove-le k m)

  pub length-remove-lt :
      (k : Bytes) (m : Map V) {w : V} → lookup k m ≡ some w → length (remove k m) < length m
  unfolding lookup remove
  length-remove-lt k [] h = ground arith
  length-remove-lt k ((i, u) ∷ m) {w} h =
      ground (arith, length-remove-le k m, length-remove-lt k m {w = w})

  pub length-retain : (p : V → Bool) (m : Map V) → length (retain p m) ≡ count_values p m
  unfolding retain count_values
  length-retain p [] = refl
  length-retain p ((i, u) ∷ m) = ground (arith, length-retain p m)

  -- An entry whose value passes is kept.
  pub lookup-retain_keep :
      (p : V → Bool) (k : Bytes) (m : Map V) (w : V)
      → lookup k m ≡ some w
      → p w ≡ true
      → lookup k (retain p m) ≡ some w
  unfolding lookup retain
  lookup-retain_keep p k [] w h t = h
  lookup-retain_keep p k ((i, u) ∷ m) w h t = ground (arith, lookup-retain_keep p k m w)

  pub length-map_values : (f : V → V) (m : Map V) → length (map_values f m) ≡ length m
  unfolding map_values
  length-map_values f [] = refl
  length-map_values f ((i, u) ∷ m) = ap suc (length-map_values f m)

  pub lookup-map_values :
      (k : Bytes) (f : V → V) (m : Map V) → lookup k (map_values f m) ≡ Option.map f (lookup k m)
  unfolding lookup map_values
  lookup-map_values k f [] = refl
  lookup-map_values k f ((i, u) ∷ m) = ground (arith, lookup-map_values k f m)

  pub contains-lookup : (k : Bytes) (m : Map V) → contains k m ≡ not (is_none (lookup k m))
  unfolding lookup contains
  contains-lookup k [] = refl
  contains-lookup k ((i, u) ∷ m) = ground (arith, contains-lookup k m)

  -- A value that is found counts for `any`.
  pub any_value-lookup :
      (p : V → Bool) (k : Bytes) (m : Map V) (v : V)
      → lookup k m ≡ some v
      → p v ≡ true
      → any_value p m ≡ true
  unfolding lookup any_value
  any_value-lookup p k [] v h t = absurd (ground arith)
  any_value-lookup p k ((i, u) ∷ m) v h t = ground (arith, any_value-lookup p k m v)
