-- ===== src/Prelude/Maps.antt =====
-- A `Map` and a `Set` of texts, in the order of insertion. A key that is set again keeps its place.
use Prim.Native.Nat.{◌+◌, ◌≤◌}
use Prim.Native.String.{String}
use mathlib.Core.Path.{◌≡◌, refl}
use mathlib.Core.Bool.{Bool, not}
use mathlib.Core.Option.{Option, none, some}
use mathlib.Core.List.{List, [], ◌∷◌, map}
use native.Mathlib.Omega.{arith}
use text.Mathlib.TextEquality.{eq_iff}
use text.Mathlib.Text.{◌==◌}
use aurora_ai_native.Prelude.Tests.{if◌then◌else◌, is_some}
use aurora_ai_native.Prelude.Lists.{length, filter, any}

abbrev pub Dict {ℓ} : Type ℓ → Type ℓ
Dict V = List (String × V)

-- `set.has(text)`
abbrev pub contains : List String → String → Bool
contains texts text = any (λ other. other == text) texts

module _ {ℓ} {V : Type ℓ} where
  -- `map.get(key)`
  unfoldable pub lookup : String → Dict V → Option V
  lookup k [] = none
  lookup k (e ∷ d) = if e.0 == k then some (e.1) else lookup k d

  -- `map.set(key, value)`
  unfoldable pub insert : String → V → Dict V → Dict V
  insert k v [] = (k, v) ∷ []
  insert k v (e ∷ d) = if e.0 == k then (k, v) ∷ d else e ∷ insert k v d

  -- `map.delete(key)`
  unfoldable pub erase : String → Dict V → Dict V
  erase k d = filter (λ e. not (e.0 == k)) d

  -- `[...map.values()]`
  abbrev pub values : Dict V → List V
  values d = map (λ e. e.1) d

module _ {ℓ} {V : Type ℓ} where
  pub lookup-insert :
      (j k : String) (v : V) (d : Dict V)
      → lookup j (insert k v d) ≡ (if k == j then some v else lookup j d)
  unfolding lookup insert
  lookup-insert j k v [] = refl
  lookup-insert j k v (e ∷ d) =
      ground (arith, eq_iff k j, eq_iff (e.0) k, eq_iff (e.0) j, lookup-insert j k v d)

  pub lookup-erase :
      (j k : String) (d : Dict V) → lookup j (erase k d) ≡ (if k == j then none else lookup j d)
  unfolding lookup erase
  lookup-erase j k [] = ground arith
  lookup-erase j k (e ∷ d) =
      ground (arith, eq_iff k j, eq_iff (e.0) k, eq_iff (e.0) j, lookup-erase j k d)

  -- A key that is there is written over; a new one takes one more place.
  pub length-insert :
      (k : String) (v : V) (d : Dict V)
      → length (insert k v d) ≡ (if is_some (lookup k d) then length d else length d + 1)
  unfolding lookup insert
  length-insert k v [] = refl
  length-insert k v (e ∷ d) = ground (arith, length-insert k v d)

  pub length-erase : (k : String) (d : Dict V) → length (erase k d) ≤ length d
  unfolding erase
  length-erase k [] = ground arith
  length-erase k (e ∷ d) = ground (arith, length-erase k d)
