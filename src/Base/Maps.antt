-- ===== src/Base/Maps.antt =====
-- Go's `map[string]V` as an association list: the first entry of a key is its value.
use Prim.Native.String.{String}
use text.Mathlib.Text.{◌==◌}
use text.Mathlib.TextEquality.{eq_iff}
use mathlib.Core.Path.{◌≡◌, refl}
use mathlib.Core.Option.{Option, none, some}
use mathlib.Core.List.{List, [], ◌∷◌}
use native.Mathlib.Omega.{arith}
use j_harness.Base.Tests.{if◌then◌else◌}

abbrev pub Map {ℓ} : Type ℓ → Type ℓ
Map V = List (String × V)

module _ {ℓ} {V : Type ℓ} where
  unfoldable pub lookup : String → Map V → Option V
  lookup key [] = none
  lookup key ((at, val) ∷ rest) = if at == key then some val else lookup key rest

  -- `m[key] = val`
  unfoldable pub insert : String → V → Map V → Map V
  insert key val [] = (key, val) ∷ []
  insert key val ((at, old) ∷ rest) =
      if at == key then (at, val) ∷ rest else (at, old) ∷ insert key val rest

  abbrev pub get_or : V → Option V → V
  get_or d none = d
  get_or d (some v) = v

  pub lookup-insert :
      (key other : String) (val : V) (m : Map V)
      → lookup other (insert key val m) ≡ (if key == other then some val else lookup other m)
  unfolding lookup insert
  lookup-insert key other val [] = refl
  lookup-insert key other val ((at, old) ∷ rest) =
      ground
        (arith, lookup-insert key other val rest, eq_iff at other, eq_iff at key, eq_iff key other)

  abbrev pub keys : Map V → List String
  keys [] = []
  keys ((j, v) ∷ m) = j ∷ keys m
