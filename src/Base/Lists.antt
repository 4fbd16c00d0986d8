-- ===== src/Base/Lists.antt =====
-- Lists measured and indexed by native numbers, under the library's names.
use Prim.Native.Nat.{ℕ, zero, suc, ◌+◌, ◌≤◌}
use Prim.Native.String.{String}
use text.Mathlib.Text.{◌==◌}
use text.Mathlib.TextEquality.{eq_iff}
use mathlib.Core.Path.{◌≡◌, refl}
use mathlib.Core.Bool.{Bool, true, false, ◌||◌}
use mathlib.Core.Option.{Option, none, some}
use mathlib.Core.List.{List, [], ◌∷◌, ◌++◌}
use native.Mathlib.Omega.{arith}
use j_harness.Base.Tests.{if◌then◌else◌}

module _ {ℓ} {A : Type ℓ} where
  abbrev pub length : List A → ℕ
  length [] = 0
  length (x ∷ xs) = suc (length xs)

  abbrev pub get_elem? : List A → ℕ → Option A
  get_elem? [] i = none
  get_elem? (x ∷ xs) zero = some x
  get_elem? (x ∷ xs) (suc i) = get_elem? xs i

  pub length-append : (xs ys : List A) → length (xs ++ ys) ≡ length xs + length ys
  length-append [] ys = omega arith
  length-append (x ∷ xs) ys = omega (arith, length-append xs ys)

  -- Every element satisfies the predicate.
  abbrev pub All {κ} : (A → Type κ) → List A → Type κ
  All P [] = Unit
  All P (x ∷ xs) = P x × All P xs

  -- `strings.Contains` on slices and the `for … == …` scans.
  abbrev pub any : (A → Bool) → List A → Bool
  any p [] = false
  any p (x ∷ xs) = p x || any p xs

-- Membership of a string in a slice of strings.
unfoldable pub elem : String → List String → Bool
elem k [] = false
elem k (x ∷ xs) = x == k || elem k xs

-- `delete` of a key from a set that is kept as a list.
unfoldable pub remove : String → List String → List String
remove k [] = []
remove k (x ∷ xs) = if x == k then remove k xs else x ∷ remove k xs

pub elem-remove :
    (k j : String) (xs : List String) → elem j (remove k xs) ≡ (if k == j then false else elem j xs)
unfolding elem remove
elem-remove k j [] = ground (arith, eq_iff k j)
elem-remove k j (x ∷ xs) = ground (arith, eq_iff k j, eq_iff x k, eq_iff x j, elem-remove k j xs)

pub length-remove_le : (k : String) (xs : List String) → length (remove k xs) ≤ length xs
unfolding remove
length-remove_le k [] = omega arith
length-remove_le k (x ∷ xs) = ground (arith, length-remove_le k xs)

pub length-remove_lt :
    (k : String) (xs : List String) → elem k xs ≡ true → suc (length (remove k xs)) ≤ length xs
unfolding elem remove
length-remove_lt k [] h = ground arith
length-remove_lt k (x ∷ xs) h = ground (arith, length-remove_lt k xs, length-remove_le k xs)

pub elem-append : (d x : String) (xs : List String) → elem d (xs ++ x ∷ []) ≡ (elem d xs || x == d)
unfolding elem
elem-append d x [] = ground arith
elem-append d x (y ∷ xs) = ground (arith, elem-append d x xs)

-- No string occurs twice.
abbrev pub Distinct : List String → Type 0
Distinct [] = Unit
Distinct (x ∷ xs) = (elem x xs ≡ false) × Distinct xs

pub Distinct-snoc :
    (x : String) (xs : List String) → Distinct xs → elem x xs ≡ false → Distinct (xs ++ x ∷ [])
unfolding elem
Distinct-snoc x [] d h = (refl, tt)
Distinct-snoc x (y ∷ xs) d h = (
  ground (arith, elem-append y x xs, eq_iff x y, eq_iff y x),
  Distinct-snoc x xs d.1 (ground arith),
)
