-- ===== src/Pipeline/Graph/Colors.antt =====
-- internal/pipeline/graph.go: how many steps the search of `checkAcyclic` has not entered yet.
use j_harness.Base.{
  ℕ, ◌+◌, ◌≤◌, ◌<◌, String, true, List, [], ◌∷◌, ◌≡◌, ◌≢◌, elem, length, insert, lookup,
  lookup-insert, ◌==◌, eq_iff, arith, if◌then◌else◌,
}
use j_harness.Pipeline.Graph.{Color, white, gray, Colors, color_of}

pub color_of-insert :
    (k j : String) (v : Color) (c : Colors)
    → color_of (insert k v c) j ≡ (if k == j then v else color_of c j)
unfolding color_of
color_of-insert k j v c = rw (lookup-insert k j v c) (ground arith)

abbrev pub is_white : Color → ℕ
is_white white = 1
is_white _ = 0

-- How many of the steps are white: the fuel that a search still needs.
abbrev pub whites : Colors → List String → ℕ
whites c [] = 0
whites c (x ∷ xs) = is_white (color_of c x) + whites c xs

abbrev pub Fades : Colors → Colors → Type 0
Fades c c' = (j : String) → color_of c j ≢ white → color_of c' j ≢ white

pub whites-le : (c c' : Colors) → Fades c c' → (xs : List String) → whites c' xs ≤ whites c xs
whites-le c c' f [] = omega arith
whites-le c c' f (x ∷ xs) = ground (arith, f x, whites-le c c' f xs)

pub whites-gray_le :
    (id : String) (c : Colors) (xs : List String) → whites (insert id gray c) xs ≤ whites c xs
whites-gray_le id c [] = omega arith
whites-gray_le id c (x ∷ xs) = ground (arith, color_of-insert id x gray c, whites-gray_le id c xs)

pub whites-gray_lt :
    (id : String) (c : Colors) (xs : List String)
    → color_of c id ≡ white
    → elem id xs ≡ true
    → whites (insert id gray c) xs < whites c xs
unfolding elem
whites-gray_lt id c [] w h = ground arith
whites-gray_lt id c (x ∷ xs) w h = ground (
  arith,
  color_of-insert id x gray c,
  eq_iff id x,
  eq_iff x id,
  whites-gray_le id c xs,
  whites-gray_lt id c xs w,
)

pub whites-start : (xs : List String) → whites [] xs ≤ length xs
unfolding color_of lookup
whites-start [] = omega arith
whites-start (x ∷ xs) = omega (arith, whites-start xs)
