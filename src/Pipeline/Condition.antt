-- ===== src/Pipeline/Condition.antt =====
-- internal/pipeline/condition.go: router conditions and the choice of a route.

use j_harness.Base.{
  ℕ, ◌+◌, ◌*◌, ◌-◌, ◌%◌, leb, String, code, Bool, true, false, not, Option, none, some, List, [],
  ◌∷◌, ◌==◌, Result, ok, err, ◌>>=◌, trim_space, split, is_digit, is_empty, any, if◌then◌else◌,
}
use j_harness.Json.{Json, str, arr, obj, GoLib, field?, item?}
use j_harness.Model.{
  Operator, no_operator, op_equals, op_not_equals, op_in, op_matches, op_exists, Condition,
  operator, Route,
}
use j_harness.Pipeline.Error.{
  Error, router_input_not_json, no_single_operator, no_route_matched, invalid_matches_pattern,
}
use j_harness.Pipeline.Resolve.{stringify}

-- Go's `int` has 64 bits and wraps; a pattern from 2 ^ 63 on is a negative number.
abbrev pub int_mod : ℕ
int_mod = 18446744073709551616

abbrev pub is_negative : ℕ → Bool
is_negative n = leb 9223372036854775808 n

-- The loop of `atoi`, from the number read so far.
atoi_from : ℕ → String → Option ℕ
atoi_from n String.[] = some n
atoi_from n (String.◌∷◌ r s) =
    let rest = atoi_from ((n * 10 + (code r - b'0')) % int_mod) s in
    if is_digit (code r) then rest else none

unfoldable pub atoi : String → Option ℕ
unfolding atoi_from
atoi s = if is_empty s then none else atoi_from 0 s

module _ {F : Type 0} where
  abbrev step_into : String → Json F → Option (Json F)
  step_into seg (obj m) = field? seg m
  step_into seg (arr xs) = elim (atoi seg) [
    | none ↦ none
    | some i ↦ if is_negative i then none else item? i xs
  ]
  step_into seg _ = none

  walk_segments : List String → Json F → Option (Json F)
  unfolding field? item? atoi
  walk_segments [] cur = some cur
  walk_segments (seg ∷ segs) cur = elim (step_into seg cur) [
    | none ↦ none
    | some next ↦ walk_segments segs next
  ]

  -- `walkPath`, whose error is always nil: none stands for `found == false`.
  unfoldable pub walk_path : Json F → String → Option (Json F)
  unfolding walk_segments split
  walk_path doc path = if is_empty path then some doc else walk_segments (split b'.' path) doc

module _ {F : Type 0} (lib : GoLib F) where
  open lib use {unmarshal, marshal, compile}

  abbrev same_encoding : Json F → Json F → Bool
  same_encoding value operand = marshal value == marshal operand

  unfoldable pub loose_equal : Json F → Json F → Bool
  unfolding stringify
  loose_equal value (str s) = stringify lib value == s
  loose_equal value operand = same_encoding value operand

  abbrev found_and : Option (Json F) → (Json F → Bool) → Bool
  found_and none test = false
  found_and (some value) test = test value

  abbrev match_pattern : Option (Json F) → String → Result Error Bool
  match_pattern none pattern = ok false
  match_pattern (some value) pattern = elim (compile pattern) [
    | none ↦ err (invalid_matches_pattern pattern)
    | some matches ↦ ok (matches (stringify lib value))
  ]

  -- The `switch` on the operator; `found` is none where the path led nowhere.
  abbrev test_value : Operator → Condition F → Option (Json F) → Result Error Bool
  test_value op_exists c found = ok (found_and found (λ v. not (is_empty (stringify lib v))))
  test_value op_equals c found = ok (found_and found (λ v. loose_equal v c.equals))
  test_value op_not_equals c found = ok (found_and found (λ v. not (loose_equal v c.not_equals)))
  test_value op_in c found = ok (found_and found (λ v. any (λ e. loose_equal v e) c.among))
  test_value op_matches c found = match_pattern found c.matches
  test_value no_operator c found = err no_single_operator

  unfoldable pub evaluate_condition : Condition F → String → Result Error Bool
  unfolding operator loose_equal walk_path trim_space
  evaluate_condition c input = elim (unmarshal (trim_space input)) [
    | none ↦ err router_input_not_json
    | some doc ↦ test_value (operator c) c (walk_path doc c.path)
  ]

  abbrev pub finish : Option String → Result Error String
  finish none = err no_route_matched
  finish (some fallback) = ok fallback

  abbrev pub chosen : Bool → String → Result Error String → Result Error String
  chosen true target rest = ok target
  chosen false target rest = rest

  -- One route of the loop, with the rest of the loop, which starts from a given fallback.
  abbrev pub try_route :
      Bool
      → Option (Condition F)
      → String
      → String
      → Option String
      → (Option String → Result Error String)
      → Result Error String
  try_route true when target input fallback rest = rest (some target)
  try_route false none target input fallback rest = rest fallback
  try_route false (some c) target input fallback rest = do
    matched ← evaluate_condition c input
    chosen matched target (rest fallback)

  unfoldable pub pick_from : List (Route F) → String → Option String → Result Error String
  unfolding evaluate_condition
  pick_from [] input fallback = finish fallback
  pick_from (r ∷ rs) input fallback =
      try_route r.default r.when r.goto input fallback (pick_from rs input)

  unfoldable pub pick_route : List (Route F) → String → Result Error String
  unfolding pick_from
  pick_route routes input = pick_from routes input none
