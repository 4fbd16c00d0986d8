-- ===== src/Schema/Validate.antt =====
-- internal/schema/schema.go: `Validate`. A Go map is visited in the order of its fields, so where
-- several properties fail the reported one is the first of them.
pub mod Fuel
use Prim.Native.String.{compare}
use Prim.Native.Nat.{Ordering}
use j_harness.Base.{
  ℕ, zero, suc, String, Bool, true, false, not, ◌&&◌, ◌||◌, Option, none, some, List, [], ◌∷◌, ◌==◌,
  if◌then◌else◌, any,
}
use j_harness.Json.{
  Json, null, bool, num, str, arr, obj, Items, nil, cons, Fields, end, field, GoLib, field?, depth,
}
use j_harness.Schema.Defs.{
  key, index, DocPath, Error, not_json, wrong_type, not_in_enum, below_minimum, above_maximum,
  too_short, too_long, too_few, too_many, missing_required, unexpected_property, out_of_fuel,
  ◌then◌, fail_if, on_some, holds, as_object,
}

module _ {F : Type 0} where
  unfoldable pub type_list : Items F → List String
  type_list nil = []
  type_list (cons (str name) xs) = name ∷ type_list xs
  type_list (cons _ xs) = type_list xs

  unfoldable pub type_names : Option (Json F) → List String
  unfolding type_list
  type_names (some (str t)) = t ∷ []
  type_names (some (arr xs)) = type_list xs
  type_names _ = []

  abbrev pub is_object : Json F → Bool
  is_object (obj m) = true
  is_object _ = false

  abbrev pub is_array : Json F → Bool
  is_array (arr xs) = true
  is_array _ = false

  abbrev pub is_text : Json F → Bool
  is_text (str s) = true
  is_text _ = false

  abbrev pub is_boolean : Json F → Bool
  is_boolean (bool b) = true
  is_boolean _ = false

  abbrev pub is_null : Json F → Bool
  is_null null = true
  is_null _ = false

  -- `toFloat`; a decoded document has no other number than a float64.
  abbrev pub to_float : Json F → Option F
  to_float (num n) = some n
  to_float _ = none

  abbrev pub float_of : Option (Json F) → Option F
  float_of none = none
  float_of (some v) = to_float v

abbrev pub count_items : {F : Type 0} → Items F → ℕ
count_items nil = 0
count_items (cons x xs) = suc (count_items xs)

-- `len([]rune(str))`
abbrev pub count_chars : String → ℕ
count_chars String.[] = 0
count_chars (String.◌∷◌ c s) = suc (count_chars s)

module _ {F : Type 0} (lib : GoLib F) where
  open lib use {unmarshal, marshal, is_integral, float_lt, of_length}

  unfoldable pub matches_type : String → Json F → Bool
  matches_type name doc =
      if name == "object"
      then is_object doc
      else if name == "array"
      then is_array doc
      else if name == "string"
      then is_text doc
      else if name == "number"
      then holds (to_float doc) (λ n. true)
      else if name == "integer"
      then holds (to_float doc) is_integral
      else if name == "boolean"
      then is_boolean doc
      else name == "null" && is_null doc

  unfoldable pub json_equal : Json F → Json F → Bool
  json_equal a b = marshal a == marshal b

  abbrev no_types : List String → Bool
  no_types [] = true
  no_types (x ∷ xs) = false

  check_type : Fields F → Json F → DocPath → Option Error
  unfolding type_names matches_type field?
  check_type raw doc path =
      let allowed = type_names (field? "type" raw) in
      fail_if (not (no_types allowed || any (λ name. matches_type name doc) allowed))
        (wrong_type path allowed)

  among : Items F → Json F → Bool
  unfolding json_equal
  among nil doc = false
  among (cons candidate xs) doc = json_equal candidate doc || among xs doc

  check_enum : Fields F → Json F → DocPath → Option Error
  unfolding among field?
  check_enum raw doc path = elim (field? "enum" raw) [
    | some (arr values) ↦ fail_if (not (among values doc)) (not_in_enum path)
    | _ ↦ none
  ]

  -- A lower and an upper bound that may be missing.
  abbrev below : F → Option F → Bool
  below n bound = holds bound (λ min. float_lt n min)

  abbrev above : F → Option F → Bool
  above n bound = holds bound (λ max. float_lt max n)

  abbrev check_bounds : F → Option F → Option F → Error → Error → Option Error
  check_bounds n min max low high = fail_if (below n min) low then fail_if (above n max) high

  check_number : Fields F → Json F → DocPath → Option Error
  unfolding field?
  check_number raw (num n) path =
      check_bounds n (float_of (field? "minimum" raw)) (float_of (field? "maximum" raw))
        (below_minimum path) (above_maximum path)
  check_number raw _ path = none

  check_string : Fields F → Json F → DocPath → Option Error
  unfolding field?
  check_string raw (str s) path =
      check_bounds (of_length (count_chars s)) (float_of (field? "minLength" raw))
        (float_of (field? "maxLength" raw)) (too_short path) (too_long path)
  check_string raw _ path = none

  -- The loop over the items; `i` is the position.
  unfoldable pub check_items :
      (Json F → DocPath → Option Error) → Items F → ℕ → DocPath → Option Error
  check_items check nil i path = none
  check_items check (cons x xs) i path =
      check x (index i ∷ path) then check_items check xs (suc i) path

  -- `validate` on a child node, as an argument of the checks that recur.
  abbrev pub Check : Type 0
  Check = Fields F → Json F → DocPath → Option Error

  check_array : Check → Fields F → Json F → DocPath → Option Error
  unfolding field? check_items
  check_array check raw (arr xs) path =
      check_bounds (of_length (count_items xs)) (float_of (field? "minItems" raw))
        (float_of (field? "maxItems" raw)) (too_few path) (too_many path)
      then on_some (as_object (field? "items" raw)) (λ items. check_items (check items) xs 0 path)
  check_array check raw _ path = none

  unfoldable pub check_required : Items F → Fields F → DocPath → Option Error
  unfolding field?
  check_required nil m path = none
  check_required (cons (str name) xs) m path = elim (field? name m) [
    | none ↦ some (missing_required path name)
    | some v ↦ check_required xs m path
  ]
  check_required (cons _ xs) m path = check_required xs m path

  abbrev check_required_list : Option (Json F) → Fields F → DocPath → Option Error
  check_required_list (some (arr req)) m path = check_required req m path
  check_required_list _ m path = none

  abbrev check_child : Check → Option (Json F) → Json F → DocPath → Option Error
  check_child check (some value) (obj child) path = check child value path
  check_child check _ _ path = none

  unfoldable pub check_fields : Check → Fields F → Fields F → DocPath → Option Error
  unfolding field?
  check_fields check end m path = none
  check_fields check (field name sub props) m path =
      check_child check (field? name m) sub (key name ∷ path) then check_fields check props m path

  unfoldable pub unknown_names : Fields F → Fields F → List String
  unfolding field?
  unknown_names props end = []
  unknown_names props (field name v m) = elim (field? name props) [
    | none ↦ name ∷ unknown_names props m
    | some sub ↦ unknown_names props m
  ]

  -- `sort.Strings(unknown); unknown[0]`
  abbrev least : String → List String → String
  least a [] = a
  least a (b ∷ bs) = least (elim (compare b a) [ Ordering.lt ↦ b | _ ↦ a ]) bs

  abbrev report_unknown : List String → DocPath → Option Error
  report_unknown [] path = none
  report_unknown (a ∷ bs) path = some (unexpected_property path (least a bs))

  -- A nil map reads as empty.
  abbrev or_empty : Option (Fields F) → Fields F
  or_empty none = end
  or_empty (some m) = m

  check_object : Check → Fields F → Json F → DocPath → Option Error
  unfolding check_required check_fields unknown_names field?
  check_object check raw (obj m) path =
      let props = or_empty (as_object (field? "properties" raw)) in
      check_required_list (field? "required" raw) m path
      then check_fields check props m path
      then elim (field? "additionalProperties" raw) [
        | some (bool false) ↦ report_unknown (unknown_names props m) path
        | _ ↦ none
      ]
  check_object check raw _ path = none

  -- Each level of the document uses one unit of fuel.
  unfoldable pub validate : ℕ → Fields F → Json F → DocPath → Option Error
  unfolding check_type check_enum check_number check_string check_array check_object
  validate zero raw doc path = some out_of_fuel
  validate (suc fuel) raw doc path =
      check_type raw doc path
      then check_enum raw doc path
      then check_number raw doc path
      then check_string raw doc path
      then check_array (validate fuel) raw doc path
      then check_object (validate fuel) raw doc path

  -- `Validate` of a document's text.
  unfoldable pub validate_text : Fields F → String → Option Error
  unfolding validate depth
  validate_text raw document = elim (unmarshal document) [
    | none ↦ some not_json
    | some doc ↦ validate (suc (depth doc)) raw doc []
  ]
