-- ===== src/Schema/Compile.antt =====
-- internal/schema/schema.go: `Compile` and `checkNode`, which read a schema at load time.
use j_harness.Base.{
  ℕ, zero, suc, String, Bool, not, ◌||◌, Option, none, some, [], ◌∷◌, ◌==◌, if◌then◌else◌, Result,
  err,
}
use j_harness.Json.{
  Json, str, arr, obj, Items, nil, cons, Fields, end, field, GoLib, field?, depth_fields,
}
use j_harness.Schema.Defs.{
  key, DocPath, Error, not_json, root_not_object, unknown_type, type_not_text, property_not_object,
  out_of_fuel, ◌then◌, fail_if, on_some, or_ok, as_object,
}

unfoldable pub known_type : String → Bool
known_type name =
    name == "object"
    || name == "array"
    || name == "string"
    || name == "number"
    || name == "integer"
    || name == "boolean"
    || name == "null"

module _ {F : Type 0} where
  check_type_list : Items F → DocPath → Option Error
  unfolding known_type
  check_type_list nil path = none
  check_type_list (cons (str name) xs) path =
      fail_if (not (known_type name)) (unknown_type path) then check_type_list xs path
  check_type_list (cons _ xs) path = some (unknown_type path)

  check_type_keyword : Option (Json F) → DocPath → Option Error
  unfolding check_type_list
  check_type_keyword none path = none
  check_type_keyword (some (str name)) path = fail_if (not (known_type name)) (unknown_type path)
  check_type_keyword (some (arr xs)) path = check_type_list xs path
  check_type_keyword (some _) path = some (type_not_text path)

  check_properties : (Fields F → DocPath → Option Error) → Fields F → DocPath → Option Error
  check_properties check end path = none
  check_properties check (field name (obj child) m) path =
      check child (key name ∷ key "properties" ∷ path) then check_properties check m path
  check_properties check (field name _ m) path =
      some (property_not_object (key name ∷ key "properties" ∷ path))

  unfoldable pub check_node : ℕ → Fields F → DocPath → Option Error
  unfolding check_type_keyword check_properties field?
  check_node zero node path = some out_of_fuel
  check_node (suc fuel) node path =
      check_type_keyword (field? "type" node) path
      then on_some (as_object (field? "properties" node))
          (λ props. check_properties (check_node fuel) props path)
      then on_some (as_object (field? "items" node))
          (λ items. check_node fuel items (key "items" ∷ path))

  compile_doc : Option (Json F) → Result Error (Fields F)
  unfolding check_node depth_fields
  compile_doc none = err not_json
  compile_doc (some (obj m)) = or_ok (check_node (suc (depth_fields m)) m []) m
  compile_doc (some _) = err root_not_object

  unfoldable pub compile : GoLib F → String → Result Error (Fields F)
  unfolding compile_doc
  compile lib raw = compile_doc (lib.unmarshal raw)
