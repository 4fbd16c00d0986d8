-- ===== src/Schema/Validate/Fuel.antt =====
-- The check of a document ends: fuel for its depth is enough.
use Prim.Native.Nat.{max}
use j_harness.Base.{
  ℕ, zero, suc, ◌≤◌, ◌<◌, String, Option, none, some, List, [], ◌∷◌, ◌≡◌, ◌≢◌, refl, arith, ◌==◌,
  Option-cases, inl, inr, if◌then◌else◌, Bool-cases, sym,
}
use j_harness.Json.{
  Json, str, arr, obj, Items, nil, cons, Fields, end, field, GoLib, field?, depth, depth_items,
  depth_fields,
}
use j_harness.Schema.Defs.{Error, out_of_fuel, ◌then◌, on_some, DocPath, key, index, as_object}
use j_harness.Schema.Validate.{
  Check, check_type, check_enum, check_bounds, check_number, check_string, check_items, check_array,
  check_required, check_child, check_fields, report_unknown, unknown_names, check_object, validate,
  validate_text, or_empty, check_required_list,
}

abbrev Fueled : Option Error → Type 0
Fueled o = o ≢ some out_of_fuel

then-Fueled : (a b : Option Error) → Fueled a → Fueled b → Fueled (a then b)
then-Fueled none b x y = y
then-Fueled (some e) b x y = x

depth-max : (a b n : ℕ) → max a b < n → (a < n) × (b < n)
depth-max a b n h = (omega arith, omega arith)

module _ {F : Type 0} (lib : GoLib F) where
  check_type-Fueled :
      (raw : Fields F) (doc : Json F) (path : DocPath) → Fueled (check_type lib raw doc path)
  unfolding check_type
  check_type-Fueled raw doc path h = ground arith

  check_enum-Fueled :
      (raw : Fields F) (doc : Json F) (path : DocPath) → Fueled (check_enum lib raw doc path)
  unfolding check_enum
  check_enum-Fueled raw doc path h = ground arith

  check_number-Fueled :
      (raw : Fields F) (doc : Json F) (path : DocPath) → Fueled (check_number lib raw doc path)
  unfolding check_number
  check_number-Fueled raw doc path h = ground arith

  check_string-Fueled :
      (raw : Fields F) (doc : Json F) (path : DocPath) → Fueled (check_string lib raw doc path)
  unfolding check_string
  check_string-Fueled raw doc path h = ground arith

  check_bounds-Fueled :
      (n : F) (min max : Option F) (low high : Error)
      → low ≢ out_of_fuel
      → high ≢ out_of_fuel
      → Fueled (check_bounds lib n min max low high)
  check_bounds-Fueled n min max low high a b h = ground arith

  -- The check of a child that nests less than `n` deep does not run out of fuel.
  abbrev Covers : ℕ → Check lib → Type 0
  Covers n check =
      (raw : Fields F) (doc : Json F) (path : DocPath) → depth doc < n → Fueled (check raw doc path)

  check_items-Fueled :
      (n : ℕ) (check : Json F → DocPath → Option Error) (xs : Items F) (i : ℕ) (path : DocPath)
      → ((doc : Json F) (at : DocPath) → depth doc < n → Fueled (check doc at))
      → depth_items xs < n
      → Fueled (check_items lib check xs i path)
  unfolding check_items depth_items
  check_items-Fueled n check nil i path c h = λ k. cc
  check_items-Fueled n check (cons x xs) i path c h =
      let (a, b) = depth-max (depth x) (depth_items xs) n h in
      then-Fueled _ _ (c x (index i ∷ path) a) (check_items-Fueled n check xs (suc i) path c b)

  on_items-Fueled :
      (n : ℕ) (check : Check lib) (o : Option (Fields F)) (xs : Items F) (path : DocPath)
      → Covers n check
      → depth_items xs < n
      → Fueled (on_some o (λ items. check_items lib (check items) xs 0 path))
  on_items-Fueled n check none xs path c h = λ k. cc
  on_items-Fueled n check (some items) xs path c h =
      check_items-Fueled n (check items) xs 0 path (c items) h

  check_array-Fueled :
      (n : ℕ) (check : Check lib) (raw : Fields F) (doc : Json F) (path : DocPath)
      → Covers n check
      → depth doc ≤ n
      → Fueled (check_array lib check raw doc path)
  unfolding check_array depth
  check_array-Fueled n check raw (arr xs) path c h =
      then-Fueled _ _ (check_bounds-Fueled _ _ _ _ _ (λ k. cc) (λ k. cc))
        (on_items-Fueled n check (as_object (field? "items" raw)) xs path c (omega arith))
  check_array-Fueled n check raw _ path c h = λ k. cc

  field?-depth :
      (name : String) (m : Fields F) (v : Json F)
      → field? name m ≡ some v
      → depth v ≤ depth_fields m
  unfolding field? depth_fields
  field?-depth name end v h = cc
  field?-depth name (field k x m) v h = elim (Bool-cases (k == name)) [
    | inl same ↦ let e : x ≡ v = ground arith in rw (sym e) (omega arith)
    | inr other ↦ let below = field?-depth name m v (ground arith) in omega (arith, below)
  ]

  check_child-Fueled :
      (n : ℕ) (check : Check lib) (o : Option (Json F)) (sub : Json F) (path : DocPath)
      → Covers n check
      → ((v : Json F) → o ≡ some v → depth v < n)
      → Fueled (check_child lib check o sub path)
  check_child-Fueled n check (some v) (obj child) path c h = c child v path (h v refl)
  check_child-Fueled n check _ _ path c h = λ k. cc

  check_fields-Fueled :
      (n : ℕ) (check : Check lib) (props m : Fields F) (path : DocPath)
      → Covers n check
      → depth_fields m < n
      → Fueled (check_fields lib check props m path)
  unfolding check_fields
  check_fields-Fueled n check end m path c h = λ k. cc
  check_fields-Fueled n check (field name sub props) m path c h =
      then-Fueled _ _
        (check_child-Fueled n check (field? name m) sub (key name ∷ path) c
          (λ v e. omega (arith, field?-depth name m v e)))
        (check_fields-Fueled n check props m path c h)

  check_required-Fueled :
      (req : Items F) (m : Fields F) (path : DocPath) → Fueled (check_required lib req m path)
  unfolding check_required
  check_required-Fueled nil m path h = cc
  check_required-Fueled (cons (str name) xs) m path h =
      ground (arith, check_required-Fueled xs m path)
  check_required-Fueled (cons _ xs) m path h = check_required-Fueled xs m path h

  required_list-Fueled :
      (o : Option (Json F)) (m : Fields F) (path : DocPath)
      → Fueled (check_required_list lib o m path)
  required_list-Fueled (some (arr req)) m path = check_required-Fueled req m path
  required_list-Fueled _ m path = λ k. cc

  report_unknown-Fueled :
      (names : List String) (path : DocPath) → Fueled (report_unknown lib names path)
  report_unknown-Fueled [] path h = cc
  report_unknown-Fueled (a ∷ bs) path h = cc

  check_object-Fueled :
      (n : ℕ) (check : Check lib) (raw : Fields F) (doc : Json F) (path : DocPath)
      → Covers n check
      → depth doc ≤ n
      → Fueled (check_object lib check raw doc path)
  unfolding check_object depth
  check_object-Fueled n check raw (obj m) path c h =
      let props = or_empty lib (as_object (field? "properties" raw)) in
      then-Fueled _ _
        (then-Fueled _ _ (required_list-Fueled (field? "required" raw) m path)
          (check_fields-Fueled n check props m path c (omega arith)))
        (λ k. ground (arith, report_unknown-Fueled (unknown_names lib props m) path))
  check_object-Fueled n check raw _ path c h = λ k. cc

  -- A document is checked to the end: fuel for one level more than it nests is enough, and what
  -- `Validate` uses is that much.
  pub validate-ne-out_of_fuel :
      (fuel : ℕ) (raw : Fields F) (doc : Json F) (path : DocPath)
      → depth doc < fuel
      → validate lib fuel raw doc path ≢ some out_of_fuel
  unfolding validate
  validate-ne-out_of_fuel zero raw doc path h = absurd (omega arith)
  validate-ne-out_of_fuel (suc fuel) raw doc path h =
      let child : Covers fuel (validate lib fuel) =
        λ raw' doc' path' k. validate-ne-out_of_fuel fuel raw' doc' path' k in
      then-Fueled _ _
        (then-Fueled _ _
          (then-Fueled _ _
            (then-Fueled _ _
              (then-Fueled _ _ (check_type-Fueled raw doc path) (check_enum-Fueled raw doc path))
              (check_number-Fueled raw doc path))
            (check_string-Fueled raw doc path))
          (check_array-Fueled fuel (validate lib fuel) raw doc path child (omega arith)))
        (check_object-Fueled fuel (validate lib fuel) raw doc path child (omega arith))

  -- The check of a document against a schema never runs out of the fuel that it is given for the
  -- depth of the document.
  pub validate_text-ne-out_of_fuel :
      (raw : Fields F) (document : String) → validate_text lib raw document ≢ some out_of_fuel
  unfolding validate_text
  validate_text-ne-out_of_fuel raw document = elim (Option-cases (lib.unmarshal document)) [
    | inl bad ↦ rw (bad, validate_text) (λ h. cc)
    | inr (doc, good) ↦
        rw (good, validate_text)
          (validate-ne-out_of_fuel (suc (depth doc)) raw doc [] (omega arith))
  ]
