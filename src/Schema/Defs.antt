-- ===== src/Schema/Defs.antt =====
-- internal/schema/schema.go: what the checks of a schema and of a document share. Error texts are
-- constructors with their path and arguments.
use j_harness.Base.{
  ℕ, String, Bool, true, false, Option, none, some, List, if◌then◌else◌, Result, ok, err,
}
use j_harness.Json.{Json, obj, Fields}

-- A document path, `.name` or `[i]` at each level, innermost first.
pub data Segment : Type 0 where
  key : String → Segment
  index : ℕ → Segment

abbrev pub DocPath : Type 0
DocPath = List Segment

pub data Error : Type 0 where
  not_json root_not_object : Error
  unknown_type type_not_text : DocPath → Error
  property_not_object : DocPath → Error
  wrong_type : DocPath → (allowed : List String) → Error
  not_in_enum below_minimum above_maximum too_short too_long too_few too_many : DocPath → Error
  missing_required unexpected_property : DocPath → String → Error
  out_of_fuel : Error

-- `if err := …; err != nil { return err }`, then the next check; none is a nil error.
infixl 6 ◌then◌
abbrev pub ◌then◌ : Option Error → Option Error → Option Error
none then next = next
some e then next = some e

abbrev pub fail_if : Bool → Error → Option Error
fail_if true e = some e
fail_if false e = none

abbrev pub on_some : {A : Type 0} → Option A → (A → Option Error) → Option Error
on_some none f = none
on_some (some a) f = f a

abbrev pub or_ok : {A : Type 0} → Option Error → A → Result Error A
or_ok none a = ok a
or_ok (some e) a = err e

abbrev pub holds : {A : Type 0} → Option A → (A → Bool) → Bool
holds none p = false
holds (some a) p = p a

module _ {F : Type 0} where
  -- `node[k].(map[string]any)`
  abbrev pub as_object : Option (Json F) → Option (Fields F)
  as_object (some (obj m)) = some m
  as_object _ = none
