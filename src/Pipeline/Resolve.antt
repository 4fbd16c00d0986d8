-- ===== src/Pipeline/Resolve.antt =====
-- internal/pipeline/resolve.go: substitution of template references from a scope.

use Prim.Native.String.{◌++◌ as str_append}
use j_harness.Base.{
  zero, String, true, false, Option, none, some, List, [], ◌∷◌, Map, lookup, insert, get_or, Result,
  ok, err, ◌>>=◌, trim_space, if◌then◌else◌,
}
use j_harness.Json.{Json, null, bool, num, str, arr, obj, GoLib, field?, item?}
use j_harness.Pipeline.Error.{
  Error, unresolved_input, unresolved_step_output, output_not_json, key_not_found, bad_index,
  cannot_descend,
}
use j_harness.Pipeline.Template.{
  RefKind, ref_input, ref_step_output, Ref, Piece, lit, hole, scan, raw_of, parse_refs,
}

pub record Scope : Type 0 where
  pub inputs : Map String
  pub outputs : Map String

module _ {F : Type 0} (lib : GoLib F) where
  open lib use {unmarshal, marshal, is_integral, format_int, format_float, atoi}

  unfoldable pub stringify : Json F → String
  stringify null = ""
  stringify (str s) = s
  stringify (bool true) = "true"
  stringify (bool false) = "false"
  stringify (num t) = if is_integral t then format_int t else format_float t
  stringify (arr xs) = marshal (arr xs)
  stringify (obj m) = marshal (obj m)

  abbrev or_error : Option (Json F) → Error → Result Error (Json F)
  or_error none e = err e
  or_error (some v) e = ok v

  -- One round of the loop of `lookupPath`.
  abbrev descend : List String → String → Json F → Result Error (Json F)
  descend path seg (obj m) = or_error (field? seg m) (key_not_found path seg)
  descend path seg (arr xs) = elim (atoi seg) [
    | none ↦ err (bad_index path seg)
    | some i ↦ or_error (item? i xs) (bad_index path seg)
  ]
  descend path seg _ = err (cannot_descend path)

  unfoldable pub walk : List String → List String → Json F → Result Error (Json F)
  unfolding field? item?
  walk path [] cur = ok cur
  walk path (seg ∷ segs) cur = do next ← descend path seg cur; walk path segs next

  unfoldable pub lookup_path : String → List String → Result Error String
  unfolding walk stringify trim_space
  lookup_path raw path = elim (unmarshal (trim_space raw)) [
    | none ↦ err (output_not_json path)
    | some doc ↦ walk path path doc >>= λ v. ok (stringify v)
  ]

  abbrev output_of : Option String → Ref → Result Error String
  output_of none ref = err (unresolved_step_output ref.step_id)
  output_of (some raw) ref = elim ref.path [ [] ↦ ok raw | seg ∷ segs ↦ lookup_path raw ref.path ]

  abbrev resolve_kind : RefKind → Ref → Scope → Result Error String
  resolve_kind ref_input ref scope = elim (lookup ref.name scope.inputs) [
    | none ↦ err (unresolved_input ref.name)
    | some val ↦ ok val
  ]
  resolve_kind ref_step_output ref scope = output_of (lookup ref.step_id scope.outputs) ref

  unfoldable pub resolve_ref : Ref → Scope → Result Error String
  unfolding lookup lookup_path
  resolve_ref ref scope = resolve_kind ref.kind ref scope

  -- The loop that fills `replacements`.
  unfoldable pub fill : List Ref → Scope → Map String → Result Error (Map String)
  unfolding resolve_ref insert
  fill [] scope reps = ok reps
  fill (ref ∷ refs) scope reps = do
    val ← resolve_ref ref scope
    fill refs scope (insert ref.raw val reps)

-- The loop over the matches that writes the result.
unfoldable pub build : Map String → List Piece → String
unfolding lookup
build reps [] = String.[]
build reps (lit c ∷ ps) = String.◌∷◌ c (build reps ps)
build reps (hole inner ∷ ps) = str_append (get_or "" (lookup (raw_of inner) reps)) (build reps ps)

module _ {F : Type 0} (lib : GoLib F) where
  substitute : String → List Ref → Scope → Result Error String
  unfolding fill build scan
  substitute s [] scope = ok s
  substitute s (ref ∷ refs) scope = do
    reps ← fill lib (ref ∷ refs) scope []
    ok (build reps (scan zero s))

  unfoldable pub resolve : String → Scope → Result Error String
  unfolding substitute parse_refs
  resolve s scope = do refs ← parse_refs s; substitute s refs scope
