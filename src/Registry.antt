-- ===== src/Registry.antt =====
-- internal/registry/registry.go: what `validatePipeline` asks of a pipeline before it is loaded.
-- `known` says which agents there are.
pub mod Paths
pub mod Valid
pub mod Blueprint
pub mod Load
pub mod Write
pub mod Routes
use j_harness.Base.{
  ℕ, zero, suc, ◌+◌, String, Bool, true, false, not, ◌||◌, Option, none, some, List, [], ◌∷◌, elem,
  Result, ok, err, ◌>>=◌, is_empty, ltb, nat_eq, if◌then◌else◌, ◌==◌,
}
use j_harness.Model.{
  schema_version, Condition, Operator, no_operator, operator, Route, Step, Pipeline,
}
use j_harness.Pipeline.Error.{Error as PipelineError}
use j_harness.Pipeline.Template.{RefKind, ref_input, ref_step_output, Ref, id_pattern, parse_refs}
use j_harness.Pipeline.Graph.{Graph, deps, step_ids}
use j_harness.Registry.Paths.{PathError}
use j_harness.Schema.Defs.{Error as SchemaError}

pub data Error : Type 0 where
  unsupported_version : ℕ → Error
  invalid_pipeline_id : String → Error
  id_not_filename : (id filename : String) → Error
  no_steps : Error
  invalid_input_name invalid_step_id duplicate_step : String → Error
  bad_step_input : (step : String) → PipelineError → Error
  bad_step_ref : (step : String) → Error → Error
  unknown_input references_unknown_step : String → Error
  needs_unknown_step : (step need : String) → Error
  no_routes missing_goto no_operator_or_default many_defaults : (step : String) → Error
  goto_not_a_step : (step goto : String) → Error
  no_agent no_output_name : (step : String) → Error
  unknown_agent invalid_output_name : (step name : String) → Error
  bad_graph bad_output : PipelineError → Error
  bad_output_ref : Error → Error
  -- of blueprints
  invalid_id unknown_tool invalid_output_format : String → Error
  prompt_path_required model_required schema_needs_json : Error
  bad_prompt_path bad_schema_path : PathError → Error
  -- of files
  dir_unreadable open_failed decode_failed trailing_data : (path : String) → Error
  prompt_unreadable schema_unreadable : (path : String) → Error
  bad_schema : SchemaError → Error
  in_file : (name : String) → Error → Error
  prompt_missing write_failed : (path : String) → Error

abbrev pub Check : Type 0
Check = Result Error (Unit {0})

-- A check that has to pass before the rest.
infixl 5 ◌>>◌
abbrev pub ◌>>◌ : {A : Type 0} → Check → Result Error A → Result Error A
ok u >> rest = rest
err e >> rest = err e

-- `if !test { return error }`
abbrev pub require : Bool → Error → Check
require true e = ok tt
require false e = err e

abbrev pub wrap : (Error → Error) → Check → Check
wrap f (ok u) = ok u
wrap f (err e) = err (f e)

abbrev pub from_path : (PathError → Error) → Result PathError String → Check
from_path f (ok q) = ok tt
from_path f (err e) = err (f e)

abbrev pub from_pipeline :
    {A : Type 0} → (PipelineError → Error) → Result PipelineError A → Result Error A
from_pipeline f (ok a) = ok a
from_pipeline f (err e) = err (f e)

unfoldable pub check_inputs : List String → Check
unfolding id_pattern
check_inputs [] = ok tt
check_inputs (name ∷ names) = do
  require (id_pattern name) (invalid_input_name name)
  check_inputs names

-- The loop that fills `allIDs`; `seen` are the ids of the steps before.
unfoldable pub check_ids : {F : Type 0} → List String → List (Step F) → Check
unfolding id_pattern elem
check_ids seen [] = ok tt
check_ids seen (s ∷ ss) = do
  require (id_pattern s.id) (invalid_step_id s.id)
  require (not (elem s.id seen)) (duplicate_step s.id)
  check_ids (s.id ∷ seen) ss

abbrev pub has_operator : {F : Type 0} → Option (Condition F) → Bool
has_operator none = false
has_operator (some c) = elim (operator c) [ no_operator ↦ false | _ ↦ true ]

abbrev pub default_of : {F : Type 0} → Route F → ℕ → ℕ
default_of rt n = if rt.default then suc n else n

module _ (inputs ids : List String) where
  abbrev check_kind : RefKind → Ref → Check
  check_kind ref_input ref = require (elem ref.name inputs) (unknown_input ref.name)
  check_kind ref_step_output ref =
      require (elem ref.step_id ids) (references_unknown_step ref.step_id)

  -- `checkRef`, which is always called with an empty step id.
  unfoldable pub check_ref : Ref → Check
  unfolding elem
  check_ref ref = check_kind ref.kind ref

  unfoldable pub check_refs : (Error → Error) → List Ref → Check
  unfolding check_ref
  check_refs place [] = ok tt
  check_refs place (ref ∷ refs) = do wrap place (check_ref ref); check_refs place refs

module _ (ids : List String) (id : String) where
  unfoldable pub check_needs : List String → Check
  unfolding elem
  check_needs [] = ok tt
  check_needs (need ∷ needs) = do
    require (elem need ids) (needs_unknown_step id need)
    check_needs needs

  -- The loop over the routes, with the number of defaults so far.
  unfoldable pub check_routes : {F : Type 0} → List (Route F) → ℕ → Check
  unfolding elem operator
  check_routes [] n = require (ltb n 2) (many_defaults id)
  check_routes (rt ∷ rts) n = do
    require (not (is_empty rt.goto)) (missing_goto id)
    require (elem rt.goto ids) (goto_not_a_step id rt.goto)
    require (rt.default || has_operator rt.when) (no_operator_or_default id)
    check_routes rts (default_of rt n)

abbrev pub is_nil : {A : Type 0} → List A → Bool
is_nil [] = true
is_nil (x ∷ xs) = false

module _ {F : Type 0} (known : String → Bool) (inputs ids : List String) where
  check_router : Step F → Check
  unfolding check_routes
  check_router s = do
    require (not (is_nil s.routes)) (no_routes s.id)
    check_routes ids s.id s.routes 0

  check_agent : Step F → Check
  unfolding id_pattern
  check_agent s = do
    require (not (is_empty s.agent_id)) (no_agent s.id)
    require (known s.agent_id) (unknown_agent s.id s.agent_id)
    require (not (is_empty s.output)) (no_output_name s.id)
    require (id_pattern s.output) (invalid_output_name s.id s.output)

  -- The body of the loop over the steps.
  unfoldable pub check_step : Step F → Check
  unfolding parse_refs check_refs check_needs check_router check_agent
  check_step s = do
    refs ← from_pipeline (bad_step_input s.id) (parse_refs s.input)
    check_refs inputs ids (bad_step_ref s.id) refs
    check_needs ids s.id s.needs
    if s.router then check_router s else check_agent s

  unfoldable pub check_steps : List (Step F) → Check
  unfolding check_step
  check_steps [] = ok tt
  check_steps (s ∷ ss) = do check_step s; check_steps ss

module _ (inputs ids : List String) where
  unfoldable pub check_output : String → Check
  unfolding parse_refs check_refs
  check_output template = if is_empty template then ok tt else (do
    refs ← from_pipeline bad_output (parse_refs template)
    check_refs inputs ids bad_output_ref refs)

module _ {F : Type 0} (known : String → Bool) (filename : String) (p : Pipeline F) where
  abbrev pub check_parts : List String → Check
  check_parts ids = do
    check_ids [] p.steps
    check_steps known p.inputs ids p.steps
    g ← from_pipeline bad_graph (deps p)
    check_output p.inputs ids p.output

  unfoldable pub validate_pipeline : Check
  unfolding check_inputs check_ids check_steps check_output deps id_pattern
  validate_pipeline = do
    require (nat_eq p.version schema_version) (unsupported_version p.version)
    require (id_pattern p.pipeline_id) (invalid_pipeline_id p.pipeline_id)
    require (filename == p.pipeline_id) (id_not_filename p.pipeline_id filename)
    require (not (is_nil p.steps)) no_steps
    check_inputs p.inputs
    check_parts (step_ids p.steps)
