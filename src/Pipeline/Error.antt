-- ===== src/Pipeline/Error.antt =====
-- The errors of internal/pipeline, one constructor for each `fmt.Errorf` with its arguments.
use j_harness.Base.{String, List}

pub data Error : Type 0 where
  invalid_input_reference invalid_step_reference invalid_json_path : (raw : String) → Error
  invalid_template_reference malformed_template : (raw : String) → Error
  unresolved_input unresolved_step_output unresolved_reference : String → Error
  output_not_json : (path : List String) → Error
  key_not_found bad_index : (path : List String) (seg : String) → Error
  cannot_descend : (path : List String) → Error
  router_input_not_json no_single_operator no_route_matched : Error
  invalid_matches_pattern : String → Error
  step_input : (step : String) → Error → Error
  references_unknown_step needs_unknown_step goto_unknown_step : (step target : String) → Error
  needs_itself : (step : String) → Error
  dependency_cycle : (step : String) → Error
