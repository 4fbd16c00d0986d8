-- ===== src/Registry/Blueprint.antt =====
-- internal/registry/registry.go: what `validateBlueprint` asks of an agent's blueprint.
pub mod Safe
use j_harness.Base.{
  ℕ, String, Bool, true, false, not, ◌||◌, List, [], ◌∷◌, Result, ok, err, is_empty, nat_eq,
  if◌then◌else◌, ◌==◌, trim_space,
}
use j_harness.Model.{AgentBlueprint, schema_version, output_text, output_json}
use j_harness.Pipeline.Template.{id_pattern}
use j_harness.Tools.{is_builtin}
use j_harness.Registry.Paths.{safe_rel}
use j_harness.Registry.{
  Error, Check, ◌>>◌, require, from_path, unsupported_version, invalid_id, id_not_filename,
  prompt_path_required, bad_prompt_path, model_required, unknown_tool, invalid_output_format,
  schema_needs_json, bad_schema_path,
}

unfoldable pub check_tools : List String → Check
unfolding is_builtin
check_tools [] = ok tt
check_tools (tool ∷ tools) = do require (is_builtin tool) (unknown_tool tool); check_tools tools

-- The switch over the output format
abbrev pub known_format : String → Bool
known_format f = is_empty f || f == output_text || f == output_json

unfoldable pub check_output_schema : {F : Type 0} → AgentBlueprint F → Check
unfolding safe_rel
check_output_schema bp = if is_empty bp.output_schema then ok tt else (do
  require (bp.output_format == output_json) schema_needs_json
  from_path bad_schema_path (safe_rel bp.output_schema))

unfoldable pub validate_blueprint : {F : Type 0} → String → AgentBlueprint F → Check
unfolding id_pattern trim_space safe_rel check_tools check_output_schema
validate_blueprint filename bp = do
  require (nat_eq bp.version schema_version) (unsupported_version bp.version)
  require (id_pattern bp.id) (invalid_id bp.id)
  require (filename == bp.id) (id_not_filename bp.id filename)
  require (not (is_empty (trim_space bp.prompt_path))) prompt_path_required
  from_path bad_prompt_path (safe_rel bp.prompt_path)
  require (not (is_empty (trim_space bp.model))) model_required
  check_tools bp.tools
  require (known_format bp.output_format) (invalid_output_format bp.output_format)
  check_output_schema bp
