-- ===== src/Registry/Write.antt =====
-- internal/registry/write.go: how a blueprint or a pipeline is written. `W` is the file system, and
-- `atomicWrite`, `os.Stat` and encoding/json act on it as parameters.
pub mod Refused
use Prim.Native.String.{◌++◌ as str_append}
use j_harness.Base.{String, Bool, Option, none, some, Result, ok, err, is_empty, if◌then◌else◌}
use j_harness.Json.{Fields, GoLib}
use j_harness.Model.{AgentBlueprint, Pipeline}
use j_harness.Engine.Defs.{Registry}
use j_harness.Registry.Paths.{safe_rel}
use j_harness.Registry.Blueprint.{validate_blueprint}
use j_harness.Registry.{
  Error, Check, bad_prompt_path, prompt_missing, write_failed, validate_pipeline,
}
use j_harness.Registry.Load.{
  Files, compile_output_schema, of_path, known_in, in_dir, blueprints_dir, pipelines_dir,
}

-- A write replaces a file as a whole, or fails. The texts end with a line feed.
pub record Disk (F W : Type 0) : Type 0 where
  pub files : W → Files F
  pub exists : W → String → Bool
  pub write : String → String → W → Bool × W
  pub print_blueprint : AgentBlueprint F → String
  pub print_pipeline : Pipeline F → String

-- An error, and the file system.
abbrev pub Written : Type 0 → Type 0
Written W = Option Error × W

module _ {W : Type 0} where
  -- `if err := …; err != nil { return err }` with the rest of the function
  abbrev pub unless : {A : Type 0} → Result Error A → W → (A → Written W) → Written W
  unless (ok a) w rest = rest a
  unless (err e) w rest = (some e, w)

  abbrev pub then_write : String → Bool × W → (W → Written W) → Written W
  then_write path (ok_, w) rest = if ok_ then rest w else (some (write_failed path), w)

  abbrev pub done : W → Written W
  done w = (none, w)

module _ {F W : Type 0} (lib : GoLib F) (disk : Disk F W) where
  open disk use {files, exists, write, print_blueprint, print_pipeline}

  unfoldable pub check_schema :
      AgentBlueprint F → W → (Fields F → Written W) → Written W → Written W
  unfolding compile_output_schema
  check_schema bp w found rest =
      if is_empty bp.output_schema
      then rest
      else unless (compile_output_schema lib (files w) bp) w found

  -- The prompt is written, or has to be there.
  abbrev pub put_prompt : String → String → W → (W → Written W) → Written W
  put_prompt rel prompt w rest =
      if is_empty prompt
      then (if exists w rel then rest w else (some (prompt_missing rel), w))
      else then_write rel (write rel prompt w) rest

  abbrev pub json_path : String → String → String
  json_path dir id = in_dir dir (str_append id ".json")

  unfoldable pub put_files : AgentBlueprint F → String → W → Written W
  unfolding safe_rel
  put_files bp prompt w = unless (of_path bad_prompt_path (safe_rel bp.prompt_path)) w (λ rel.
      put_prompt rel prompt w (λ w'.
        then_write (json_path blueprints_dir bp.id)
          (write (json_path blueprints_dir bp.id) (print_blueprint bp) w') done))

  unfoldable pub write_blueprint : AgentBlueprint F → String → W → Written W
  unfolding validate_blueprint check_schema put_files
  write_blueprint bp prompt w =
      unless (validate_blueprint bp.id bp) w
        (λ u. check_schema bp w (λ s. put_files bp prompt w) (put_files bp prompt w))

  unfoldable pub write_pipeline : Registry F → Pipeline F → W → Written W
  unfolding validate_pipeline
  write_pipeline r p w = unless (validate_pipeline (known_in r) p.pipeline_id p) w (λ u.
      then_write (json_path pipelines_dir p.pipeline_id)
        (write (json_path pipelines_dir p.pipeline_id) (print_pipeline p) w) done)
