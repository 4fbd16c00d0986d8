-- ===== src/Registry/Load.antt =====
-- internal/registry/registry.go: how a registry is read from its directory. The files and encoding/json
-- are parameters; a path is relative to the registry's root.
pub mod Loaded
use Prim.Native.String.{◌++◌ as str_append}
use j_harness.Base.{
  String, Bool, true, false, not, ◌||◌, Option, none, some, List, [], ◌∷◌, Result, ok, err, ◌>>=◌,
  is_empty, if◌then◌else◌, ◌==◌, lookup, insert, trim_suffix,
}
use j_harness.Json.{Fields, GoLib}
use j_harness.Model.{AgentBlueprint, Pipeline}
use j_harness.Engine.Defs.{Registry}
use j_harness.Schema.Defs.{Error as SchemaError}
use j_harness.Schema.Compile.{compile}
use j_harness.Registry.Paths.{PathError, safe_rel}
use j_harness.Registry.Blueprint.{validate_blueprint}
use j_harness.Registry.{
  Error, Check, ◌>>◌, bad_prompt_path, bad_schema_path, dir_unreadable, open_failed, decode_failed,
  trailing_data, prompt_unreadable, schema_unreadable, bad_schema, in_file, validate_pipeline,
}

pub record Entry : Type 0 where
  pub name : String
  pub is_dir : Bool

-- What `os.ReadDir` gives.
pub data Listing : Type 0 where
  missing failed : Listing
  listed : List Entry → Listing

-- The directory of a registry, and the decoder with `DisallowUnknownFields`: a first value with the text
-- behind it, and whether another value can be decoded from that text.
pub record Files (F : Type 0) : Type 0 where
  pub read_dir : String → Listing
  pub read_file : String → Option String
  pub decode_blueprint : String → Option (AgentBlueprint F × String)
  pub decode_pipeline : String → Option (Pipeline F × String)
  pub decode_any : String → Bool

abbrev pub blueprints_dir : String
blueprints_dir = "blueprints"

abbrev pub pipelines_dir : String
pipelines_dir = "pipelines"

-- `filepath.Join(dir, name)` for the name of an entry
abbrev pub in_dir : String → String → String
in_dir dir name = str_append dir (str_append "/" name)

-- `strings.HasSuffix(name, ".json")`
unfoldable pub has_suffix : String → String → Bool
has_suffix String.[] t = String.[] == t
has_suffix (String.◌∷◌ c s) t = String.◌∷◌ c s == t || has_suffix s t

unfoldable pub is_skipped : Entry → Bool
unfolding has_suffix
is_skipped e = e.is_dir || not (has_suffix e.name ".json")

abbrev pub or_error : {A : Type 0} → Error → Option A → Result Error A
or_error e none = err e
or_error e (some a) = ok a

module _ {A : Type 0} where
  -- `fmt.Errorf("… %s: %w", name, err)`
  abbrev pub within : String → Result Error A → Result Error A
  within name (ok a) = ok a
  within name (err e) = err (in_file name e)

  abbrev pub of_path : (PathError → Error) → Result PathError A → Result Error A
  of_path f (ok q) = ok q
  of_path f (err e) = err (f e)

  abbrev pub of_schema : Result SchemaError A → Result Error A
  of_schema (ok s) = ok s
  of_schema (err e) = err (bad_schema e)

  abbrev pub no_more : (String → Bool) → String → A × String → Result Error A
  no_more more path (a, rest) = if more rest then err (trailing_data path) else ok a

  -- `decodeStrict`
  unfoldable pub decode_strict :
      (String → Option String)
      → (String → Bool)
      → (String → Option (A × String))
      → String
      → Result Error A
  decode_strict read more decode path = do
    text ← or_error (open_failed path) (read path)
    first ← or_error (decode_failed path) (decode text)
    no_more more path first

module _ {F : Type 0} where
  unfoldable pub known_in : Registry F → String → Bool
  unfolding lookup
  known_in r id = elim (lookup id r.blueprints) [ none ↦ false | some bp ↦ true ]

  -- The loop over the entries of a directory
  unfoldable pub load_entries :
      (String → Registry F → Result Error (Registry F))
      → List Entry
      → Registry F
      → Result Error (Registry F)
  unfolding is_skipped
  load_entries load [] r = ok r
  load_entries load (e ∷ es) r =
      (if is_skipped e then ok r else load e.name r) >>= load_entries load es

  -- A directory that does not exist is empty.
  unfoldable pub load_listing :
      (String → Registry F → Result Error (Registry F))
      → String
      → Listing
      → Registry F
      → Result Error (Registry F)
  unfolding load_entries
  load_listing load dir missing r = ok r
  load_listing load dir failed r = err (dir_unreadable dir)
  load_listing load dir (listed es) r = load_entries load es r

  abbrev pub empty : Registry F
  empty = record { blueprints = []; prompts = []; pipelines = []; schemas = [] }

module _ {F : Type 0} (lib : GoLib F) (files : Files F) where
  open files use {read_dir, read_file, decode_blueprint, decode_pipeline, decode_any}

  unfoldable pub compile_output_schema : AgentBlueprint F → Result Error (Fields F)
  unfolding safe_rel compile
  compile_output_schema bp = do
    rel ← of_path bad_schema_path (safe_rel bp.output_schema)
    raw ← or_error (schema_unreadable rel) (read_file rel)
    of_schema (compile lib raw)

  unfoldable pub put_schema : AgentBlueprint F → Registry F → Result Error (Registry F)
  unfolding compile_output_schema insert
  put_schema bp r =
      if is_empty bp.output_schema
      then ok r
      else (do s ← compile_output_schema bp; ok (record r { schemas = insert bp.id s r.schemas }))

  -- The body of the loop of loadBlueprints, behind the decoding.
  unfoldable pub put_blueprint :
      String → String → AgentBlueprint F → Registry F → Result Error (Registry F)
  unfolding validate_blueprint safe_rel insert put_schema
  put_blueprint file id bp r = do
    ok_ ← within file (validate_blueprint id bp)
    rel ← within file (of_path bad_prompt_path (safe_rel bp.prompt_path))
    prompt ← within file (or_error (prompt_unreadable rel) (read_file rel))
    r' ← within file (put_schema bp (record r { prompts = insert bp.id prompt r.prompts }))
    ok (record r' { blueprints = insert bp.id bp r'.blueprints })

  unfoldable pub load_blueprint : String → Registry F → Result Error (Registry F)
  unfolding decode_strict put_blueprint trim_suffix
  load_blueprint file r = do
    bp ← decode_strict read_file decode_any decode_blueprint (in_dir blueprints_dir file)
    put_blueprint file (trim_suffix file ".json") bp r

  unfoldable pub load_pipeline : String → Registry F → Result Error (Registry F)
  unfolding decode_strict validate_pipeline trim_suffix insert known_in
  load_pipeline file r = do
    p ← decode_strict read_file decode_any decode_pipeline (in_dir pipelines_dir file)
    ok_ ← within file (validate_pipeline (known_in r) (trim_suffix file ".json") p)
    ok (record r { pipelines = insert p.pipeline_id p r.pipelines })

  -- `Load`
  unfoldable pub load : Result Error (Registry F)
  unfolding load_listing load_blueprint load_pipeline
  load = do
    r ← load_listing load_blueprint blueprints_dir (read_dir blueprints_dir) empty
    load_listing load_pipeline pipelines_dir (read_dir pipelines_dir) r
