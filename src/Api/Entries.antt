-- ===== src/Api/Entries.antt =====
-- internal/api/registry.go: the handlers that read and write the registry, and `mutate`.
use j_harness.Base.{
  String, Bool, true, false, ◌||◌, Option, none, some, List, [], map, lookup, get_or, keys, length,
  Result, ok, err, if◌then◌else◌, ◌==◌, is_empty, trim_prefix,
}
use j_harness.Json.{GoLib}
use j_harness.Model.{AgentBlueprint, Pipeline}
use j_harness.Engine.Defs.{Registry, set_registry}
use j_harness.Registry.{Error}
use j_harness.Registry.Load.{load}
use j_harness.Registry.Write.{Disk, Written, write_blueprint, write_pipeline}
use j_harness.Api.Http.{
  Request, Response, Decoded, respond, fail, done, unknown_route, method_not_allowed, unknown,
  conflict, id_mismatch, bad_body, invalid_entry, reload_failed, AgentSummary, PipelineSummary,
  agents, pipelines, agent_detail, pipeline_detail, BodyError, decode_single, split_two,
}
use j_harness.Api.Server.{Api, Served}

-- The library and the files, the decoders of the two kinds of bodies, and `sort.Strings`.
pub record RegistryEnv (F D : Type 0) : Type 0 where
  pub lib : GoLib F
  pub disk : Disk F D
  pub ends : String → Bool
  pub decode_agent : String → Decoded (AgentBlueprint F × String)
  pub decode_pipeline : String → Decoded (Pipeline F)
  pub sorted : List String → List String

-- `exists` of a lookup
abbrev pub is_some : {A : Type 0} → Option A → Bool
is_some none = false
is_some (some a) = true

abbrev pub blank_agent : AgentSummary
blank_agent = record { id = ""; description = ""; model = ""; output_format = "" }

module _ {F : Type 0} where
  abbrev pub summary_of : Option (AgentBlueprint F) → AgentSummary
  summary_of none = blank_agent
  summary_of (some bp) = record {
    id = bp.id;
    description = bp.description;
    model = bp.model;
    output_format = bp.output_format;
  }

  abbrev pub pipeline_summary_of : Option (Pipeline F) → PipelineSummary
  pipeline_summary_of none = record { pipeline_id = ""; steps = 0; inputs = [] }
  pipeline_summary_of (some p) = record {
    pipeline_id = p.pipeline_id;
    steps = length p.steps;
    inputs = p.inputs;
  }

module _ {F D : Type 0} (entries : RegistryEnv F D) where
  open entries use {lib, disk, ends, decode_agent, decode_pipeline, sorted}

  unfoldable pub swap : {S W : Type 0} → Registry F → Api F S W D → Api F S W D
  unfolding set_registry
  swap reloaded a = record a { registry = reloaded; engine = set_registry (some reloaded) a.engine }

  unfoldable pub after_load :
      {S W : Type 0} → Result Error (Registry F) → Api F S W D → Served F S W D
  unfolding swap
  after_load (err e) a = (fail 500 (reload_failed e), a)
  after_load (ok reloaded) a = (respond 200 done, swap reloaded a)

  unfoldable pub after_write : {S W : Type 0} → Written D → Api F S W D → Served F S W D
  unfolding load after_load
  after_write (some e, w) a = (fail 400 (invalid_entry e), record a { disk = w })
  after_write (none, w) a = after_load (load lib (disk.files w)) (record a { disk = w })

  -- `mutate`: the write gets the snapshot that is in use under the lock.
  unfoldable pub mutate :
      {S W : Type 0} → (Registry F → D → Written D) → Api F S W D → Served F S W D
  unfolding after_write
  mutate write a = after_write (write a.registry a.disk) a

  -- A POST of an id that is there is a conflict, and a PUT of one that is not, unknown.
  abbrev pub write_allowed : (method id : String) → (exists : Bool) → Option (Response F)
  write_allowed method id true = if method == "POST" then some (fail 409 (conflict id)) else none
  write_allowed method id false = if method == "PUT" then some (fail 404 (unknown id)) else none

  unfoldable pub write_agent :
      {S W : Type 0}
      → String
      → Result BodyError (AgentBlueprint F × String)
      → Api F S W D
      → Served F S W D
  unfolding mutate write_blueprint
  write_agent id (err e) a = (fail 400 (bad_body e), a)
  write_agent id (ok (bp, prompt)) a =
      if bp.id == id
      then mutate (λ reg w. write_blueprint lib disk bp prompt w) a
      else (fail 400 (id_mismatch id), a)

  unfoldable pub write_pipeline_entry :
      {S W : Type 0} → String → Result BodyError (Pipeline F) → Api F S W D → Served F S W D
  unfolding mutate write_pipeline
  write_pipeline_entry id (err e) a = (fail 400 (bad_body e), a)
  write_pipeline_entry id (ok p) a =
      if p.pipeline_id == id
      then mutate (λ reg w. write_pipeline lib disk reg p w) a
      else (fail 400 (id_mismatch id), a)

  abbrev pub checked :
      {S W : Type 0} → Option (Response F) → Served F S W D → Api F S W D → Served F S W D
  checked none write a = write
  checked (some refused) write a = (refused, a)

  unfoldable pub read_agent : String → Registry F → Option (AgentBlueprint F) → Response F
  unfolding lookup
  read_agent id reg none = fail 404 (unknown id)
  read_agent id reg (some bp) = respond 200 (agent_detail bp (get_or "" (lookup id reg.prompts)))

  abbrev pub read_pipeline : String → Option (Pipeline F) → Response F
  read_pipeline id none = fail 404 (unknown id)
  read_pipeline id (some p) = respond 200 (pipeline_detail p)

  abbrev pub by_method :
      {S W : Type 0} → String → Response F → Served F S W D → Api F S W D → Served F S W D
  by_method method read write a =
      if method == "GET"
      then (read, a)
      else if method == "POST" || method == "PUT"
      then write
      else (fail 405 (method_not_allowed "GET, POST, PUT"), a)

  -- The snapshot `reg` was read before the lock of `mutate` is taken.
  unfoldable pub handle_registry_agent :
      {S W : Type 0} → Registry F → Request → String → Api F S W D → Served F S W D
  unfolding lookup read_agent write_agent decode_single
  handle_registry_agent reg r id a =
      by_method r.method (read_agent id reg (lookup id reg.blueprints))
        (checked (write_allowed r.method id (is_some (lookup id reg.blueprints)))
          (write_agent id (decode_single ends decode_agent r.body) a) a)
        a

  unfoldable pub handle_registry_pipeline :
      {S W : Type 0} → Registry F → Request → String → Api F S W D → Served F S W D
  unfolding lookup write_pipeline_entry decode_single
  handle_registry_pipeline reg r id a =
      by_method r.method (read_pipeline id (lookup id reg.pipelines))
        (checked (write_allowed r.method id (is_some (lookup id reg.pipelines)))
          (write_pipeline_entry id (decode_single ends decode_pipeline r.body) a) a)
        a

  -- `BlueprintIDs` and `PipelineIDs` sort the keys.
  unfoldable pub handle_collection : Registry F → Request → String → Response F
  unfolding lookup
  handle_collection reg r kind =
      if r.method == "GET"
      then (if kind == "agents"
          then respond 200 (
              agents
                (map (λ id. summary_of (lookup id reg.blueprints)) (sorted (keys reg.blueprints))))
          else if kind == "pipelines"
          then respond 200 (
              pipelines (
                map (λ id. pipeline_summary_of (lookup id reg.pipelines))
                  (sorted (keys reg.pipelines))))
          else fail 404 unknown_route)
      else fail 405 (method_not_allowed "GET")

  unfoldable pub entry_route :
      {S W : Type 0}
      → Registry F
      → Request
      → String
      → Option (String × String)
      → Api F S W D
      → Served F S W D
  unfolding handle_collection handle_registry_agent handle_registry_pipeline
  entry_route reg r rest none a = (handle_collection reg r rest, a)
  entry_route reg r rest (some (kind, id)) a =
      if is_empty id
      then (fail 404 unknown_route, a)
      else if kind == "agents"
      then handle_registry_agent reg r id a
      else if kind == "pipelines"
      then handle_registry_pipeline reg r id a
      else (fail 404 unknown_route, a)

  unfoldable pub handle_registry :
      {S W : Type 0} → Registry F → Request → Api F S W D → Served F S W D
  unfolding entry_route split_two trim_prefix
  handle_registry reg r a =
      let rest = trim_prefix r.path "/v1/registry/" in entry_route reg r rest (split_two rest) a
