-- ===== src/Engine/Defs.antt =====
-- internal/engine/engine.go: the state of an engine, its errors, and the world that it acts on.
-- `F` stands for float64, `W` for the state of everything outside of the program.
use j_harness.Base.{ℕ, String, Option, none, some, Map, Result}
use j_harness.Json.{Json, Fields}
use j_harness.Model.{AgentBlueprint, Pipeline}
use j_harness.Llm.{Client, CallError}
use j_harness.Metrics.{Metrics}
use j_harness.Pipeline.Error.{Error as PipelineError}
use j_harness.Schema.Defs.{Error as SchemaError}

-- A tool of internal/tools: its run may read the world (the clock).
pub record Func (F W : Type 0) : Type 0 where
  pub name : String
  pub description : String
  pub parameters : Json F
  pub run : W → String → Result String String

abbrev pub ToolRegistry : Type 0 → Type 0 → Type 0
ToolRegistry F W = Map (Func F W)

-- The snapshot of internal/registry that the engine reads.
pub record Registry (F : Type 0) : Type 0 where
  pub blueprints : Map (AgentBlueprint F)
  pub prompts : Map String
  pub pipelines : Map (Pipeline F)
  pub schemas : Map (Fields F)

pub record Engine (F W : Type 0) : Type 0 where
  pub registry : Registry F
  pub client : Client F W
  pub max_parallel : ℕ
  pub tools_enabled : Option (ToolRegistry F W)

-- What a run changes: the world and the counters.
pub record State (W : Type 0) : Type 0 where
  pub world : W
  pub metrics : Metrics

pub data Error : Type 0 where
  registry_required client_required : Error
  unknown_agent missing_prompt : (agent : String) → Error
  tools_disabled : (agent : String) → Error
  unknown_tool : (agent tool : String) → Error
  tool_rounds_exceeded : Error
  call_failed : CallError → Error
  invalid_json : (agent : String) → Error
  schema_mismatch : (agent : String) → SchemaError → Error
  unknown_pipeline : String → Error
  bad_pipeline : String → PipelineError → Error
  missing_input : (pipeline input : String) → Error
  resolve_failed : PipelineError → Error
  route_failed : PipelineError → Error
  goto_not_a_step : String → Error
  step_failed : (pipeline step : String) → Error → Error
  stalled : (pipeline : String) → Error
  output_failed : (pipeline : String) → PipelineError → Error
  no_agent_output : (pipeline : String) → Error
  unsupported_kind : String → Error
  -- the empty text, of an outcome without an error
  no_message : Error

-- `New`: both arguments are required. The default of max_parallel is the number of processors.
unfoldable pub new :
    {F W : Type 0}
    → (procs : ℕ) → Option (Registry F)
    → Option (Client F W)
    → Result Error (Engine F W)
new procs none client = Result.err registry_required
new procs (some reg) none = Result.err client_required
new procs (some reg) (some client) =
    Result.ok
      (record { registry = reg; client = client; max_parallel = procs; tools_enabled = none })

unfoldable pub set_tools : {F W : Type 0} → Option (ToolRegistry F W) → Engine F W → Engine F W
set_tools reg e = record e { tools_enabled = reg }

-- `SetRegistry`: a nil snapshot is ignored.
unfoldable pub set_registry : {F W : Type 0} → Option (Registry F) → Engine F W → Engine F W
set_registry none e = e
set_registry (some reg) e = record e { registry = reg }

pub record AgentResult : Type 0 where
  pub agent_id : String
  pub output : String
  pub tokens : ℕ
  pub duration_ms : ℕ
