-- ===== src/Samples.antt =====
-- Concrete data for the tests: a JSON library over ℕ, a backend that answers with its input, and
-- small pipelines.
pub mod Graphs
pub mod Runs
pub mod Parts
pub mod Jobs
pub mod Agents
pub mod Calls
pub mod Loads
pub mod Limits
pub mod Sums
pub mod Files
pub mod Requests
pub mod Wires
pub mod Servers
use j_harness.Store.Sqlite.{Db}
use j_harness.Base.{
  ℕ, suc, String, true, false, Option, none, some, List, [], ◌∷◌, Map, Result, ok, err,
  if◌then◌else◌, ◌==◌,
}
use j_harness.Json.{Json, null, obj, end, field, num, GoLib}
use j_harness.Model.{
  AgentBlueprint, Condition, Route, Step, Pipeline, Job, JobKind, agent, JobStatus, unset,
}
use j_harness.Llm.{Request, Response, Context, CallError, Client}
use j_harness.Schema.Defs.{Error as SchemaError}
use j_harness.Engine.Defs.{Engine, Registry, State}

-- A library that knows two documents.
abbrev pub lib : GoLib ℕ
lib = record {
  unmarshal = λ s. if s == "{}" then some (obj end) else if s == "5" then some (num 5) else none;
  marshal = λ v. "{}";
  is_integral = λ n. true;
  format_int = λ n. "5";
  format_float = λ n. "5";
  float_lt = λ a b. false;
  of_length = λ n. n;
  compile = λ s. none;
  quote = λ s. s;
  atoi = λ s. none;
}

-- The world is a clock that each call moves on.
abbrev pub clock : ℕ → ℕ
clock w = w

abbrev pub render : SchemaError → String
render e = "mismatch"

abbrev pub echo : Client ℕ ℕ
echo ctx req w = (
  ok (record {
    content = req.user_input;
    tool_calls = [];
    prompt_tokens = 1;
    output_tokens = 1;
    total_tokens = 2;
  }),
  suc w,
)

abbrev pub writer : AgentBlueprint ℕ
writer = record {
  id = "writer";
  description = "";
  prompt_path = "writer.md";
  model = "";
  base_url = "";
  temperature = none;
  max_tokens = 0;
  timeout_seconds = 0;
  output_format = "text";
  output_schema = "";
  tools = [];
  concurrency = 0;
  rate_limit = "";
  version = 1;
}

abbrev pub engine : Engine ℕ ℕ
engine = record {
  registry = record {
    blueprints = ("writer", writer) ∷ [];
    prompts = ("writer", "Write.") ∷ [];
    pipelines = [];
    schemas = [];
  };
  client = echo;
  max_parallel = 4;
  tools_enabled = none;
}

abbrev pub world : State ℕ
world = record { world = 0; metrics = [] }

abbrev pub step : String → String → List String → Step ℕ
step id input needs = record {
  id = id;
  agent_id = "writer";
  input = input;
  output = id;
  router = false;
  routes = [];
  needs = needs;
}

-- A router that would take `first` if its input had a certain field, and takes `second`.
abbrev pub has_field : Condition ℕ
has_field = record {
  path = "field";
  equals = null;
  not_equals = null;
  among = [];
  matches = "";
  exists = true;
}

abbrev pub router : String → String → String → Step ℕ
router id first second = record (step id "{{inputs.doc}}" []) {
  router = true;
  routes =
      record { when = some has_field; default = false; goto = first }
      ∷ record { when = none; default = true; goto = second }
      ∷ [];
}

abbrev pub pipeline_of : List (Step ℕ) → Pipeline ℕ
pipeline_of steps = record {
  pipeline_id = "p";
  version = 1;
  inputs = [];
  steps = steps;
  output = "";
}

-- `b` reads the output of `a`.
abbrev pub chain : Pipeline ℕ
chain = pipeline_of (step "a" "draft" [] ∷ step "b" "{{steps.a.output}}" [] ∷ [])

abbrev pub chain_graph : Map (List String)
chain_graph = ("a", []) ∷ ("b", "a" ∷ []) ∷ []

-- Two steps that wait for each other.
abbrev pub loop_pipeline : Pipeline ℕ
loop_pipeline = pipeline_of (step "a" "" ("b" ∷ []) ∷ step "b" "" ("a" ∷ []) ∷ [])

abbrev pub fan_out : Pipeline ℕ
fan_out = pipeline_of (step "a" "one" [] ∷ step "b" "two" [] ∷ step "c" "three" [] ∷ [])

-- Each of the first three steps needs the next one, and the router passes `b` over.
abbrev pub backwards : Pipeline ℕ
backwards =
    record (pipeline_of (
      step "e" "" ("d" ∷ [])
      ∷ step "d" "" ("c" ∷ [])
      ∷ step "c" "" ("b" ∷ [])
      ∷ step "b" "" []
      ∷ step "x" "" []
      ∷ router "r" "b" "x"
      ∷ [])) { inputs = "doc" ∷ [] }

abbrev pub job : Job
job = record {
  session_id = "s1";
  kind = agent;
  target_id = "writer";
  status = unset;
  input = "{}";
  result = "";
  error = "";
}

abbrev pub empty_db : Db
empty_db = record { jobs = []; step_results = [] }
