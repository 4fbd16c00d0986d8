-- ===== src/Samples/Agents.antt =====
-- Tests of one agent's run: the output schema and the tool loop.
use j_harness.Base.{
  ℕ, zero, suc, ◌+◌, ◌≤◌, String, true, Option, none, some, List, [], ◌∷◌, ◌≡◌, refl, ok, lookup,
  elem, arith, subst, eq_iff, false, ◌-◌, ◌%◌, ◌^◌,
}
use j_harness.Json.{Fields, end, field, str, obj}
use j_harness.Model.{AgentBlueprint}
use j_harness.Llm.{Message, ToolCall, Request, Response, Context, Client}
use j_harness.Engine.Defs.{Engine, Func, ToolRegistry}
use j_harness.Engine.Tools.{get_tool, complete_with_tools}
use j_harness.Engine.Tools.Rounds.{IsMeter, complete_with_tools-metered}
use j_harness.Engine.Tools.Allowlist.{complete_with_tools-allowlist}
use j_harness.Engine.Agent.{run_agent}
use j_harness.Engine.Agent.Conforms.{IsChecked, run_agent-IsChecked}
use j_harness.Samples.{lib, clock, render, writer, engine, world}

abbrev pub object_schema : Fields ℕ
object_schema = field "type" (str "object") end

abbrev coder : AgentBlueprint ℕ
coder = record writer { id = "coder"; output_format = "json" }

abbrev json_engine : Engine ℕ ℕ
json_engine = record engine {
  registry = record engine.registry {
    blueprints = ("coder", coder) ∷ [];
    prompts = ("coder", "Answer.") ∷ [];
    schemas = ("coder", object_schema) ∷ [];
  };
}

-- An object passes the schema; a number is not an object, and is refused before it.
run_agent-coder :
    ((run_agent lib clock render json_engine "coder" " {} " world).0.0.output ≡ "{}")
    × ((run_agent lib clock render json_engine "coder" " {} " world).0.1 ≡ none)
unfolding run_agent
run_agent-coder = (refl, refl)

coder-found : lookup "coder" json_engine.registry.blueprints ≡ some coder
unfolding lookup
coder-found = refl

coder-schema : lookup "coder" json_engine.registry.schemas ≡ some object_schema
unfolding lookup
coder-schema = refl

run_agent-IsChecked_example :
    IsChecked lib object_schema (run_agent lib clock render json_engine "coder" " {} " world)
run_agent-IsChecked_example =
    run_agent-IsChecked lib clock render json_engine "coder" object_schema coder " {} " world
      coder-found refl coder-schema

abbrev clock_tool : Func ℕ ℕ
clock_tool = record {
  name = "now";
  description = "";
  parameters = obj end;
  run = λ w args. ok "noon";
}

abbrev call : String → ToolCall
call name = record { id = name; name = name; arguments = "" }

abbrev pub reply : List ToolCall → String → Response
reply calls text = record {
  content = text;
  tool_calls = calls;
  prompt_tokens = 1;
  output_tokens = 2;
  total_tokens = 3;
}

-- A model that asks for two tools, and then answers with the results it was given.
abbrev last_texts : List Message → String
last_texts [] = ""
last_texts (m ∷ []) = m.content
last_texts (m ∷ ms) = last_texts ms

abbrev asking : ℕ → Request ℕ → Response
asking zero req = reply (call "shell" ∷ call "now" ∷ []) ""
asking (suc n) req = reply [] (last_texts req.messages)

abbrev asker : Client ℕ ℕ
asker ctx req w = (ok (asking w req), suc w)

abbrev tool_engine : Engine ℕ ℕ
tool_engine = record engine { client = asker; tools_enabled = some (("now", clock_tool) ∷ []) }

abbrev pub context : Context
context = record { concurrency = 0; rate = ""; timeout_seconds = 0 }

abbrev pub request : Request ℕ
request = record {
  model = "";
  base_url = "";
  system_prompt = "";
  user_input = "";
  messages = [];
  tools = [];
  temperature = none;
  max_tokens = 0;
  json_output = false;
}

complete_with_tools-asker :
    ((complete_with_tools lib tool_engine context request ("now" ∷ []) 0).0.0.content ≡ "noon")
    × ((complete_with_tools lib tool_engine context request ("now" ∷ []) 0).0.1 ≡ none)
    × ((complete_with_tools lib tool_engine context request ("now" ∷ []) 0).0.0.total_tokens ≡ 6)
unfolding complete_with_tools
complete_with_tools-asker = (refl, refl, refl)

abbrev calls : ℕ → ℕ
calls w = w

abbrev spent : ℕ → ℕ
spent w = w + w + w

asking-total : (w : ℕ) (req : Request ℕ) → (asking w req).total_tokens ≡ 3
asking-total zero req = refl
asking-total (suc w) req = refl

asker-IsMeter : IsMeter lib tool_engine context ("now" ∷ []) calls spent
asker-IsMeter req w = (refl, omega (arith, asking-total w req))

complete_with_tools-metered_example :
    let answer = complete_with_tools lib tool_engine context request ("now" ∷ []) 0 in
    (suc (calls 0) ≤ calls answer.1)
    × (calls answer.1 ≤ calls 0 + 5)
    × (spent 0 ≤ spent answer.1)
    × (answer.0.0.total_tokens ≡ (spent answer.1 - spent 0) % 2 ^ 64)
complete_with_tools-metered_example =
    complete_with_tools-metered lib tool_engine context ("now" ∷ []) calls spent request 0
      asker-IsMeter

-- A registry with one tool more, which the allowlist does not name.
abbrev more_tools : Option (ToolRegistry ℕ ℕ)
more_tools = some (("shell", clock_tool) ∷ ("now", clock_tool) ∷ [])

more_tools-agree :
    (name : String)
    → elem name ("now" ∷ []) ≡ true
    → get_tool tool_engine.tools_enabled name ≡ get_tool more_tools name
unfolding elem lookup
more_tools-agree name h =
    let e : "now" ≡ name = ground (arith, eq_iff "now" name) in
    subst (λ t. get_tool tool_engine.tools_enabled t ≡ get_tool more_tools t) e refl

complete_with_tools-allowlist_example :
    complete_with_tools lib tool_engine context request ("now" ∷ []) 0
    ≡ complete_with_tools lib
        (record tool_engine { tools_enabled = more_tools })
        context
        request
        ("now" ∷ [])
        0
complete_with_tools-allowlist_example =
    complete_with_tools-allowlist lib tool_engine more_tools ("now" ∷ []) more_tools-agree context
      request 0
