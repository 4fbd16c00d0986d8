-- ===== src/Engine/Agent.antt =====
-- internal/engine/engine.go: one run of an agent, with the check of its output and the one
-- corrective turn.
pub mod Conforms
use Prim.Native.String.{◌++◌ as str_append}
use j_harness.Base.{
  ℕ, ◌+◌, ◌-◌, String, Bool, true, false, ◌&&◌, Option, none, some, List, [], ◌∷◌, lookup, Result,
  ok, err, if◌then◌else◌, trim_space, has_prefix, trim_prefix, trim_suffix, ◌==◌,
}
use j_harness.Json.{Json, obj, Fields, GoLib}
use j_harness.Model.{AgentBlueprint, output_json}
use j_harness.Schema.Defs.{Error as SchemaError}
use j_harness.Schema.Validate.{validate_text}
use j_harness.Metrics.{Metrics, schema_failures, inc}
use j_harness.Llm.{system, user, assistant, Tool, Request, Response, Context, CallError}
use j_harness.Engine.Defs.{
  Engine, State, Error, unknown_agent, missing_prompt, call_failed, invalid_json, schema_mismatch,
  AgentResult,
}
use j_harness.Engine.Messages.{text_message, build_tool_messages}
use j_harness.Engine.Tools.{Reply, resolve_tools, complete_with_tools}

unfoldable pub strip_code_fence : String → String
unfolding trim_space has_prefix trim_prefix trim_suffix
strip_code_fence s =
    let t = trim_space s in
    if has_prefix t "```"
    then trim_space (
        trim_suffix
          (trim_space (trim_prefix (trim_prefix (trim_prefix t "```json") "```JSON") "```")) "```")
    else t

-- The outcome of a run: what Go returns beside the error, and none or the error.
abbrev pub Outcome : Type 0 → Type 0
Outcome W = (AgentResult × Option Error) × State W

abbrev pub failed_result : ℕ → AgentResult
failed_result duration = record { agent_id = ""; output = ""; tokens = 0; duration_ms = duration }

module _ {F W : Type 0} (lib : GoLib F) (clock : W → ℕ) (render : SchemaError → String) where
  abbrev is_json_object : Option (Json F) → Bool
  is_json_object (some (obj m)) = true
  is_json_object _ = false

  -- `validateJSONObject(content) == nil`; the text null decodes to a nil map, which is refused.
  unfoldable pub valid_json_object : String → Bool
  unfolding strip_code_fence
  valid_json_object content = is_json_object (lib.unmarshal (strip_code_fence content))

  abbrev base_request : AgentBlueprint F → String → String → List (Tool F) → Request F
  base_request bp prompt input tools = record {
    model = bp.model;
    base_url = bp.base_url;
    system_prompt = prompt;
    user_input = input;
    messages = [];
    tools = tools;
    temperature = bp.temperature;
    max_tokens = bp.max_tokens;
    json_output = bp.output_format == output_json && elim tools [ [] ↦ true | t ∷ ts ↦ false ];
  }

  abbrev plain_reply : Result CallError Response × W → Reply W
  plain_reply (ok resp, w) = ((resp, none), w)
  plain_reply (err e, w) = (
    (
      record {
        content = "";
        tool_calls = [];
        prompt_tokens = 0;
        output_tokens = 0;
        total_tokens = 0;
      },
      some (call_failed e),
    ),
    w,
  )

  -- With tools the bounded loop runs, without them one call.
  ask : Engine F W → Context → AgentBlueprint F → Request F → W → Reply W
  unfolding complete_with_tools build_tool_messages
  ask e ctx bp req w = elim req.tools [
    | [] ↦ plain_reply (e.client ctx req w)
    | t ∷ ts ↦
        complete_with_tools lib e ctx
          (record req { messages = build_tool_messages req.system_prompt req.user_input }) bp.tools
          w
  ]

  abbrev repair_text : SchemaError → String
  repair_text verr =
      str_append "Your previous reply did not satisfy the required JSON schema. Problem: " (
        str_append (render verr)
          ". Reply with only a corrected JSON object that satisfies the schema.")

  abbrev repair_request : Request F → String → SchemaError → Request F
  repair_request base content verr = record base {
    messages =
        text_message system base.system_prompt
        ∷ text_message user base.user_input
        ∷ text_message assistant content
        ∷ text_message user (repair_text verr)
        ∷ [];
    tools = [];
    json_output = true;
  }

  abbrev checked_repair : Fields F → Response → Option (String × ℕ)
  checked_repair schema resp =
      let out = trim_space resp.content in
      if valid_json_object (strip_code_fence out)
      then elim (validate_text lib schema (strip_code_fence out)) [
        | none ↦ some (out, resp.total_tokens)
        | some e ↦ none
      ]
      else none

  abbrev on_repair : Fields F → Result CallError Response × W → Option (String × ℕ) × W
  on_repair schema (ok resp, w) = (checked_repair schema resp, w)
  on_repair schema (err e, w) = (none, w)

  -- `repairSchema`: the corrected content and its tokens, or none for an error, which the caller
  -- does not look at.
  unfoldable pub repair_schema :
      Engine F W
      → Context
      → Request F
      → Fields F
      → String
      → SchemaError
      → W
      → Option (String × ℕ) × W
  unfolding valid_json_object strip_code_fence trim_space validate_text
  repair_schema e ctx base schema content verr w =
      on_repair schema (e.client ctx (repair_request base content verr) w)

  -- `time.Since(start)` in milliseconds
  abbrev elapsed : State W → State W → ℕ
  elapsed start now = clock now.world - clock start.world

  abbrev succeed : State W → String → String → ℕ → State W → Outcome W
  succeed start agent content tokens s = (
    (
      record { agent_id = agent; output = content; tokens = tokens; duration_ms = elapsed start s },
      none,
    ),
    s,
  )

  abbrev fail : State W → Error → State W → Outcome W
  fail start e s = ((failed_result (elapsed start s), some e), s)

  abbrev on_repaired :
      State W → String → String → ℕ → SchemaError → Metrics → Option (String × ℕ) × W → Outcome W
  on_repaired start agent content tokens verr m (none, w) =
      fail start (schema_mismatch agent verr)
        (record { world = w; metrics = inc schema_failures m })
  on_repaired start agent content tokens verr m (some (repaired, extra), w) =
      succeed start agent repaired (tokens + extra) (record { world = w; metrics = m })

  -- The check against the blueprint's output schema, if it has one.
  check_schema :
      Engine F W → Context → Request F → State W → String → String → ℕ → State W → Outcome W
  unfolding lookup repair_schema validate_text strip_code_fence inc
  check_schema e ctx req start agent content tokens s = elim (lookup agent e.registry.schemas) [
    | none ↦ succeed start agent content tokens s
    | some schema ↦ elim (validate_text lib schema (strip_code_fence content)) [
      | none ↦ succeed start agent content tokens s
      | some verr ↦
          on_repaired start agent content tokens verr s.metrics
            (repair_schema e ctx req schema content verr s.world)
    ]
  ]

  -- What follows the reply: trimming, and for the format "json" the two checks.
  check_output :
      Engine F W
      → Context
      → AgentBlueprint F
      → Request F
      → State W
      → String
      → Response
      → State W
      → Outcome W
  unfolding check_schema valid_json_object trim_space
  check_output e ctx bp req start agent resp s =
      let content = trim_space resp.content in
      if bp.output_format == output_json
      then (if valid_json_object content
          then check_schema e ctx req start agent content resp.total_tokens s
          else fail start (invalid_json agent) s)
      else succeed start agent content resp.total_tokens s

  abbrev on_answer :
      Engine F W
      → Context
      → AgentBlueprint F
      → Request F
      → State W
      → String
      → Metrics
      → Reply W
      → Outcome W
  on_answer e ctx bp req start agent m ((resp, none), w) =
      check_output e ctx bp req start agent resp (record { world = w; metrics = m })
  on_answer e ctx bp req start agent m ((resp, some x), w) =
      fail start x (record { world = w; metrics = m })

  abbrev call_context : AgentBlueprint F → Context
  call_context bp = record {
    concurrency = bp.concurrency;
    rate = bp.rate_limit;
    timeout_seconds = bp.timeout_seconds;
  }

  run_prepared :
      Engine F W
      → AgentBlueprint F
      → String
      → String
      → Result Error (List (Tool F))
      → String
      → State W
      → Outcome W
  unfolding ask check_output
  run_prepared e bp prompt agent (err x) input s = fail s x s
  run_prepared e bp prompt agent (ok tools) input s =
      let req = base_request bp prompt input tools in
      on_answer e (call_context bp) bp req s agent s.metrics
        (ask e (call_context bp) bp req s.world)

  unfoldable pub run_agent : Engine F W → String → String → State W → Outcome W
  unfolding lookup resolve_tools run_prepared
  run_agent e agent input s = elim (lookup agent e.registry.blueprints) [
    | none ↦ ((failed_result 0, some (unknown_agent agent)), s)
    | some bp ↦ elim (lookup agent e.registry.prompts) [
      | none ↦ ((failed_result 0, some (missing_prompt agent)), s)
      | some prompt ↦ run_prepared e bp prompt agent (resolve_tools e bp) input s
    ]
  ]
