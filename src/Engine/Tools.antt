-- ===== src/Engine/Tools.antt =====
-- internal/engine/tools.go: the allowlist of a run and the bounded loop of tool calls.

pub mod Rounds
pub mod Allowlist
use j_harness.Base.{
  ℕ, zero, suc, String, Option, none, some, List, [], ◌∷◌, ◌++◌, lookup, elem, Result, ok, err,
  ◌>>=◌, if◌then◌else◌, trim_space,
}
use j_harness.Model.{AgentBlueprint}
use j_harness.Llm.{ToolCall, Message, Tool, Request, Response, Context, CallError}
use j_harness.Json.{GoLib}
use j_harness.Engine.Messages.{
  run_result, or_braces, refused_text, unknown_text, tool_message, assistant_message, add_usage,
  no_usage,
}
use j_harness.Engine.Defs.{
  Func, ToolRegistry, Engine, Error, tools_disabled, unknown_tool, tool_rounds_exceeded,
  call_failed,
}

abbrev pub max_tool_rounds : ℕ
max_tool_rounds = 5

-- What the loop returns: the usage and content, an error or none, and the state of the world.
abbrev pub Reply : Type 0 → Type 0
Reply W = (Response × Option Error) × W

-- One reply of the model, with the rest of the loop.
abbrev pub on_reply :
    {W : Type 0}
    → Response
    → Result CallError Response × W
    → (Response → Response → W → Reply W)
    → Reply W
on_reply usage (err e, w) more = ((usage, some (call_failed e)), w)
on_reply usage (ok resp, w) more = elim resp.tool_calls [
  | [] ↦ ((record (add_usage usage resp) { content = resp.content }, none), w)
  | call ∷ calls ↦ more (add_usage usage resp) resp w
]

module _ {F W : Type 0} where
  abbrev descriptor : Func F W → Tool F
  descriptor fn = record {
    name = fn.name;
    description = fn.description;
    parameters = fn.parameters;
  }

  resolve_names : ToolRegistry F W → String → List String → Result Error (List (Tool F))
  unfolding lookup
  resolve_names reg agent [] = ok []
  resolve_names reg agent (name ∷ names) = elim (lookup name reg) [
    | none ↦ err (unknown_tool agent name)
    | some fn ↦ resolve_names reg agent names >>= λ rest. ok (descriptor fn ∷ rest)
  ]

  -- A nil allowlist and an empty one are alike.
  resolve_enabled : Option (ToolRegistry F W) → String → List String → Result Error (List (Tool F))
  unfolding resolve_names
  resolve_enabled none agent names = err (tools_disabled agent)
  resolve_enabled (some []) agent names = err (tools_disabled agent)
  resolve_enabled (some (fn ∷ reg)) agent names = resolve_names (fn ∷ reg) agent names

  unfoldable pub resolve_tools : Engine F W → AgentBlueprint F → Result Error (List (Tool F))
  unfolding resolve_enabled
  resolve_tools e bp = elim bp.tools [
    | [] ↦ ok []
    | name ∷ names ↦ resolve_enabled e.tools_enabled bp.id bp.tools
  ]

  -- `e.enabledTools().Get(name)`, false on a nil registry
  abbrev pub get_tool : Option (ToolRegistry F W) → String → Option (Func F W)
  get_tool none name = none
  get_tool (some reg) name = lookup name reg

  abbrev pub run_found : GoLib F → Option (Func F W) → W → String → String → String
  run_found lib none w name args = unknown_text lib.quote name
  run_found lib (some fn) w name args = run_result (fn.run w args)

  unfoldable pub run_tool : GoLib F → Engine F W → W → ToolCall → List String → String
  unfolding elem lookup trim_space
  run_tool lib e w call allowed =
      if elem call.name allowed
      then run_found lib (get_tool e.tools_enabled call.name) w call.name
          (or_braces (trim_space call.arguments))
      else refused_text lib.quote call.name

  -- The loop over the calls of one response.
  unfoldable pub run_calls : GoLib F → Engine F W → W → List String → List ToolCall → List Message
  unfolding run_tool
  run_calls lib e w allowed [] = []
  run_calls lib e w allowed (call ∷ calls) =
      tool_message call (run_tool lib e w call allowed) ∷ run_calls lib e w allowed calls

  -- The request of the next round: the reply and the results of its calls are appended.
  abbrev pub next_request :
      GoLib F → Engine F W → W → List String → Request F → Response → Request F
  next_request lib e w allowed req resp = record req {
    messages =
        (req.messages ++ assistant_message resp ∷ []) ++ run_calls lib e w allowed resp.tool_calls;
  }

  -- The rounds that are left, the request so far and the usage so far.
  unfoldable pub tool_rounds :
      GoLib F → Engine F W → Context → List String → ℕ → Request F → Response → W → Reply W
  unfolding run_calls
  tool_rounds lib e ctx allowed zero req usage w = ((usage, some tool_rounds_exceeded), w)
  tool_rounds lib e ctx allowed (suc rounds) req usage w =
      on_reply usage (e.client ctx req w) (λ usage' resp w'.
        tool_rounds lib e ctx allowed rounds (next_request lib e w' allowed req resp) usage' w')

  unfoldable pub complete_with_tools :
      GoLib F → Engine F W → Context → Request F → List String → W → Reply W
  unfolding tool_rounds
  complete_with_tools lib e ctx req allowed w =
      tool_rounds lib e ctx allowed max_tool_rounds req no_usage w
