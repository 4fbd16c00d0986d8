-- ===== src/Engine/Tools/Allowlist.antt =====
-- What a run can see of the tools: those of its allowlist.
use j_harness.Base.{
  ℕ, zero, suc, String, true, Option, List, [], ◌∷◌, ◌≡◌, refl, ap, elem, Result, ok, err,
  List-cases, Bool-cases, inl, inr, trim_space,
}
use j_harness.Json.{GoLib}
use j_harness.Llm.{ToolCall, Request, Response, Context, CallError}
use j_harness.Engine.Messages.{or_braces, no_usage}
use j_harness.Engine.Defs.{ToolRegistry, Engine}
use j_harness.Engine.Tools.{
  max_tool_rounds, Reply, on_reply, get_tool, run_found, run_tool, run_calls, next_request,
  tool_rounds, complete_with_tools,
}

module _ {F W : Type 0} (lib : GoLib F) (e : Engine F W) (other : Option (ToolRegistry F W))
    (allowed : List String)
    (agree : (name : String)
      → elem name allowed ≡ true
      → get_tool e.tools_enabled name ≡ get_tool other name) where
  abbrev pub swapped : Engine F W
  swapped = record e { tools_enabled = other }

  run_tool-swapped :
      (w : W) (call : ToolCall)
      → run_tool lib e w call allowed ≡ run_tool lib swapped w call allowed
  unfolding run_tool
  run_tool-swapped w call = elim (Bool-cases (elem call.name allowed)) [
    | inl h ↦ rw h (
        ap (λ f. run_found lib f w call.name (or_braces (trim_space call.arguments)))
          (agree call.name h))
    | inr h ↦ rw h refl
  ]

  run_calls-swapped :
      (w : W) (calls : List ToolCall)
      → run_calls lib e w allowed calls ≡ run_calls lib swapped w allowed calls
  unfolding run_calls
  run_calls-swapped w [] = refl
  run_calls-swapped w (call ∷ calls) = cc (run_tool-swapped w call, run_calls-swapped w calls)

  on_reply-more :
      (usage : Response) (r : Result CallError Response × W)
      (f g : Response → Response → W → Reply W)
      → ((usage' resp : Response) (w' : W) → f usage' resp w' ≡ g usage' resp w')
      → on_reply usage r f ≡ on_reply usage r g
  on_reply-more usage (err x, w') f g h = refl
  on_reply-more usage (ok resp, w') f g h = elim (List-cases resp.tool_calls) [
    | inl k ↦ rw k refl
    | inr (call, rest, k) ↦ rw k (h _ resp w')
  ]

  tool_rounds-swapped :
      (ctx : Context) (n : ℕ) (req : Request F) (usage : Response) (w : W)
      → tool_rounds lib e ctx allowed n req usage w
        ≡ tool_rounds lib swapped ctx allowed n req usage w
  unfolding tool_rounds
  tool_rounds-swapped ctx zero req usage w = refl
  tool_rounds-swapped ctx (suc n) req usage w =
      on_reply-more usage (e.client ctx req w) _ _ (λ usage' resp w'.
        rw (run_calls-swapped w' resp.tool_calls)
          (tool_rounds-swapped ctx n (next_request lib swapped w' allowed req resp) usage' w'))

  -- Two engines with one backend whose tools agree on the names of the allowlist give the same
  -- reply and leave the same world, whatever calls the model asks for.
  pub complete_with_tools-allowlist :
      (ctx : Context) (req : Request F) (w : W)
      → complete_with_tools lib e ctx req allowed w
        ≡ complete_with_tools lib swapped ctx req allowed w
  unfolding complete_with_tools
  complete_with_tools-allowlist ctx req w = tool_rounds-swapped ctx max_tool_rounds req no_usage w
