-- ===== src/Engine/Messages.antt =====
-- internal/engine/tools.go: the messages of a run with tools, and its count of tokens.
use Prim.Native.String.{◌++◌ as str_append}
use j_harness.Base.{
  ◌+◌, String, List, [], ◌∷◌, Result, ok, err, if◌then◌else◌, is_empty, ◌%◌, ◌^◌, ℕ,
}
use j_harness.Llm.{Role, system, user, assistant, tool, ToolCall, Message, Response}

abbrev pub run_result : Result String String → String
run_result (ok out) = out
run_result (err message) = str_append "error: " message

abbrev pub or_braces : String → String
or_braces args = if is_empty args then "{}" else args

-- The refusals are texts for the model.
abbrev pub refused_text : (quote : String → String) → String → String
refused_text quote name =
    str_append "error: tool " (str_append (quote name) " is not enabled for this agent")

abbrev pub unknown_text : (quote : String → String) → String → String
unknown_text quote name = str_append "error: unknown tool " (quote name)

abbrev pub tool_message : ToolCall → String → Message
tool_message call result = record {
  role = tool;
  content = result;
  tool_calls = [];
  tool_call_id = call.id;
}

abbrev pub assistant_message : Response → Message
assistant_message resp = record {
  role = assistant;
  content = resp.content;
  tool_calls = resp.tool_calls;
  tool_call_id = "";
}

-- An int is its 64-bit pattern, so a sum wraps; a pattern from 2 ^ 63 on is a negative number.
abbrev pub add_int : ℕ → ℕ → ℕ
add_int a b = (a + b) % 2 ^ 64

abbrev pub add_usage : Response → Response → Response
add_usage usage resp = record usage {
  prompt_tokens = add_int usage.prompt_tokens resp.prompt_tokens;
  output_tokens = add_int usage.output_tokens resp.output_tokens;
  total_tokens = add_int usage.total_tokens resp.total_tokens;
}

abbrev pub no_usage : Response
no_usage = record {
  content = "";
  tool_calls = [];
  prompt_tokens = 0;
  output_tokens = 0;
  total_tokens = 0;
}

abbrev pub text_message : Role → String → Message
text_message role content = record {
  role = role;
  content = content;
  tool_calls = [];
  tool_call_id = "";
}

unfoldable pub build_tool_messages : String → String → List Message
build_tool_messages system_prompt input =
    if is_empty system_prompt
    then text_message user input ∷ []
    else text_message system system_prompt ∷ text_message user input ∷ []
