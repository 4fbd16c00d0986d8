-- ===== src/Llm.antt =====
-- internal/llm/client.go: the messages of a chat completion and the boundary to a backend.
pub mod Retry
use j_harness.Base.{ℕ, String, Bool, Option, List, Result}
use j_harness.Json.{Json}

pub data Role : Type 0 where
  system user assistant tool : Role

pub record ToolCall : Type 0 where
  pub id : String
  pub name : String
  pub arguments : String

pub record Message : Type 0 where
  pub role : Role
  pub content : String
  pub tool_calls : List ToolCall
  pub tool_call_id : String

-- A Tool, whose type is always "function".
pub record Tool (F : Type 0) : Type 0 where
  pub name : String
  pub description : String
  pub parameters : Json F

pub record Request (F : Type 0) : Type 0 where
  pub model : String
  pub base_url : String
  pub system_prompt : String
  pub user_input : String
  pub messages : List Message
  pub tools : List (Tool F)
  pub temperature : Option F
  pub max_tokens : ℕ
  pub json_output : Bool

-- The counts are ints, as their 64-bit patterns.
pub record Response : Type 0 where
  pub content : String
  pub tool_calls : List ToolCall
  pub prompt_tokens : ℕ
  pub output_tokens : ℕ
  pub total_tokens : ℕ

-- What a call can fail with; `wrapped` is an error around another, as `%w` makes it.
pub data CallError : Type 0 where
  canceled deadline_exceeded unsupported : CallError
  http_error : (status_code : ℕ) (message : String) → CallError
  transport : String → CallError
  wrapped : String → CallError → CallError

-- The values that a context carries to a call: the per-request overrides and the time limit.
pub record Context : Type 0 where
  pub concurrency : ℕ
  pub rate : String
  pub timeout_seconds : ℕ

-- The interface Client, with the state of the world that it acts on.
abbrev pub Client : Type 0 → Type 0 → Type 0
Client F W = Context → Request F → W → Result CallError Response × W
