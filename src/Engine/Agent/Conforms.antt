-- ===== src/Engine/Agent/Conforms.antt =====
-- What the output of an agent with a schema satisfies.
use j_harness.Base.{
  ℕ, String, true, Option, none, some, List, ◌≡◌, lookup, Result, ok, err, Bool-cases, Option-cases,
  inl, inr, ◌==◌, trim_space,
}
use j_harness.Json.{GoLib, Fields}
use j_harness.Model.{AgentBlueprint, output_json}
use j_harness.Schema.Defs.{Error as SchemaError}
use j_harness.Schema.Validate.{validate_text}
use j_harness.Metrics.{Metrics}
use j_harness.Llm.{Request, Response, Context, CallError, Tool}
use j_harness.Engine.Defs.{Engine, State, Error}
use j_harness.Engine.Tools.{Reply, resolve_tools}
use j_harness.Engine.Agent.{
  strip_code_fence, Outcome, valid_json_object, ask, checked_repair, on_repair, repair_schema,
  on_repaired, check_schema, check_output, on_answer, run_prepared, run_agent, call_context,
  base_request,
}

abbrev pub Satisfies : {F : Type 0} → GoLib F → Fields F → String → Type 0
Satisfies lib schema output = validate_text lib schema (strip_code_fence output) ≡ none

-- If the run gave no error, its output satisfies the schema.
abbrev pub IsChecked : {F W : Type 0} → GoLib F → Fields F → Outcome W → Type 0
IsChecked lib schema o = o.0.1 ≡ none → Satisfies lib schema o.0.0.output

module _ {F W : Type 0} (lib : GoLib F) (clock : W → ℕ) (render : SchemaError → String)
    (e : Engine F W) (agent : String) (schema : Fields F) where
  IsRepair : Option (String × ℕ) → Type 0
  IsRepair none = Unit
  IsRepair (some (out, extra)) = Satisfies lib schema out

  checked_repair-IsRepair :
      (resp : Response) → IsRepair (checked_repair lib clock render schema resp)
  unfolding IsRepair
  checked_repair-IsRepair resp =
      let t = trim_space resp.content in
      elim (Bool-cases (valid_json_object lib clock render (strip_code_fence t))) [
        | inr bad ↦ rw bad tt
        | inl good ↦ elim (Option-cases (validate_text lib schema (strip_code_fence t))) [
          | inr (x, bad) ↦ rw (good, bad) tt
          | inl valid ↦ rw good (rw valid valid)
        ]
      ]

  on_repair-IsRepair :
      (r : Result CallError Response × W) → IsRepair (on_repair lib clock render schema r).0
  unfolding IsRepair
  on_repair-IsRepair (ok resp, w) = checked_repair-IsRepair resp
  on_repair-IsRepair (err x, w) = tt

  on_repaired-IsChecked :
      (start : State W) (content : String) (tokens : ℕ) (verr : SchemaError) (m : Metrics)
      (r : Option (String × ℕ) × W)
      → IsRepair r.0
      → IsChecked lib schema (on_repaired lib clock render start agent content tokens verr m r)
  unfolding IsRepair
  on_repaired-IsChecked start content tokens verr m (none, w) fixed h = cc
  on_repaired-IsChecked start content tokens verr m (some (out, extra), w) fixed h = fixed

  check_schema-IsChecked :
      lookup agent e.registry.schemas ≡ some schema
      → (ctx : Context) (req : Request F) (start : State W) (content : String) (tokens : ℕ)
        (s : State W)
      → IsChecked lib schema (check_schema lib clock render e ctx req start agent content tokens s)
  unfolding check_schema repair_schema
  check_schema-IsChecked declared ctx req start content tokens s =
      rw (declared, check_schema)
        (elim (Option-cases (validate_text lib schema (strip_code_fence content))) [
          | inl valid ↦ rw valid (λ h. valid)
          | inr (verr, bad) ↦
              rw bad
                (on_repaired-IsChecked start content tokens verr s.metrics _ (on_repair-IsRepair _))
        ])

  check_output-IsChecked :
      lookup agent e.registry.schemas ≡ some schema
      → (ctx : Context) (bp : AgentBlueprint F) (req : Request F) (start : State W)
        (resp : Response) (s : State W)
      → bp.output_format == output_json ≡ true
      → IsChecked lib schema (check_output lib clock render e ctx bp req start agent resp s)
  unfolding check_output
  check_output-IsChecked declared ctx bp req start resp s json =
      rw (json, check_output)
        (elim (Bool-cases (valid_json_object lib clock render (trim_space resp.content))) [
          | inl good ↦ rw good (check_schema-IsChecked declared ctx req start _ resp.total_tokens s)
          | inr bad ↦ rw bad (λ h. cc)
        ])

  on_answer-IsChecked :
      lookup agent e.registry.schemas ≡ some schema
      → (ctx : Context) (bp : AgentBlueprint F) (req : Request F) (start : State W) (m : Metrics)
        (r : Reply W)
      → bp.output_format == output_json ≡ true
      → IsChecked lib schema (on_answer lib clock render e ctx bp req start agent m r)
  on_answer-IsChecked declared ctx bp req start m ((resp, none), w) json =
      check_output-IsChecked declared ctx bp req start resp _ json
  on_answer-IsChecked declared ctx bp req start m ((resp, some x), w) json = λ h. cc

  run_prepared-IsChecked :
      lookup agent e.registry.schemas ≡ some schema
      → (bp : AgentBlueprint F) (prompt : String) (tools : Result Error (List (Tool F)))
        (input : String) (s : State W)
      → bp.output_format == output_json ≡ true
      → IsChecked lib schema (run_prepared lib clock render e bp prompt agent tools input s)
  unfolding run_prepared
  run_prepared-IsChecked declared bp prompt (err x) input s json = λ h. cc
  run_prepared-IsChecked declared bp prompt (ok tools) input s json =
      let req = base_request lib clock render bp prompt input tools in
      on_answer-IsChecked declared (call_context lib clock render bp) bp req s s.metrics
        (ask lib clock render e (call_context lib clock render bp) bp req s.world) json

  -- A run without an error of an agent of the format json that has an output schema gives an output
  -- that the schema accepts, whether the first reply passed the check or the corrected one, with or
  -- without tools.
  pub run_agent-IsChecked :
      (bp : AgentBlueprint F) (input : String) (s : State W)
      → lookup agent e.registry.blueprints ≡ some bp
      → bp.output_format == output_json ≡ true
      → lookup agent e.registry.schemas ≡ some schema
      → IsChecked lib schema (run_agent lib clock render e agent input s)
  unfolding run_agent
  run_agent-IsChecked bp input s found json declared =
      rw (found, run_agent)
        (elim (Option-cases (lookup agent e.registry.prompts)) [
          | inl missing ↦ rw missing (λ h. cc)
          | inr (prompt, there) ↦
              rw there (run_prepared-IsChecked declared bp prompt (resolve_tools e bp) input s json)
        ])
