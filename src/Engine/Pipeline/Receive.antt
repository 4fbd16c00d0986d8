-- ===== src/Engine/Pipeline/Receive.antt =====
-- internal/engine/pipeline.go: what a goroutine computes, and how its completion is recorded.
use j_harness.Base.{
  ℕ, zero, suc, ◌+◌, String, Option, none, some, List, [], ◌∷◌, Map, lookup, insert, Result, ok,
  err, if◌then◌else◌, is_empty, ◌==◌,
}
use j_harness.Json.{GoLib}
use j_harness.Model.{JobStatus, completed, failed, skipped, Route, Step}
use j_harness.Pipeline.Error.{Error as PipelineError}
use j_harness.Pipeline.Condition.{pick_route}
use j_harness.Schema.Defs.{Error as SchemaError}
use j_harness.Engine.Defs.{
  Engine, State, Error, route_failed, goto_not_a_step, step_failed, no_message, AgentResult,
}
use j_harness.Engine.Agent.{run_agent}
use j_harness.Engine.Pipeline.Admit.{StepOutcome, plain_outcome, Plan, Run, or_first}

pub record Completion : Type 0 where
  pub step_id : String
  pub out : StepOutcome
  pub goto_id : String

abbrev pub step_status : Option Error → JobStatus
step_status none = completed
step_status (some e) = failed

abbrev pub message_of : Option Error → Error
message_of none = no_message
message_of (some e) = e

abbrev pub agent_completion : String → AgentResult × Option Error → Completion
agent_completion id (res, e) = record {
  step_id = id;
  out = record {
    step_id = id;
    status = step_status e;
    output = res.output;
    error = e;
    tokens = res.tokens;
    duration_ms = res.duration_ms;
  };
  goto_id = "";
}

-- One of the goroutines in flight and the others; a number that is too large means the last.
unfoldable pub take_at : {A : Type 0} → ℕ → A → List A → A × List A
take_at zero x xs = (x, xs)
take_at (suc i) x [] = (x, [])
take_at (suc i) x (y ∷ ys) = let (z, rest) = take_at i y ys in (z, x ∷ rest)

module _ {F : Type 0} where
  -- `gotoID` is empty beside an error.
  abbrev pub route_completion : Map (Step F) → String → Result PipelineError String → Completion
  route_completion steps id (err e) = record {
    step_id = id;
    out = plain_outcome id failed (some (route_failed e));
    goto_id = "";
  }
  route_completion steps id (ok target) = record {
    step_id = id;
    out = elim (lookup target steps) [
      | some step ↦ plain_outcome id completed none
      | none ↦ plain_outcome id failed (some (goto_not_a_step target))
    ];
    goto_id = target;
  }

  -- The branches that were not taken.
  unfoldable pub skip_others : List (Route F) → String → Map JobStatus → Map JobStatus
  unfolding insert
  skip_others [] target m = m
  skip_others (rt ∷ rts) target m =
      skip_others rts target (if rt.goto == target then m else insert rt.goto skipped m)

  -- `c := <-done`, up to the end of the loop's body.
  abbrev pub routes_of : Option (Step F) → List (Route F)
  routes_of none = []
  routes_of (some step) = step.routes

  abbrev pub on_completed : Plan F → Completion → Run F → Run F
  on_completed plan c r =
      if is_empty c.goto_id
      then record r {
        outputs = insert c.step_id c.out.output r.outputs;
        tokens = r.tokens + c.out.tokens;
      }
      else record r {
        outputs = insert c.step_id "" r.outputs;
        state = skip_others (routes_of (lookup c.step_id plan.steps)) c.goto_id r.state;
      }

  abbrev pub on_outcome : JobStatus → Plan F → Completion → Run F → Run F
  on_outcome completed plan c r = on_completed plan c r
  on_outcome _ plan c r = record r {
    failure = or_first r.failure (step_failed plan.pipeline_id c.step_id (message_of c.out.error));
  }

  unfoldable pub record_completion : Plan F → Completion → Run F → Run F
  unfolding skip_others insert lookup
  record_completion plan c r = on_outcome c.out.status plan c (record r {
    state = insert c.step_id c.out.status r.state;
    results = insert c.step_id c.out r.results;
  })

module _ {F W : Type 0} (lib : GoLib F) (clock : W → ℕ) (render : SchemaError → String)
    (e : Engine F W) where
  -- The body of the goroutine of a launched step.
  unfoldable pub run_body : Plan F → Step F → String → State W → Completion × State W
  unfolding pick_route run_agent lookup
  run_body plan step decoded s =
      if step.router
      then (route_completion plan.steps step.id (pick_route lib step.routes decoded), s)
      else let (res, s') = run_agent lib clock render e step.agent_id decoded s in
        (agent_completion step.id res, s')

  -- The goroutine at position `i` ends next.
  unfoldable pub receive :
      Plan F → ℕ → Step F × String → List (Step F × String) → Run F → State W → Run F × State W
  unfolding take_at run_body record_completion
  receive plan i x xs r s =
      let (job, rest) = take_at i x xs in
      let (c, s') = run_body plan job.0 job.1 s in
      (record_completion plan c (record r { inflight = rest }), s')
