-- ===== src/Engine/Pipeline/Loop.antt =====
-- internal/engine/pipeline.go: the main loop of `RunPipeline`, and its result. `schedule` says which
-- goroutine in flight ends next, at each round; a run of an agent is one step of the world.
use j_harness.Base.{
  ℕ, zero, suc, ◌-◌, String, Bool, false, Option, none, some, List, [], ◌∷◌, Map, lookup, insert,
  get_or, length, Result, ok, err, if◌then◌else◌, is_empty, trim_space,
}
use j_harness.Json.{GoLib}
use j_harness.Model.{skipped, is_completed, Step, Pipeline}
use j_harness.Pipeline.Graph.{Graph, deps, step_ids}
use j_harness.Pipeline.Resolve.{resolve}
use j_harness.Schema.Defs.{Error as SchemaError}
use j_harness.Engine.Defs.{
  Engine, State, Error, unknown_pipeline, bad_pipeline, missing_input, stalled, output_failed,
  no_agent_output,
}
use j_harness.Engine.Pipeline.Admit.{StepOutcome, plain_outcome, Plan, Run, status_of, admit}
use j_harness.Engine.Pipeline.Receive.{receive}

pub data Ending : Type 0 where
  finished stuck out_of_fuel : Ending

abbrev pub stop : Option Error → List String → Ending
stop (some e) waiting = finished
stop none [] = finished
stop none (id ∷ ids) = stuck

module _ {F W : Type 0} (lib : GoLib F) (clock : W → ℕ) (render : SchemaError → String)
    (e : Engine F W) (schedule : ℕ → ℕ) (plan : Plan F) where
  abbrev pub Loop : Type 0
  Loop = (Ending × Run F) × State W

  -- One round, behind the pass: with nothing in flight the loop ends, otherwise it waits.
  abbrev pub wait_or_stop :
      List (Step F × String) → Run F → State W → ℕ → (Run F → State W → Loop) → Loop
  wait_or_stop [] r s n again = ((stop r.failure r.pending, r), s)
  wait_or_stop (x ∷ xs) r s n again =
      let (r', s') = receive lib clock render e plan (schedule n) x xs r s in again r' s'

  -- `for len(pending) > 0`, with fuel; each round that goes on receives one completion.
  unfoldable pub loop : ℕ → Run F → State W → Loop
  unfolding admit receive
  loop zero r s = ((out_of_fuel, r), s)
  loop (suc fuel) r s = elim r.pending [
    | [] ↦ ((finished, r), s)
    | id ∷ ids ↦
        let r' = admit lib plan plan.order r in
        wait_or_stop r'.inflight r' s fuel (λ r'' s''. loop fuel r'' s'')
  ]

-- `collectOutcomes`: a step with no outcome is reported as skipped.
unfoldable pub collect_outcomes : List String → Map StepOutcome → List StepOutcome
unfolding lookup
collect_outcomes [] results = []
collect_outcomes (id ∷ ids) results =
    get_or (plain_outcome id skipped none) (lookup id results) ∷ collect_outcomes ids results

pub record PipelineResult : Type 0 where
  pub pipeline_id : String
  pub output : String
  pub tokens : ℕ
  pub duration_ms : ℕ
  pub steps : List StepOutcome

abbrev pub agent_output : String → Option String → Result Error String
agent_output id none = err (no_agent_output id)
agent_output id (some out) = ok out

module _ {F : Type 0} where
  abbrev pub is_router : Option (Step F) → Bool
  is_router none = false
  is_router (some step) = step.router

  -- The loop over the order: the output of the last agent step that completed.
  unfoldable pub last_output : Plan F → List String → Run F → Option String → Option String
  unfolding lookup
  last_output plan [] r last = last
  last_output plan (id ∷ ids) r last = last_output plan ids r (
      if is_completed (status_of r.state id)
      then (if is_router (lookup id plan.steps)
          then last
          else some (get_or "" (lookup id r.outputs)))
      else last)

  unfoldable pub final_output : GoLib F → String → Plan F → Run F → Result Error String
  unfolding resolve last_output trim_space
  final_output lib template plan r =
      if is_empty (trim_space template)
      then agent_output plan.pipeline_id (last_output plan plan.order r none)
      else elim (resolve lib template (record { inputs = plan.inputs; outputs = r.outputs })) [
        | ok out ↦ ok out
        | err x ↦ err (output_failed plan.pipeline_id x)
      ]

  -- `steps[s.ID] = s` for each step
  unfoldable pub index_steps : List (Step F) → Map (Step F) → Map (Step F)
  unfolding insert
  index_steps [] m = m
  index_steps (s ∷ ss) m = index_steps ss (insert s.id s m)

unfoldable pub bind_inputs :
    String → List String → Map String → Map String → Result Error (Map String)
unfolding lookup insert
bind_inputs id [] given bound = ok bound
bind_inputs id (name ∷ names) given bound = elim (lookup name given) [
  | none ↦ err (missing_input id name)
  | some val ↦ bind_inputs id names given (insert name val bound)
]

-- `pending[s.ID] = true` for each step: a set, which the loop only reads by key and by size.
abbrev pub start : {F : Type 0} → List String → Run F
start ids = record {
  state = [];
  results = [];
  pending = ids;
  outputs = [];
  inflight = [];
  failure = none;
  tokens = 0;
}

abbrev pub plan_of : {F : Type 0} → String → Pipeline F → Graph → Map String → Plan F
plan_of id p g bound = record {
  pipeline_id = id;
  order = step_ids p.steps;
  steps = index_steps p.steps [];
  graph = g;
  inputs = bound;
}

module _ {F W : Type 0} (lib : GoLib F) (clock : W → ℕ) (render : SchemaError → String)
    (e : Engine F W) (schedule : ℕ → ℕ) where
  -- The result of a run beside its error, if it has one.
  abbrev pub Answer : Type 0
  Answer = (PipelineResult × Option Error) × State W

  abbrev pub no_result : Error → State W → Answer
  no_result x s = (
    (record { pipeline_id = ""; output = ""; tokens = 0; duration_ms = 0; steps = [] }, some x),
    s,
  )

  abbrev pub partial : Plan F → ℕ → ℕ → Run F → PipelineResult
  partial plan tokens duration r = record {
    pipeline_id = "";
    output = "";
    tokens = tokens;
    duration_ms = duration;
    steps = collect_outcomes plan.order r.results;
  }

  abbrev pub deliver : Plan F → ℕ → Run F → Result Error String → PipelineResult × Option Error
  deliver plan duration r (ok out) = (
    record {
      pipeline_id = plan.pipeline_id;
      output = out;
      tokens = r.tokens;
      duration_ms = duration;
      steps = collect_outcomes plan.order r.results;
    },
    none,
  )
  deliver plan duration r (err x) = (partial plan r.tokens duration r, some x)

  abbrev pub after_loop : String → Plan F → ℕ → Run F → Option Error → PipelineResult × Option Error
  after_loop template plan duration r (some x) = (partial plan r.tokens duration r, some x)
  after_loop template plan duration r none =
      deliver plan duration r (final_output lib template plan r)

  -- An end without fuel, for which the code has no case, is read like a stall.
  abbrev pub conclude : String → Plan F → State W → (Ending × Run F) × State W → Answer
  conclude template plan s ((finished, r), s') =
      (after_loop template plan (clock s'.world - clock s.world) r r.failure, s')
  conclude template plan s ((_, r), s') =
      ((partial plan 0 (clock s'.world - clock s.world) r, some (stalled plan.pipeline_id)), s')

  unfoldable pub run_plan : Pipeline F → Plan F → State W → Answer
  unfolding loop collect_outcomes final_output
  run_plan p plan s =
      conclude p.output plan s
        (loop lib clock render e schedule plan (suc (length plan.order)) (start plan.order) s)

  abbrev pub run_bound : String → Pipeline F → Graph → Result Error (Map String) → State W → Answer
  run_bound id p g (err x) s = no_result x s
  run_bound id p g (ok bound) s = run_plan p (plan_of id p g bound) s

  -- `e.getRegistry().Pipeline(pipelineID)` found a pipeline.
  unfoldable pub run_found : String → Pipeline F → Map String → State W → Answer
  unfolding deps bind_inputs run_plan index_steps
  run_found id p inputs s = elim (deps p) [
    | err x ↦ no_result (bad_pipeline id x) s
    | ok g ↦ run_bound id p g (bind_inputs id p.inputs inputs []) s
  ]

  unfoldable pub run_pipeline : String → Map String → State W → Answer
  unfolding lookup run_found
  run_pipeline id inputs s = elim (lookup id e.registry.pipelines) [
    | none ↦ no_result (unknown_pipeline id) s
    | some p ↦ run_found id p inputs s
  ]
