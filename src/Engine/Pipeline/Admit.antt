-- ===== src/Engine/Pipeline/Admit.antt =====
-- internal/engine/pipeline.go: the variables of `RunPipeline`, and the pass that starts steps.
use j_harness.Base.{
  ℕ, String, Bool, true, false, Option, none, some, List, [], ◌∷◌, ◌++◌, Map, lookup, insert,
  get_or, elem, remove, Result, ok, err,
}
use j_harness.Json.{GoLib}
use j_harness.Model.{JobStatus, unset, completed, failed, skipped, Step}
use j_harness.Pipeline.Graph.{Graph, deps_of}
use j_harness.Pipeline.Resolve.{resolve}
use j_harness.Engine.Defs.{Error, resolve_failed, step_failed}

pub record StepOutcome : Type 0 where
  pub step_id : String
  pub status : JobStatus
  pub output : String
  pub error : Option Error
  pub tokens : ℕ
  pub duration_ms : ℕ

-- An outcome with a status and nothing else.
abbrev pub plain_outcome : String → JobStatus → Option Error → StepOutcome
plain_outcome id status error = record {
  step_id = id;
  status = status;
  output = "";
  error = error;
  tokens = 0;
  duration_ms = 0;
}

-- What does not change during a run.
pub record Plan (F : Type 0) : Type 0 where
  pub pipeline_id : String
  pub order : List String
  pub steps : Map (Step F)
  pub graph : Graph
  pub inputs : Map String

-- The variables of the main loop. A launched goroutine stands in `inflight` with the resolved
-- input of its step until its completion is received; `running` is the length of that list.
pub record Run (F : Type 0) : Type 0 where
  pub state : Map JobStatus
  pub results : Map StepOutcome
  pub pending : List String
  pub outputs : Map String
  pub inflight : List (Step F × String)
  pub failure : Option Error
  pub tokens : ℕ

abbrev pub status_of : Map JobStatus → String → JobStatus
status_of m id = get_or unset (lookup id m)

pub data Readiness : Type 0 where
  ready skip blocked : Readiness

-- The loop of `depStatus`.
unfoldable pub dep_status : Map JobStatus → List String → Readiness
unfolding lookup
dep_status state [] = ready
dep_status state (dep ∷ deps) = elim (status_of state dep) [
  | completed ↦ dep_status state deps
  | skipped ↦ skip
  | failed ↦ skip
  | _ ↦ blocked
]

abbrev pub or_first : Option Error → Error → Option Error
or_first none e = some e
or_first (some first) e = some first

module _ {F : Type 0} (lib : GoLib F) (plan : Plan F) where
  -- `launch` when the input resolves, and when it does not.
  abbrev pub launched : Step F → Result Error String → Run F → Run F
  launched step (ok decoded) r = record r { inflight = r.inflight ++ (step, decoded) ∷ [] }
  launched step (err e) r = record r {
    results = insert step.id (plain_outcome step.id failed (some e)) r.results;
    state = insert step.id failed r.state;
    failure = or_first r.failure (step_failed plan.pipeline_id step.id e);
  }

  abbrev pub resolved : Step F → Run F → Result Error String
  resolved step r =
      elim (resolve lib step.input (record { inputs = plan.inputs; outputs = r.outputs })) [
        | ok s ↦ ok s
        | err e ↦ err (resolve_failed e)
      ]

  unfoldable pub launch : Step F → Run F → Run F
  unfolding resolve insert
  launch step r = launched step (resolved step r) r

  -- `launch(steps[id])`; every id of the order is a key.
  abbrev pub launch_id : Option (Step F) → Run F → Run F
  launch_id none r = r
  launch_id (some step) r = launch step r

  abbrev pub mark_skipped : String → Run F → Run F
  mark_skipped id r = record r {
    state = insert id skipped r.state;
    results = insert id (plain_outcome id skipped none) r.results;
    pending = remove id r.pending;
  }

  abbrev pub on_readiness : Readiness → String → Run F → Run F
  on_readiness skip id r = mark_skipped id r
  on_readiness blocked id r = r
  on_readiness ready id r =
      launch_id (lookup id plan.steps) (record r { pending = remove id r.pending })

  abbrev pub on_status : JobStatus → String → Run F → Run F
  on_status skipped id r = record r {
    pending = remove id r.pending;
    results = insert id (plain_outcome id skipped none) r.results;
  }
  on_status _ id r = on_readiness (dep_status r.state (deps_of plan.graph id)) id r

  -- One round of the pass, for a step that may be admitted.
  unfoldable pub consider : String → Run F → Run F
  unfolding launch dep_status deps_of lookup insert remove
  consider id r = on_status (status_of r.state id) id r

  -- `if failure != nil { break }`, `if !pending[id] { continue }`
  abbrev pub admit_one : Option Error → Bool → String → Run F → Run F
  admit_one (some e) waits id r = r
  admit_one none false id r = r
  admit_one none true id r = consider id r

  unfoldable pub step_pass : String → Run F → Run F
  unfolding consider elem
  step_pass id r = admit_one r.failure (elem id r.pending) id r

  -- The whole pass, in declared order.
  unfoldable pub admit : List String → Run F → Run F
  unfolding step_pass
  admit [] r = r
  admit (id ∷ ids) r = admit ids (step_pass id r)
