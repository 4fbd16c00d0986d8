-- ===== src/Engine/Worker.antt =====
-- internal/engine/worker.go: the pool that runs stored jobs. Its state is that of the store, the
-- buffered channel of session ids, and what a run changes; one call of `run` is one step of it.
pub mod Lifecycle
pub mod Queue
use j_harness.Base.{
  ℕ, zero, suc, ◌+◌, ◌*◌, String, Bool, true, false, not, ◌&&◌, ◌||◌, Option, none, some, List, [],
  ◌∷◌, ◌++◌, Map, insert, length, ltb, Result, ok, err, if◌then◌else◌, is_empty, trim_space,
  has_prefix,
}
use j_harness.Json.{Json, null, str, obj, Fields, end, field, GoLib}
use j_harness.Model.{
  Job, JobKind, agent, pipeline, other_kind, JobStatus, pending, running, completed, failed,
  is_pending, StepResult,
}
use j_harness.Metrics.{jobs_submitted, jobs_completed, jobs_failed, inc}
use j_harness.Schema.Defs.{Error as SchemaError}
use j_harness.Store.{Store, Error as StoreError, or_pending}
use j_harness.Engine.Defs.{Engine, State, Error, unsupported_kind, AgentResult}
use j_harness.Engine.Agent.{Outcome, run_agent}
use j_harness.Engine.Pipeline.Admit.{StepOutcome}
use j_harness.Engine.Pipeline.Receive.{step_status}
use j_harness.Engine.Pipeline.Loop.{PipelineResult, run_pipeline}

pub data PoolError : Type 0 where
  store_required engine_required queue_full : PoolError
  store_failed : StoreError → PoolError

pub record Pool (S W : Type 0) : Type 0 where
  pub store : S
  pub queue : List String
  pub capacity : ℕ
  pub closed : Bool
  pub state : State W

-- The sizes of a PoolConfig; zero stands for all numbers below one.
abbrev at_least_one : ℕ → ℕ
at_least_one zero = 1
at_least_one (suc n) = suc n

abbrev queue_size : (workers queue : ℕ) → ℕ
queue_size workers zero = at_least_one workers * 4
queue_size workers (suc n) = suc n

-- `NewPool`, with the number of workers that it starts.
unfoldable pub new_pool :
    {F S W : Type 0}
    → Option (Store S)
    → Option (Engine F W)
    → (workers queue : ℕ) → S
    → State W
    → Result PoolError (ℕ × Pool S W)
new_pool none e workers queue s w = err store_required
new_pool (some st) none workers queue s w = err engine_required
new_pool (some st) (some e) workers queue s w = ok (
  at_least_one workers,
  record { store = s; queue = []; capacity = queue_size workers queue; closed = false; state = w },
)

abbrev pub add_one : Bool → ℕ → ℕ
add_one true n = suc n
add_one false n = n

module _ {S W : Type 0} where
  abbrev pub has_room : Pool S W → Bool
  has_room p = ltb (length p.queue) p.capacity

  abbrev pub push : String → Pool S W → Pool S W
  push id p = record p { queue = p.queue ++ id ∷ [] }

  abbrev pub count : String → Pool S W → Pool S W
  count name p = record p { state = record p.state { metrics = inc name p.state.metrics } }

  abbrev pub offer : String → Pool S W → Result PoolError (Unit {0}) × Pool S W
  offer id p = if has_room p then (ok tt, push id p) else (err queue_full, p)

  abbrev pub on_created :
      String → Result StoreError (Unit {0}) × S → Pool S W → Result PoolError (Unit {0}) × Pool S W
  on_created id (err e, s) p = (err (store_failed e), record p { store = s })
  on_created id (ok u, s) p = offer id (count jobs_submitted (record p { store = s }))

  unfoldable pub submit : Store S → Job → Pool S W → Result PoolError (Unit {0}) × Pool S W
  unfolding inc
  submit st job p =
      on_created job.session_id
        (st.create_job (record job { status = or_pending job.status }) p.store) p

  -- `Enqueue`. On a closed pool with room both cases of the select are ready, and `takes` says
  -- which one is taken.
  unfoldable pub enqueue : (takes : Bool) → String → Pool S W → Bool × Pool S W
  enqueue takes id p =
      if has_room p && (not p.closed || takes) then (true, push id p) else (false, p)

  -- The loop of `RequeueOrphans`: how many jobs were queued, and an error or none.
  unfoldable pub requeue_all :
      Store S → (String → Bool) → List Job → ℕ → Pool S W → (ℕ × Option StoreError) × Pool S W
  unfolding enqueue
  requeue_all st takes [] n p = ((n, none), p)
  requeue_all st takes (job ∷ jobs) n p =
      let (r, s) = st.set_job_status job.session_id pending "" "" p.store in
      let (queued, p') = enqueue (takes job.session_id) job.session_id (record p { store = s }) in
      let rest = requeue_all st takes jobs (add_one queued n) p' in
      elim r [ err e ↦ ((n, some e), record p { store = s }) | ok u ↦ rest ]

  unfoldable pub requeue_orphans :
      Store S → (String → Bool) → Pool S W → (ℕ × Option StoreError) × Pool S W
  unfolding requeue_all
  requeue_orphans st takes p = elim (st.list_jobs_by_status running p.store) [
    | err e ↦ ((0, some e), p)
    | ok jobs ↦ requeue_all st takes jobs 0 p
  ]

  unfoldable pub close : Pool S W → Pool S W
  close p = record p { closed = true }

module _ {F : Type 0} (lib : GoLib F) where
  -- `json.Unmarshal` into a map[string]string: a null is the empty string.
  unfoldable pub strings_of : Fields F → Map String → Option (Map String)
  unfolding insert
  strings_of end m = some m
  strings_of (field k (str s) fields) m = strings_of fields (insert k s m)
  strings_of (field k null fields) m = strings_of fields (insert k "" m)
  strings_of (field k _ fields) m = none

  abbrev text_map : Option (Json F) → Option (Map String)
  text_map (some (obj m)) = strings_of m []
  text_map _ = none

  abbrev or_input : String → Option (Map String) → Map String
  or_input raw none = ("input", raw) ∷ []
  or_input raw (some m) = m

  unfoldable pub parse_job_input : String → Map String
  unfolding trim_space has_prefix strings_of
  parse_job_input raw =
      if has_prefix (trim_space raw) "{"
      then or_input raw (text_map (lib.unmarshal (trim_space raw)))
      else or_input raw none

-- `message` is the text of an error, `err.Error()`.
abbrev pub err_string : (Error → String) → Option Error → String
err_string message none = ""
err_string message (some e) = message e

abbrev pub agent_step : (Error → String) → Job → AgentResult → Option Error → StepResult
agent_step message job res e = record {
  session_id = job.session_id;
  step_id = job.target_id;
  status = step_status e;
  output = res.output;
  error = err_string message e;
  tokens = res.tokens;
  duration_ms = res.duration_ms;
}

abbrev pub pipeline_step : (Error → String) → Job → StepOutcome → StepResult
pipeline_step message job out = record {
  session_id = job.session_id;
  step_id = out.step_id;
  status = out.status;
  output = out.output;
  error = err_string message out.error;
  tokens = out.tokens;
  duration_ms = out.duration_ms;
}

-- The result and the error message of a job.
abbrev pub verdict : (Error → String) → String → Option Error → String × String
verdict message output none = (output, "")
verdict message output (some e) = ("", message e)

module _ {F W S : Type 0} (lib : GoLib F) (clock : W → ℕ) (render : SchemaError → String)
    (message : Error → String) (schedule : ℕ → ℕ) (e : Engine F W) (st : Store S) where
  -- The failures of AppendStepResult are dropped.
  unfoldable pub append_all : Job → List StepOutcome → S → S
  append_all job [] s = s
  append_all job (out ∷ outs) s =
      append_all job outs (st.append_step_result (pipeline_step message job out) s).1

  abbrev pub on_agent : Job → Outcome W → Pool S W → (String × String) × Pool S W
  on_agent job ((res, x), w) p = (
    verdict message res.output x,
    record p {
      store = (st.append_step_result (agent_step message job res x) p.store).1;
      state = w;
    },
  )

  abbrev pub on_pipeline :
      Job → (PipelineResult × Option Error) × State W → Pool S W → (String × String) × Pool S W
  on_pipeline job ((res, x), w) p = (
    verdict message res.output x,
    record p { store = append_all job res.steps p.store; state = w },
  )

  abbrev pub execute_kind : JobKind → Job → Pool S W → (String × String) × Pool S W
  execute_kind agent job p =
      on_agent job (run_agent lib clock render e job.target_id job.input p.state) p
  execute_kind pipeline job p =
      on_pipeline job
        (run_pipeline lib clock render e schedule job.target_id (parse_job_input lib job.input)
          p.state)
        p
  execute_kind (other_kind kind) job p = (("", message (unsupported_kind kind)), p)

  unfoldable pub execute : Job → Pool S W → (String × String) × Pool S W
  unfolding append_all run_agent run_pipeline parse_job_input
  execute job p = execute_kind job.kind job p

  -- The end of `run`: the terminal status is stored, and an error of the store only logged.
  abbrev pub settle : String → (String × String) × Pool S W → Pool S W
  settle id ((result, message), p) =
      if is_empty message
      then count jobs_completed
          (record p { store = (st.set_job_status id completed result "" p.store).1 })
      else count jobs_failed
          (record p { store = (st.set_job_status id failed result message p.store).1 })

  abbrev pub on_running : String → Job → Result StoreError (Unit {0}) × S → Pool S W → Pool S W
  on_running id job (err x, s) p = record p { store = s }
  on_running id job (ok u, s) p = settle id (execute job (record p { store = s }))

  abbrev pub on_loaded : String → Result StoreError Job → Pool S W → Pool S W
  on_loaded id (err x) p = p
  on_loaded id (ok job) p =
      if is_pending job.status
      then on_running id job (st.set_job_status id running "" "" p.store) p
      else p

  unfoldable pub run : String → Pool S W → Pool S W
  unfolding execute inc
  run id p = on_loaded id (st.get_job id p.store) p

  -- One round of `worker` that receives from the queue.
  unfoldable pub worker_step : Pool S W → Pool S W
  unfolding run
  worker_step p = elim p.queue [ [] ↦ p | id ∷ ids ↦ run id (record p { queue = ids }) ]
