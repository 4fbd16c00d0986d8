-- ===== src/Api/Server.antt =====
-- internal/api/api.go: the state of the API, and the handlers of jobs and sessions.
use j_harness.Base.{
  String, Bool, Option, none, some, List, [], ◌∷◌, Map, lookup, get_or, Result, ok, err,
  if◌then◌else◌, ◌==◌, is_empty, trim_space, trim_prefix,
}
use j_harness.Model.{Pipeline, Job, JobKind, agent, pipeline, pending, StepResult}
use j_harness.Engine.Defs.{Engine, Registry}
use j_harness.Engine.Worker.{Pool, PoolError, queue_full as pool_full, submit}
use j_harness.Store.{Store, Error as StoreError, not_found}
use j_harness.Api.Http.{
  Request, Response, Decoded, respond, fail, unknown_route, missing_input, queue_full,
  method_not_allowed, unknown, bad_body, not_submitted, store_failed, submitted, session, steps,
  BodyError, split_two, decode_execute_request, decode_pipeline_request,
}

-- The fields of API that requests change, with the pool and the file system (`D`) behind them. The engine
-- is the one that the pool runs.
pub record Api (F S W D : Type 0) : Type 0 where
  pub engine : Engine F W
  pub registry : Registry F
  pub pool : Pool S W
  pub disk : D

-- What the handlers ask of the store and of other packages. `fresh` is the session id that is drawn for
-- a request.
pub record Env (F S : Type 0) : Type 0 where
  pub store : Store S
  pub list_step_results : String → S → Result StoreError (List StepResult)
  pub ping : S → Bool
  pub fresh : Request → String
  pub ends : String → Bool
  pub decode_input : String → Decoded String
  pub decode_inputs : String → Decoded (Map String)
  pub encode_inputs : Map String → String

-- A handler's response, and the state behind it.
abbrev pub Served : Type 0 → Type 0 → Type 0 → Type 0 → Type 0
Served F S W D = Response F × Api F S W D

abbrev pub new_job : String → JobKind → String → String → Job
new_job id kind target input = record {
  session_id = id;
  kind = kind;
  target_id = target;
  status = pending;
  input = input;
  result = "";
  error = "";
}

-- The loop over the inputs of a pipeline: the first one that is missing or blank
unfoldable pub first_missing : Map String → List String → Option String
unfolding lookup trim_space
first_missing inputs [] = none
first_missing inputs (name ∷ names) =
    if is_empty (trim_space (get_or "" (lookup name inputs)))
    then some name
    else first_missing inputs names

module _ {F : Type 0} where
  abbrev pub submit_failed : PoolError → Response F
  submit_failed pool_full = fail 503 queue_full
  submit_failed e = fail 500 (not_submitted e)

  abbrev pub store_error : String → StoreError → Response F
  store_error id not_found = fail 404 (unknown id)
  store_error id e = fail 500 (store_failed e)

module _ {F S W D : Type 0} where
  abbrev pub after_submit :
      String → Api F S W D → Result PoolError (Unit {0}) × Pool S W → Served F S W D
  after_submit id a (ok u, p) = (respond 202 (submitted id), record a { pool = p })
  after_submit id a (err e, p) = (submit_failed e, record a { pool = p })

  -- `{id}/execute` by POST, for both kinds of targets
  abbrev pub execute_route :
      (String → Api F S W D → Served F S W D)
      → Request
      → Option (String × String)
      → Api F S W D
      → Served F S W D
  execute_route execute r none a = (fail 404 unknown_route, a)
  execute_route execute r (some (id, action)) a =
      if action == "execute"
      then (if is_empty id
          then (fail 404 unknown_route, a)
          else if r.method == "POST"
          then execute id a
          else (fail 405 (method_not_allowed "POST"), a))
      else (fail 404 unknown_route, a)

module _ {F S W D : Type 0} (env : Env F S) where
  open env use {store, fresh, ends, decode_input, decode_inputs, encode_inputs}

  unfoldable pub submit_job : Job → Api F S W D → Served F S W D
  unfolding submit
  submit_job job a = after_submit job.session_id a (submit store job a.pool)

  -- `handleExecuteAgent`
  abbrev pub execute_decoded :
      String → String → Result BodyError String → Api F S W D → Served F S W D
  execute_decoded id target (err e) a = (fail 400 (bad_body e), a)
  execute_decoded id target (ok input) a = submit_job (new_job id agent target input) a

  unfoldable pub handle_execute_agent : Request → String → Api F S W D → Served F S W D
  unfolding lookup decode_execute_request submit_job
  handle_execute_agent r id a = elim (lookup id a.registry.blueprints) [
    | none ↦ (fail 404 (unknown id), a)
    | some bp ↦ execute_decoded (fresh r) id (decode_execute_request ends decode_input r.body) a
  ]

  abbrev pub execute_inputs :
      String → String → Map String → Option String → Api F S W D → Served F S W D
  execute_inputs id target inputs (some name) a = (fail 400 missing_input, a)
  execute_inputs id target inputs none a =
      submit_job (new_job id pipeline target (encode_inputs inputs)) a

  abbrev pub execute_mapped :
      String → Pipeline F → String → Result BodyError (Map String) → Api F S W D → Served F S W D
  execute_mapped id p target (err e) a = (fail 400 (bad_body e), a)
  execute_mapped id p target (ok inputs) a =
      execute_inputs id target inputs (first_missing inputs p.inputs) a

  -- `handleExecutePipeline`; the encoding of a map of texts does not fail.
  unfoldable pub handle_execute_pipeline : Request → String → Api F S W D → Served F S W D
  unfolding lookup decode_pipeline_request first_missing submit_job
  handle_execute_pipeline r id a = elim (lookup id a.registry.pipelines) [
    | none ↦ (fail 404 (unknown id), a)
    | some p ↦ execute_mapped (fresh r) p id (decode_pipeline_request ends decode_inputs r.body) a
  ]

  unfoldable pub handle_agents : Request → Api F S W D → Served F S W D
  unfolding split_two trim_prefix handle_execute_agent
  handle_agents r a =
      execute_route (handle_execute_agent r) r (split_two (trim_prefix r.path "/v1/agents/")) a

  unfoldable pub handle_pipelines : Request → Api F S W D → Served F S W D
  unfolding split_two trim_prefix handle_execute_pipeline
  handle_pipelines r a =
      execute_route (handle_execute_pipeline r) r (split_two (trim_prefix r.path "/v1/pipelines/"))
        a

module _ {F S : Type 0} (env : Env F S) where
  open env use {store, list_step_results}

  abbrev pub session_of : String → Result StoreError Job → Response F
  session_of id (ok job) = respond 200 (session job)
  session_of id (err e) = store_error id e

  unfoldable pub handle_session : String → S → Response F
  handle_session id s = session_of id (store.get_job id s)

  abbrev pub listed : String → Result StoreError (List StepResult) → Response F
  listed id (ok rs) = respond 200 (steps id rs)
  listed id (err e) = fail 500 (store_failed e)

  abbrev pub steps_of : String → Result StoreError Job → S → Response F
  steps_of id (err e) s = store_error id e
  steps_of id (ok job) s = listed id (list_step_results id s)

  unfoldable pub handle_session_steps : String → S → Response F
  handle_session_steps id s = steps_of id (store.get_job id s) s

  unfoldable pub session_route : String → Option (String × String) → S → Response F
  unfolding handle_session handle_session_steps
  session_route rest none s = handle_session rest s
  session_route rest (some (id, sub)) s =
      if sub == "steps" then handle_session_steps id s else fail 404 unknown_route

  unfoldable pub handle_sessions : Request → S → Response F
  unfolding session_route split_two trim_prefix
  handle_sessions r s =
      let rest = trim_prefix r.path "/v1/sessions/" in
      if is_empty rest
      then fail 404 unknown_route
      else if r.method == "GET"
      then session_route rest (split_two rest) s
      else fail 405 (method_not_allowed "GET")
