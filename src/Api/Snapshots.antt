-- ===== src/Api/Snapshots.antt =====
-- internal/api: the registry's snapshot of the API and that of the engine, under any order of requests.
use j_harness.Base.{
  String, ◌||◌, Option, none, some, lookup, ◌≡◌, refl, sym, ◌∙◌, ap, subst, ◌⊎◌, inl, inr, Result,
  ok, err, Bool-cases, Option-cases, ◌==◌, is_empty, trim_prefix,
}
use j_harness.Metrics.{Metrics}
use j_harness.Model.{Job, agent, pipeline, AgentBlueprint, Pipeline}
use j_harness.Engine.Defs.{Registry, set_registry}
use j_harness.Engine.Worker.{Pool, PoolError, submit}
use j_harness.Registry.{Error}
use j_harness.Registry.Load.{load}
use j_harness.Registry.Load.Loaded.{IsLoaded, load-IsLoaded}
use j_harness.Registry.Write.{Written}
use j_harness.Api.Http.{
  Request, Response, BodyError, decode_execute_request, decode_pipeline_request, decode_single,
  split_two, is_allowed,
}
use j_harness.Api.Server.{
  Api, Env, Served, after_submit, new_job, submit_job, execute_decoded, handle_execute_agent,
  first_missing, execute_inputs, execute_mapped, handle_execute_pipeline, execute_route,
  handle_agents, handle_pipelines,
}
use j_harness.Api.Entries.{
  RegistryEnv, after_load, after_write, mutate, write_agent, write_pipeline_entry, checked,
  by_method, read_agent, read_pipeline, write_allowed, is_some, handle_registry_agent,
  handle_registry_pipeline, entry_route, handle_registry,
}
use j_harness.Api.{
  Config, Target, to_health, to_ready, to_metrics, to_agents, to_pipelines, to_sessions,
  to_registry, redirected, nowhere, target_of, dispatch, serve,
}

module _ {F S W D : Type 0} where
  -- The snapshots stay as they are, or both are replaced by one that was just loaded.
  abbrev Moves : Api F S W D → Api F S W D → Type 0
  Moves a b =
      ((b.engine ≡ a.engine) × (b.registry ≡ a.registry))
      ⊎ ((b.engine ≡ set_registry (some b.registry) a.engine) × IsLoaded b.registry)

  after_submit-Moves :
      (id : String) (a : Api F S W D) (r : Result PoolError (Unit {0}) × Pool S W)
      → Moves a (after_submit id a r).1
  after_submit-Moves id a (ok u, p) = inl (refl, refl)
  after_submit-Moves id a (err e, p) = inl (refl, refl)

  execute_route-Moves :
      (execute : String → Api F S W D → Served F S W D) (r : Request) (o : Option (String × String))
      (a : Api F S W D)
      → ((id : String) → Moves a (execute id a).1)
      → Moves a (execute_route execute r o a).1
  execute_route-Moves execute r none a h = inl (refl, refl)
  execute_route-Moves execute r (some (id, action)) a h = elim (Bool-cases (action == "execute")) [
    | inr other ↦ rw other (inl (refl, refl))
    | inl exec ↦ rw exec (elim (Bool-cases (is_empty id)) [
      | inl no_id ↦ rw no_id (inl (refl, refl))
      | inr named ↦ rw named (elim (Bool-cases (r.method == "POST")) [
        | inl post ↦ rw post (h id)
        | inr else_ ↦ rw else_ (inl (refl, refl))
      ])
    ])
  ]

module _ {F S W D : Type 0} (env : Env F S) where
  submit_job-Moves : (job : Job) (a : Api F S W D) → Moves a (submit_job env job a).1
  unfolding submit_job
  submit_job-Moves job a = after_submit-Moves job.session_id a (submit env.store job a.pool)

  execute_agent-Moves :
      (r : Request) (id : String) (a : Api F S W D) → Moves a (handle_execute_agent env r id a).1
  unfolding handle_execute_agent
  execute_agent-Moves r id a = elim (Option-cases (lookup id a.registry.blueprints)) [
    | inl missing ↦ rw (missing, handle_execute_agent) (inl (refl, refl))
    | inr (bp, found) ↦
        rw (found, handle_execute_agent)
          (elim (decode_execute_request env.ends env.decode_input r.body)
            as (λ d. Moves a (execute_decoded env (env.fresh r) id d a).1) [
              | err e ↦ inl (refl, refl)
              | ok input ↦ submit_job-Moves (new_job (env.fresh r) agent id input) a
            ])
  ]

  execute_pipeline-Moves :
      (r : Request) (id : String) (a : Api F S W D) → Moves a (handle_execute_pipeline env r id a).1
  unfolding handle_execute_pipeline
  execute_pipeline-Moves r id a = elim (Option-cases (lookup id a.registry.pipelines)) [
    | inl missing ↦ rw (missing, handle_execute_pipeline) (inl (refl, refl))
    | inr (p, found) ↦
        rw (found, handle_execute_pipeline)
          (elim (decode_pipeline_request env.ends env.decode_inputs r.body)
            as (λ d. Moves a (execute_mapped env (env.fresh r) p id d a).1) [
              | err e ↦ inl (refl, refl)
              | ok inputs ↦
                  elim (first_missing inputs p.inputs)
                    as (λ m. Moves a (execute_inputs env (env.fresh r) id inputs m a).1) [
                      | some name ↦ inl (refl, refl)
                      | none ↦
                          submit_job-Moves
                            (new_job (env.fresh r) pipeline id (env.encode_inputs inputs)) a
                    ]
            ])
  ]

module _ {F S W D : Type 0} (entries : RegistryEnv F D) where
  open entries use {lib, disk}

  after_load-Moves :
      (r : Result Error (Registry F)) (a : Api F S W D)
      → ((reg : Registry F) → r ≡ ok reg → IsLoaded reg)
      → Moves a (after_load entries r a).1
  unfolding after_load
  after_load-Moves (err e) a h = inl (refl, refl)
  after_load-Moves (ok reg) a h = inr (refl, h reg refl)

  after_write-Moves : (w : Written D) (a : Api F S W D) → Moves a (after_write entries w a).1
  unfolding after_write
  after_write-Moves (some e, w) a = inl (refl, refl)
  after_write-Moves (none, w) a =
      after_load-Moves (load lib (disk.files w)) (record a { disk = w })
        (load-IsLoaded lib (disk.files w))

  write_agent-Moves :
      (id : String) (r : Result BodyError (AgentBlueprint F × String)) (a : Api F S W D)
      → Moves a (write_agent entries id r a).1
  unfolding write_agent mutate
  write_agent-Moves id (err e) a = inl (refl, refl)
  write_agent-Moves id (ok (bp, prompt)) a = elim (Bool-cases (bp.id == id)) [
    | inl same ↦ rw same (after_write-Moves _ a)
    | inr other ↦ rw other (inl (refl, refl))
  ]

  write_pipeline-Moves :
      (id : String) (r : Result BodyError (Pipeline F)) (a : Api F S W D)
      → Moves a (write_pipeline_entry entries id r a).1
  unfolding write_pipeline_entry mutate
  write_pipeline-Moves id (err e) a = inl (refl, refl)
  write_pipeline-Moves id (ok p) a = elim (Bool-cases (p.pipeline_id == id)) [
    | inl same ↦ rw same (after_write-Moves _ a)
    | inr other ↦ rw other (inl (refl, refl))
  ]

  by_method-Moves :
      (method : String) (read : Response F) (refused : Option (Response F)) (write : Served F S W D)
      (a : Api F S W D)
      → Moves a write.1
      → Moves a (by_method entries method read (checked entries refused write a) a).1
  by_method-Moves method read refused write a h = elim (Bool-cases (method == "GET")) [
    | inl get ↦ rw get (inl (refl, refl))
    | inr other ↦ rw other (elim (Bool-cases (method == "POST" || method == "PUT")) [
      | inr unknown_ ↦ rw unknown_ (inl (refl, refl))
      | inl writes ↦ rw writes (elim refused as (λ o. Moves a (checked entries o write a).1) [
        | none ↦ h
        | some resp ↦ inl (refl, refl)
      ])
    ])
  ]

  registry_agent-Moves :
      (reg : Registry F) (r : Request) (id : String) (a : Api F S W D)
      → Moves a (handle_registry_agent entries reg r id a).1
  unfolding handle_registry_agent
  registry_agent-Moves reg r id a =
      let d = decode_single entries.ends entries.decode_agent r.body in
      by_method-Moves r.method (read_agent entries id reg (lookup id reg.blueprints))
        (write_allowed entries r.method id (is_some (lookup id reg.blueprints)))
        (write_agent entries id d a) a (write_agent-Moves id d a)

  registry_pipeline-Moves :
      (reg : Registry F) (r : Request) (id : String) (a : Api F S W D)
      → Moves a (handle_registry_pipeline entries reg r id a).1
  unfolding handle_registry_pipeline
  registry_pipeline-Moves reg r id a =
      let d = decode_single entries.ends entries.decode_pipeline r.body in
      by_method-Moves r.method (read_pipeline entries id (lookup id reg.pipelines))
        (write_allowed entries r.method id (is_some (lookup id reg.pipelines)))
        (write_pipeline_entry entries id d a) a (write_pipeline-Moves id d a)

  entry_route-Moves :
      (reg : Registry F) (r : Request) (rest : String) (o : Option (String × String))
      (a : Api F S W D)
      → Moves a (entry_route entries reg r rest o a).1
  unfolding entry_route
  entry_route-Moves reg r rest none a = inl (refl, refl)
  entry_route-Moves reg r rest (some (kind, id)) a = elim (Bool-cases (is_empty id)) [
    | inl no_id ↦ rw no_id (inl (refl, refl))
    | inr named ↦ rw named (elim (Bool-cases (kind == "agents")) [
      | inl agents_ ↦ rw agents_ (registry_agent-Moves reg r id a)
      | inr other ↦ rw other (elim (Bool-cases (kind == "pipelines")) [
        | inl pipelines_ ↦ rw pipelines_ (registry_pipeline-Moves reg r id a)
        | inr unknown_ ↦ rw unknown_ (inl (refl, refl))
      ])
    ])
  ]

module _ {F S W D : Type 0} (cfg : Config) (env : Env F S) (entries : RegistryEnv F D)
    (print : Metrics → String) where
  dispatch-Moves :
      (t : Target) (r : Request) (a : Api F S W D)
      → Moves a (dispatch cfg env entries print t r a).1
  unfolding dispatch handle_agents handle_pipelines handle_registry
  dispatch-Moves to_health r a = inl (refl, refl)
  dispatch-Moves to_ready r a = inl (refl, refl)
  dispatch-Moves to_metrics r a = inl (refl, refl)
  dispatch-Moves to_agents r a =
      execute_route-Moves (handle_execute_agent env r) r
        (split_two (trim_prefix r.path "/v1/agents/")) a (λ id. execute_agent-Moves env r id a)
  dispatch-Moves to_pipelines r a =
      execute_route-Moves (handle_execute_pipeline env r) r
        (split_two (trim_prefix r.path "/v1/pipelines/")) a
        (λ id. execute_pipeline-Moves env r id a)
  dispatch-Moves to_sessions r a = inl (refl, refl)
  dispatch-Moves to_registry r a =
      entry_route-Moves entries a.registry r (trim_prefix r.path "/v1/registry/")
        (split_two (trim_prefix r.path "/v1/registry/")) a
  dispatch-Moves redirected r a = inl (refl, refl)
  dispatch-Moves nowhere r a = inl (refl, refl)

  serve-Moves : (r : Request) (a : Api F S W D) → Moves a (serve cfg env entries print r a).1
  unfolding serve
  serve-Moves r a = elim (Bool-cases (is_allowed cfg.auth r)) [
    | inl allowed ↦ rw allowed (dispatch-Moves (target_of cfg.is_clean r.path) r a)
    | inr refused ↦ rw refused (inl (refl, refl))
  ]

  -- What happens to the state: a request is served, the pool works, or the files change from outside.
  pub data Step : Api F S W D → Api F S W D → Type 0 where
    request : (r : Request) (a : Api F S W D) → Step a (serve cfg env entries print r a).1
    work : (p : Pool S W) (a : Api F S W D) → Step a (record a { pool = p })
    edit : (d : D) (a : Api F S W D) → Step a (record a { disk = d })

  pub data Reach (start : Api F S W D) : Api F S W D → Type 0 where
    here : Reach start start
    next : {a b : Api F S W D} → Reach start a → Step a b → Reach start b

  -- One registry that Load accepted is what the handlers and the engine see.
  abbrev pub Synced : Api F S W D → Type 0
  Synced a = (a.engine.registry ≡ a.registry) × IsLoaded a.registry

  Moves-Synced : (a b : Api F S W D) → Moves a b → Synced a → Synced b
  unfolding set_registry
  Moves-Synced a b (inl (e, r)) v =
      (ap (λ t. t.registry) e ∙ v.0 ∙ sym r, subst IsLoaded (sym r) v.1)
  Moves-Synced a b (inr (e, l)) v = (ap (λ t. t.registry) e, l)

  Step-Synced : {a b : Api F S W D} → Step a b → Synced a → Synced b
  Step-Synced (request r a) v =
      Moves-Synced a (serve cfg env entries print r a).1 (serve-Moves r a) v
  Step-Synced (work p a) v = v
  Step-Synced (edit d a) v = v

  -- In every state that is reached by served requests, by work of the pool and by edits of the
  -- files from outside, in any order, from a state in which the API and the engine have the same
  -- registry and it is one that satisfies what Load promises, this is so again: a write through the
  -- API replaces both snapshots by one registry that Load has accepted, or neither.
  pub Reach-Synced : (start a : Api F S W D) → Reach start a → Synced start → Synced a
  Reach-Synced start a here v = v
  Reach-Synced start a (next {a = b} r s) v = Step-Synced s (Reach-Synced start b r v)
