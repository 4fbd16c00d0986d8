-- ===== src/Api/Accepts.antt =====
-- internal/api/api.go: what a request to execute an agent or a pipeline leaves behind.
use j_harness.Base.{
  String, none, some, [], ◌∷◌, ◌++◌, lookup, ◌≡◌, ◌≢◌, refl, ◌∙◌, ◌⊎◌, inl, inr, Result, ok, err,
  Bool-cases, Option-cases, arith, eq_refl,
}
use j_harness.Model.{JobKind, agent, pipeline}
use j_harness.Store.{StoreLaws, Error as StoreError}
use j_harness.Engine.Worker.{submit, on_created, has_room}
use j_harness.Api.Http.{Request, decode_execute_request, decode_pipeline_request}
use j_harness.Api.Server.{
  Api, Env, Served, after_submit, new_job, submit_job, execute_decoded, handle_execute_agent,
  first_missing, execute_inputs, execute_mapped, handle_execute_pipeline,
}

module _ {F S W D : Type 0} (env : Env F S) where
  open env use {store}

  -- Either the job waits in the store and in the queue, or no job was queued.
  abbrev pub Outcome : JobKind → String → String → Api F S W D → Served F S W D → Type 0
  Outcome kind target id a out =
      ((out.0.status ≡ 202)
        × ((input : String) × (store.get_job id out.1.pool.store
              ≡ ok (new_job id kind target input)))
        × (out.1.pool.queue ≡ a.pool.queue ++ id ∷ []))
      ⊎ ((out.0.status ≢ 202) × (out.1.pool.queue ≡ a.pool.queue))

  stored-Outcome :
      (id : String) (kind : JobKind) (target input : String) (a : Api F S W D)
      (created : Result StoreError (Unit {0}) × S)
      → (created.0 ≡ ok tt → store.get_job id created.1 ≡ ok (new_job id kind target input))
      → Outcome kind target id a (after_submit id a (on_created id created a.pool))
  stored-Outcome id kind target input a (err e, s) h = inr ((λ k. omega (arith, k)), refl)
  stored-Outcome id kind target input a (ok u, s) h = elim (Bool-cases (has_room a.pool)) [
    | inl room ↦ rw room (inl (refl, (input, h refl), refl))
    | inr full ↦ rw full (inr ((λ k. omega (arith, k)), refl))
  ]

  submit_job-Outcome :
      (id : String) (kind : JobKind) (target input : String) (a : Api F S W D)
      → StoreLaws store
      → Outcome kind target id a (submit_job env (new_job id kind target input) a)
  unfolding submit_job submit
  submit_job-Outcome id kind target input a laws =
      let job = new_job id kind target input in
      stored-Outcome id kind target input a (store.create_job job a.pool.store)
        (λ created. laws.create-ok job a.pool.store created id ∙ rw (eq_refl id) refl)

  execute_agent-Outcome :
      (r : Request) (id : String) (a : Api F S W D)
      → StoreLaws store
      → Outcome agent id (env.fresh r) a (handle_execute_agent env r id a)
        × (lookup id a.registry.blueprints ≡ none → (handle_execute_agent env r id a).1 ≡ a)
  unfolding handle_execute_agent
  execute_agent-Outcome r id a laws = elim (Option-cases (lookup id a.registry.blueprints)) [
    | inl missing ↦
        rw (missing, handle_execute_agent) (inr ((λ k. omega (arith, k)), refl), λ h. refl)
    | inr (bp, found) ↦
        rw (found, handle_execute_agent)
          (
            elim (decode_execute_request env.ends env.decode_input r.body)
                as (λ d.
                  Outcome agent id (env.fresh r) a (execute_decoded env (env.fresh r) id d a)) [
                    | err e ↦ inr ((λ k. omega (arith, k)), refl)
                    | ok input ↦ submit_job-Outcome (env.fresh r) agent id input a laws
                  ],
            λ h. cc,
          )
  ]

  execute_pipeline-Outcome :
      (r : Request) (id : String) (a : Api F S W D)
      → StoreLaws store
      → Outcome pipeline id (env.fresh r) a (handle_execute_pipeline env r id a)
        × (lookup id a.registry.pipelines ≡ none → (handle_execute_pipeline env r id a).1 ≡ a)
  unfolding handle_execute_pipeline
  execute_pipeline-Outcome r id a laws = elim (Option-cases (lookup id a.registry.pipelines)) [
    | inl missing ↦
        rw (missing, handle_execute_pipeline) (inr ((λ k. omega (arith, k)), refl), λ h. refl)
    | inr (p, found) ↦
        rw (found, handle_execute_pipeline)
          (
            elim (decode_pipeline_request env.ends env.decode_inputs r.body)
                as (λ d.
                  Outcome pipeline id (env.fresh r) a (execute_mapped env (env.fresh r) p id d a)) [
                    | err e ↦ inr ((λ k. omega (arith, k)), refl)
                    | ok inputs ↦
                        elim (first_missing inputs p.inputs)
                          as (λ m.
                            Outcome pipeline id (env.fresh r) a
                              (execute_inputs env (env.fresh r) id inputs m a)) [
                                | some name ↦ inr ((λ k. omega (arith, k)), refl)
                                | none ↦
                                    submit_job-Outcome (env.fresh r) pipeline id
                                      (env.encode_inputs inputs) a laws
                              ]
                  ],
            λ h. cc,
          )
  ]

  -- Over a store that keeps its contract, a request to execute an agent or a pipeline is answered
  -- with 202 and the job is in the store under its new session id, PENDING, of the kind and with
  -- the target of the request, and its id is the last of the queue; or the answer is another one
  -- and the queue is as it was. An unknown target changes nothing.
  pub execute-Outcome :
      (r : Request) (id : String) (a : Api F S W D)
      → StoreLaws store
      → (Outcome agent id (env.fresh r) a (handle_execute_agent env r id a)
          × (lookup id a.registry.blueprints ≡ none → (handle_execute_agent env r id a).1 ≡ a))
        × (Outcome pipeline id (env.fresh r) a (handle_execute_pipeline env r id a)
            × (lookup id a.registry.pipelines ≡ none → (handle_execute_pipeline env r id a).1 ≡ a))
  execute-Outcome r id a laws =
      (execute_agent-Outcome r id a laws, execute_pipeline-Outcome r id a laws)
