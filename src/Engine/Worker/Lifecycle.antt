-- ===== src/Engine/Worker/Lifecycle.antt =====
-- The life of a job in the pool: which jobs `run` touches, and how it leaves them.
use j_harness.Base.{
  ℕ, String, true, false, List, [], ◌∷◌, ◌≡◌, refl, sym, ◌∙◌, ap, Result, ok, err, Result-cases,
  Bool-cases, inl, inr, if◌then◌else◌, is_empty, ◌==◌, eq_refl,
}
use j_harness.Json.{GoLib}
use j_harness.Model.{
  Job, JobKind, agent, pipeline, other_kind, JobStatus, running, completed, failed, is_pending,
}
use j_harness.Schema.Defs.{Error as SchemaError}
use j_harness.Store.{Store, Error as StoreError, StoreLaws, IsReliable, updated}
use j_harness.Engine.Defs.{Engine, Error}
use j_harness.Engine.Pipeline.Admit.{StepOutcome}
use j_harness.Engine.Worker.{
  Pool, append_all, pipeline_step, execute, execute_kind, settle, on_running, on_loaded, run,
}

-- The pool while the job runs.
abbrev pub marked : {S W : Type 0} → Store S → String → Pool S W → Pool S W
marked st id p = record p { store = (st.set_job_status id running "" "" p.store).1 }

-- The status that `run` stores for an error message.
abbrev pub end_status : String → JobStatus
end_status text = if is_empty text then completed else failed

is_empty→eq : (s : String) → is_empty s ≡ true → s ≡ ""
is_empty→eq String.[] h = refl
is_empty→eq (String.◌∷◌ c s) h = cc

end_status-not_pending : (text : String) → is_pending (end_status text) ≡ false
end_status-not_pending text = elim (Bool-cases (is_empty text)) [
  | inl h ↦ rw h refl
  | inr h ↦ rw h refl
]

abbrev the_job : Job → Result StoreError Job
the_job a = ok a

ok-not_pending :
    (a b : Job) → the_job a ≡ ok b → is_pending b.status ≡ false → is_pending a.status ≡ false
ok-not_pending a b h n = cc

module _ {F W S : Type 0} (lib : GoLib F) (clock : W → ℕ) (render : SchemaError → String)
    (message : Error → String) (schedule : ℕ → ℕ) (e : Engine F W) (st : Store S)
    (laws : StoreLaws st) where
  append_all-get :
      (job : Job) (outs : List StepOutcome) (s : S) (j : String)
      → st.get_job j (append_all lib clock render message schedule e st job outs s) ≡ st.get_job j s
  unfolding append_all
  append_all-get job [] s j = refl
  append_all-get job (out ∷ outs) s j =
      let r = pipeline_step message job out in
      append_all-get job outs (st.append_step_result r s).1 j ∙ laws.append-get r s j

  execute_kind-get :
      (kind : JobKind) (job : Job) (p : Pool S W) (j : String)
      → st.get_job j (execute_kind lib clock render message schedule e st kind job p).1.store
        ≡ st.get_job j p.store
  execute_kind-get agent job p j = laws.append-get _ p.store j
  execute_kind-get pipeline job p j = append_all-get job _ p.store j
  execute_kind-get (other_kind kind) job p j = refl

  -- Running a job's agent or pipeline changes no job of the store.
  execute-get :
      (job : Job) (p : Pool S W) (j : String)
      → st.get_job j (execute lib clock render message schedule e st job p).1.store
        ≡ st.get_job j p.store
  unfolding execute
  execute-get job p j = execute_kind-get job.kind job p j

  -- An update of a job, whatever the store answers, leaves the others alone.
  set-other :
      (id : String) (status : JobStatus) (result error : String) (s : S) (j : String)
      → id == j ≡ false
      → st.get_job j (st.set_job_status id status result error s).1 ≡ st.get_job j s
  set-other id status result error s j n =
      elim (Result-cases (st.set_job_status id status result error s).0) [
        | inl (u, done) ↦ laws.set-ok id status result error s done j ∙ rw n refl
        | inr (x, bad) ↦ laws.set-err id status result error s x bad j
      ]

  settle-other :
      (id : String) (out : (String × String) × Pool S W) (j : String)
      → id == j ≡ false
      → st.get_job j (settle lib clock render message schedule e st id out).store
        ≡ st.get_job j out.1.store
  settle-other id ((result, text), p) j n = elim (Bool-cases (is_empty text)) [
    | inl h ↦ rw h (set-other id completed result "" p.store j n)
    | inr h ↦ rw h (set-other id failed result text p.store j n)
  ]

  on_running-other :
      (id : String) (job : Job) (r : Result StoreError (Unit {0}) × S) (p : Pool S W) (j : String)
      → id == j ≡ false
      → st.get_job j (on_running lib clock render message schedule e st id job r p).store
        ≡ st.get_job j r.1
  on_running-other id job (err x, s) p j n = refl
  on_running-other id job (ok u, s) p j n =
      settle-other id (execute lib clock render message schedule e st job (record p { store = s }))
        j n
      ∙ execute-get job (record p { store = s }) j

  on_loaded-other :
      (id : String) (r : Result StoreError Job) (p : Pool S W) (j : String)
      → id == j ≡ false
      → st.get_job j (on_loaded lib clock render message schedule e st id r p).store
        ≡ st.get_job j p.store
  on_loaded-other id (err x) p j n = refl
  on_loaded-other id (ok job) p j n = elim (Bool-cases (is_pending job.status)) [
    | inl h ↦ rw h (
        on_running-other id job (st.set_job_status id running "" "" p.store) p j n
        ∙ set-other id running "" "" p.store j n)
    | inr h ↦ rw h refl
  ]

  -- With a store that keeps its contract, the run of one job by a worker changes no other job of
  -- the store, whatever the store and the backend answer; and a job that is not there, or not
  -- PENDING, is not run: nothing changes at all.
  pub run-isolated :
      (id : String) (p : Pool S W)
      → ((j : String)
          → id == j ≡ false
          → st.get_job j (run lib clock render message schedule e st id p).store
            ≡ st.get_job j p.store)
        × (((job : Job) → st.get_job id p.store ≡ ok job → is_pending job.status ≡ false)
            → run lib clock render message schedule e st id p ≡ p)
  unfolding run
  run-isolated id p = (
    λ j n. on_loaded-other id (st.get_job id p.store) p j n,
    λ idle. elim (Result-cases (st.get_job id p.store)) [
      | inl (job, found) ↦ rw found (rw (idle job found) refl)
      | inr (x, missing) ↦ rw missing refl
    ],
  )

  -- The job after a successful update.
  set-same :
      (id : String) (status : JobStatus) (result error : String) (s : S) (job : Job)
      → st.get_job id s ≡ ok job
      → IsReliable st
      → st.get_job id (st.set_job_status id status result error s).1
        ≡ ok (updated status result error job)
  set-same id status result error s job found reliable =
      laws.set-ok id status result error s (reliable.set-found id status result error s job found)
        id
      ∙ rw (eq_refl id) (rw found refl)

  settle-same :
      (id : String) (result text : String) (p : Pool S W) (job : Job)
      → st.get_job id p.store ≡ ok job
      → IsReliable st
      → st.get_job id (settle lib clock render message schedule e st id ((result, text), p)).store
        ≡ ok (updated (end_status text) result text job)
  settle-same id result text p job found reliable = elim (Bool-cases (is_empty text)) [
    | inl h ↦ rw h (
        set-same id completed result "" p.store job found reliable
        ∙ ap (λ t. ok (updated completed result t job)) (sym (is_empty→eq text h)))
    | inr h ↦ rw h (set-same id failed result text p.store job found reliable)
  ]

  on_running-ok :
      (id : String) (job : Job) (r : Result StoreError (Unit {0}) × S) (p : Pool S W)
      → r.0 ≡ ok tt
      → on_running lib clock render message schedule e st id job r p
        ≡ settle lib clock render message schedule e st id
            (execute lib clock render message schedule e st job (record p { store = r.1 }))
  on_running-ok id job (ok u, s) p h = refl
  on_running-ok id job (err x, s) p h = cc

  run-pending :
      (id : String) (p : Pool S W) (job : Job)
      → st.get_job id p.store ≡ ok job
      → is_pending job.status ≡ true
      → IsReliable st
      → run lib clock render message schedule e st id p
        ≡ settle lib clock render message schedule e st id
            (execute lib clock render message schedule e st job (marked st id p))
  unfolding run
  run-pending id p job found waits reliable =
      rw (found, waits)
        (on_running-ok id job (st.set_job_status id running "" "" p.store) p
          (reliable.set-found id running "" "" p.store job found))

  run-settled :
      (id : String) (p : Pool S W) (job : Job)
      → st.get_job id p.store ≡ ok job
      → is_pending job.status ≡ true
      → IsReliable st
      → let (result, text) =
          (execute lib clock render message schedule e st job (marked st id p)).0 in
        st.get_job id (run lib clock render message schedule e st id p).store
        ≡ ok (updated (end_status text) result text job)
  run-settled id p job found waits reliable =
      let (verdict, after) = execute lib clock render message schedule e st job (marked st id p) in
      rw (run-pending id p job found waits reliable) (
        settle-same id verdict.0 verdict.1 after (updated running "" "" job)
          (execute-get job (marked st id p) id
            ∙ set-same id running "" "" p.store job found reliable)
          reliable)

  -- With a store that keeps its contract and does not fail, a PENDING job that a worker takes is
  -- run once and settled: its record ends as FAILED with the error message if the run gave one, and
  -- as COMPLETED with the result of the run otherwise; to take its id once more changes nothing.
  pub run-lifecycle :
      (id : String) (p : Pool S W) (job : Job)
      → st.get_job id p.store ≡ ok job
      → is_pending job.status ≡ true
      → IsReliable st
      → let (result, text) =
          (execute lib clock render message schedule e st job (marked st id p)).0 in
        let p' = run lib clock render message schedule e st id p in
        (st.get_job id p'.store ≡ ok (updated (end_status text) result text job))
        × (run lib clock render message schedule e st id p' ≡ p')
  run-lifecycle id p job found waits reliable =
      let same = run-settled id p job found waits reliable in
      (
        same,
        (run-isolated id (run lib clock render message schedule e st id p)).1 (λ other h.
            ok-not_pending other (updated _ _ _ job) (sym h ∙ same) (end_status-not_pending _)),
      )
