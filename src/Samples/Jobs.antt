-- ===== src/Samples/Jobs.antt =====
-- Tests of the pool of workers, over the SQLite store.
use j_harness.Base.{ℕ, String, Bool, true, false, none, [], ◌∷◌, ◌≡◌, ◌⊎◌, refl, ok, err, ◌==◌, ap}
use j_harness.Model.{Job, pending, running, completed, is_pending}
use j_harness.Store.{updated, update_found, IsReliable}
use j_harness.Store.Sqlite.{
  Db, create_job, get_job, sqlite, set_job_status, append_step_result, list_jobs_by_status,
}
use j_harness.Store.Laws.{sqlite-StoreLaws, sqlite-IsReliable}
use j_harness.Engine.Defs.{Error}
use j_harness.Engine.Worker.{Pool, queue_full, submit, requeue_orphans, run, worker_step, execute}
use j_harness.Engine.Worker.Lifecycle.{run-isolated, run-lifecycle, marked, end_status}
use j_harness.Engine.Worker.Queue.{
  Submitted, submit-Submitted, is_running, requeue_orphans-not_running,
}
use j_harness.Samples.{lib, clock, render, engine, world, job, empty_db}

abbrev message : Error → String
message e = "failed"

abbrev order : ℕ → ℕ
order n = 0

abbrev pub empty_pool : Pool Db ℕ
empty_pool = record { store = empty_db; queue = []; capacity = 1; closed = false; state = world }

abbrev pool : Pool Db ℕ
pool = (submit (sqlite 7) job empty_pool).1

-- A second submission finds the queue full: the job is stored and not queued.
submit-full :
    ((submit (sqlite 8) (record job { session_id = "s2" }) pool).0 ≡ err queue_full)
    × ((submit (sqlite 8) (record job { session_id = "s2" }) pool).1.queue ≡ "s1" ∷ [])
unfolding submit create_job
submit-full = (refl, refl)

worker_step-pool :
    get_job "s1" (worker_step lib clock render message order engine (sqlite 7) pool).store
    ≡ ok (record job { status = completed; result = "{}" })
unfolding submit create_job worker_step get_job set_job_status append_step_result
worker_step-pool = refl

submit-Submitted_example : Submitted (sqlite 7) job empty_pool (submit (sqlite 7) job empty_pool)
submit-Submitted_example = submit-Submitted (sqlite 7) (sqlite-StoreLaws 7) job empty_pool

run-isolated_example :
    ((j : String)
      → "s1" == j ≡ false
      → get_job j (run lib clock render message order engine (sqlite 7) "s1" pool).store
        ≡ get_job j pool.store)
    × (((x : Job) → get_job "s1" pool.store ≡ ok x → is_pending x.status ≡ false)
        → run lib clock render message order engine (sqlite 7) "s1" pool ≡ pool)
run-isolated_example =
    run-isolated lib clock render message order engine (sqlite 7) (sqlite-StoreLaws 7) "s1" pool

abbrev stored_job : Job
stored_job = record job { status = pending }

job-stored : get_job "s1" pool.store ≡ ok stored_job
unfolding submit create_job get_job
job-stored = refl

run-lifecycle_example :
    let (result, text) =
      (execute lib clock render message order engine
        (sqlite 7)
        stored_job
        (marked (sqlite 7) "s1" pool)).0 in
    let p' = run lib clock render message order engine (sqlite 7) "s1" pool in
    (get_job "s1" p'.store ≡ ok (updated (end_status text) result text stored_job))
    × (run lib clock render message order engine (sqlite 7) "s1" p' ≡ p')
run-lifecycle_example =
    run-lifecycle lib clock render message order engine (sqlite 7) (sqlite-StoreLaws 7) "s1" pool
      stored_job job-stored refl (sqlite-IsReliable 7)

-- A job that a process which died left behind.
abbrev orphan_pool : Pool Db ℕ
orphan_pool = record empty_pool {
  store = record empty_db {
    jobs = record { job = record job { status = running }; created_at = 3 } ∷ [];
  };
}

abbrev takes : String → Bool
takes id = true

orphan-requeued : (requeue_orphans (sqlite 7) takes orphan_pool).0 ≡ (1, none)
unfolding requeue_orphans list_jobs_by_status set_job_status
orphan-requeued = refl

orphan-no_error : (requeue_orphans (sqlite 7) takes orphan_pool).0.1 ≡ none
orphan-no_error = ap (λ r. r.1) orphan-requeued

requeue_orphans-not_running_example :
    let after = get_job "s1" (requeue_orphans (sqlite 7) takes orphan_pool).1.store in
    (is_running after ≡ false)
    × ((after ≡ get_job "s1" orphan_pool.store)
        ⊎ (after ≡ update_found pending "" "" (get_job "s1" orphan_pool.store)))
requeue_orphans-not_running_example =
    requeue_orphans-not_running (sqlite 7) (sqlite-StoreLaws 7) (sqlite-IsReliable 7) takes
      orphan_pool orphan-no_error "s1"

sqlite-IsReliable_example : IsReliable (sqlite 7)
sqlite-IsReliable_example = sqlite-IsReliable 7
