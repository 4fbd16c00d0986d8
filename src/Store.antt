-- ===== src/Store.antt =====
-- internal/store: the contract of a store of jobs and step results, and its SQLite implementation.
pub mod Sqlite
pub mod Redis
pub mod Laws
use j_harness.Base.{
  String, Bool, true, false, List, [], ◌∷◌, ◌≡◌, Result, ok, err, if◌then◌else◌, ◌==◌, elem, map,
}
use j_harness.Model.{Job, JobStatus, unset, pending, same_status, StepResult}

pub data Error : Type 0 where
  session_id_required not_found already_exists : Error
  -- a failure of the database
  database : String → Error

-- store.go: the operations of a store with state `S` that the engine calls.
pub record Store (S : Type 0) : Type 0 where
  pub create_job : Job → S → Result Error (Unit {0}) × S
  pub get_job : String → S → Result Error Job
  pub set_job_status :
      String → JobStatus → (result error : String) → S → Result Error (Unit {0}) × S
  pub list_jobs_by_status : JobStatus → S → Result Error (List Job)
  pub append_step_result : StepResult → S → Result Error (Unit {0}) × S

-- The job after an update of its status and outcome.
abbrev pub updated : JobStatus → String → String → Job → Job
updated status result error job = record job { status = status; result = result; error = error }

abbrev pub update_found : JobStatus → String → String → Result Error Job → Result Error Job
update_found status result error (ok job) = ok (updated status result error job)
update_found status result error (err e) = err e

abbrev pub or_pending : JobStatus → JobStatus
or_pending unset = pending
or_pending status = status

-- What the engine relies on: a job that was created is what the next read returns; a successful
-- update is seen by the next read of that job and of no
-- other, and a failed one, or a step result, changes no job.
pub record StoreLaws {S : Type 0} (st : Store S) : Type 0 where
  pub create-ok :
      (job : Job) (s : S)
      → (st.create_job job s).0 ≡ ok tt
      → (j : String)
      → st.get_job j (st.create_job job s).1 ≡ (
          if job.session_id == j
          then ok (record job { status = or_pending job.status })
          else st.get_job j s)
  pub create-err :
      (job : Job) (s : S) (e : Error)
      → (st.create_job job s).0 ≡ err e
      → (j : String) → st.get_job j (st.create_job job s).1 ≡ st.get_job j s
  pub set-ok :
      (id : String) (status : JobStatus) (result error : String) (s : S)
      → (st.set_job_status id status result error s).0 ≡ ok tt
      → (j : String)
      → st.get_job j (st.set_job_status id status result error s).1
        ≡ (if id == j then update_found status result error (st.get_job j s) else st.get_job j s)
  pub set-err :
      (id : String) (status : JobStatus) (result error : String) (s : S) (e : Error)
      → (st.set_job_status id status result error s).0 ≡ err e
      → (j : String) → st.get_job j (st.set_job_status id status result error s).1 ≡ st.get_job j s
  pub append-get :
      (r : StepResult) (s : S) (j : String)
      → st.get_job j (st.append_step_result r s).1 ≡ st.get_job j s

-- A store whose database never fails: an update of a job that is there succeeds, and a list by
-- status succeeds and has every job of that status.
pub record IsReliable {S : Type 0} (st : Store S) : Type 0 where
  pub set-found :
      (id : String) (status : JobStatus) (result error : String) (s : S) (job : Job)
      → st.get_job id s ≡ ok job
      → (st.set_job_status id status result error s).0 ≡ ok tt
  pub list-complete :
      (status : JobStatus) (s : S)
      → (jobs : List Job) × (st.list_jobs_by_status status s ≡ ok jobs)
        × ((j : String) (job : Job)
            → st.get_job j s ≡ ok job
            → same_status job.status status ≡ true
            → elem j (map (λ k. k.session_id) jobs) ≡ true)
