-- ===== src/Store/Sqlite.antt =====
-- internal/store/sqlite.go: the two tables as lists of rows. A job row carries its creation time;
-- failures of the database itself are not modelled here.
use Prim.Native.String.{compare}
use Prim.Native.Nat.{Ordering, compare as compare_ℕ}
use j_harness.Base.{
  ℕ, String, Bool, true, false, List, [], ◌∷◌, ◌++◌, map, Option, none, some, Result, ok, err,
  if◌then◌else◌, ◌==◌, is_empty, trim_space,
}
use j_harness.Model.{Job, JobStatus, same_status, StepResult}
use j_harness.Store.{
  Store, Error, session_id_required, not_found, already_exists, updated, or_pending,
}

pub record Row : Type 0 where
  pub job : Job
  pub created_at : ℕ

-- The rows of the table jobs in insertion order, and those of step_results.
pub record Db : Type 0 where
  pub jobs : List Row
  pub step_results : List StepResult

-- SELECT … FROM jobs WHERE session_id = ?
unfoldable pub find : String → List Row → Option Row
find id [] = none
find id (row ∷ rows) = if row.job.session_id == id then some row else find id rows

-- INSERT INTO jobs: the primary key refuses a session id that is there. `now` is the time.
unfoldable pub create_job : ℕ → Job → Db → Result Error (Unit {0}) × Db
unfolding find trim_space
create_job now job db =
    if is_empty (trim_space job.session_id)
    then (err session_id_required, db)
    else elim (find job.session_id db.jobs) [
      | some row ↦ (err already_exists, db)
      | none ↦ (
        ok tt,
        record db {
          jobs =
              db.jobs
              ++ record { job = record job { status = or_pending job.status }; created_at = now }
                ∷ [];
        },
      )
    ]

abbrev pub found : Option Row → Result Error Job
found none = err not_found
found (some row) = ok row.job

unfoldable pub get_job : String → Db → Result Error Job
unfolding find
get_job id db = found (find id db.jobs)

-- UPDATE jobs SET … WHERE session_id = ?
unfoldable pub update : String → JobStatus → String → String → List Row → List Row
update id status result error [] = []
update id status result error (row ∷ rows) =
    (if row.job.session_id == id
      then record row { job = updated status result error row.job }
      else row)
    ∷ update id status result error rows

unfoldable pub set_job_status :
    String → JobStatus → String → String → Db → Result Error (Unit {0}) × Db
unfolding find update
set_job_status id status result error db = elim (find id db.jobs) [
  | none ↦ (err not_found, db)
  | some row ↦ (ok tt, record db { jobs = update id status result error db.jobs })
]

-- ORDER BY created_at, session_id
abbrev pub before : Row → Row → Bool
before a b = elim (compare_ℕ a.created_at b.created_at) [
  | Ordering.lt ↦ true
  | Ordering.gt ↦ false
  | Ordering.eq ↦ elim (compare a.job.session_id b.job.session_id) [
    | Ordering.gt ↦ false
    | _ ↦ true
  ]
]

unfoldable pub insert_sorted : Row → List Row → List Row
insert_sorted row [] = row ∷ []
insert_sorted row (r ∷ rows) = if before row r then row ∷ r ∷ rows else r ∷ insert_sorted row rows

-- WHERE status = ?
abbrev pub has_status : JobStatus → Row → Bool
has_status status row = same_status row.job.status status

unfoldable pub select_status : JobStatus → List Row → List Row
unfolding insert_sorted
select_status status [] = []
select_status status (row ∷ rows) =
    let rest = select_status status rows in
    if has_status status row then insert_sorted row rest else rest

unfoldable pub list_jobs_by_status : JobStatus → Db → Result Error (List Job)
unfolding select_status
list_jobs_by_status status db = ok (map (λ row. row.job) (select_status status db.jobs))

unfoldable pub append_step_result : StepResult → Db → Result Error (Unit {0}) × Db
append_step_result r db = (ok tt, record db { step_results = db.step_results ++ r ∷ [] })

-- SELECT … FROM step_results WHERE session_id = ? ORDER BY id
unfoldable pub list_step_results : String → List StepResult → List StepResult
list_step_results id [] = []
list_step_results id (r ∷ rs) =
    if r.session_id == id then r ∷ list_step_results id rs else list_step_results id rs

-- SQLiteStore as a Store; `now` is the time of the database.
abbrev pub sqlite : ℕ → Store Db
sqlite now = record {
  create_job = create_job now;
  get_job = get_job;
  set_job_status = set_job_status;
  list_jobs_by_status = list_jobs_by_status;
  append_step_result = append_step_result;
}
