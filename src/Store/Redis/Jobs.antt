-- ===== src/Store/Redis/Jobs.antt =====
-- internal/store/redis/redis.go: the operations of RedisStore, over a server.
pub mod Contract
pub mod Decoded
pub mod Kept
pub mod Rewritten
pub mod Written
use Prim.Native.String.{◌++◌ as str_append}
use j_harness.Base.{
  ℕ, zero, suc, String, Bool, true, false, ◌&&◌, ◌||◌, Option, none, some, List, [], ◌∷◌, ◌++◌,
  Result, ok, err, if◌then◌else◌, ◌==◌, not, is_empty, trim_space,
}
use j_harness.Model.{Job, JobStatus, StepResult}
use j_harness.Store.{
  Store, Error, session_id_required, not_found, already_exists, database, or_pending,
}
use j_harness.Store.Redis.Wire.{ReplyOf, RepliesOf}
use j_harness.Store.Redis.Wire.Numbers.{Integer}
use j_harness.Store.Redis.Conn.{strings}
use j_harness.Store.Redis.Fields.{
  Codec, Times, status_text, kind_text, int64, is_zero, decoded, score_or_default,
}

-- The server as `cmd` and `multi` show it: commands that read, commands that write, and transactions.
-- An error is its text.
pub record Server (S : Type 0) : Type 0 where
  pub query : List String → S → Result String (ReplyOf String)
  pub command : List String → S → Result String (ReplyOf String) × S
  pub transact : List (List String) → S → Result String (RepliesOf String) × S

abbrev pub job_key : String → String → String
job_key pfx id = str_append pfx (str_append "job:" id)

abbrev pub status_key : String → JobStatus → String
status_key pfx status = str_append pfx (str_append "jobs:" (status_text status))

abbrev pub steps_key : String → String → String
steps_key pfx id = str_append pfx (str_append "steps:" id)

-- One call, and what follows it where it gave no error
abbrev pub then_do :
    {S A B : Type 0} → Result String A × S → (A → S → Result Error B × S) → Result Error B × S
then_do (err e, s) go_on = (err (database e), s)
then_do (ok a, s) go_on = go_on a s

abbrev pub done : {S A : Type 0} → Result String A × S → Result Error (Unit {0}) × S
done (err e, s) = (err (database e), s)
done (ok a, s) = (ok tt, s)

-- The commands that write a new job
abbrev pub create_cmds : Codec → Times → String → Job → Integer → List (List String)
create_cmds codec times pfx job seq =
    ("HSET"
      ∷ job_key pfx job.session_id
      ∷ "kind"
      ∷ kind_text job.kind
      ∷ "target_id"
      ∷ job.target_id
      ∷ "status"
      ∷ status_text job.status
      ∷ "input"
      ∷ job.input
      ∷ "result"
      ∷ job.result
      ∷ "error"
      ∷ job.error
      ∷ "seq"
      ∷ codec.format seq
      ∷ "created_at"
      ∷ times.now
      ∷ "updated_at"
      ∷ times.now
      ∷ [])
    ∷ ("ZADD" ∷ status_key pfx job.status ∷ codec.format seq ∷ job.session_id ∷ [])
    ∷ []

module _ {S : Type 0} (srv : Server S) (codec : Codec) (times : Times) (pfx : String) where
  abbrev pub claimed : Job → Integer → ReplyOf String → S → Result Error (Unit {0}) × S
  claimed job seq claim s =
      if is_zero (int64 codec claim).0
      then (err already_exists, s)
      else done (srv.transact (create_cmds codec times pfx job seq) s)

  abbrev pub numbered : Job → Integer × Bool → S → Result Error (Unit {0}) × S
  numbered job (seq, true) s = (err (database "no number"), s)
  numbered job (seq, false) s =
      then_do
        (srv.command ("HSETNX" ∷ job_key pfx job.session_id ∷ "session_id" ∷ job.session_id ∷ []) s)
        (claimed job seq)

  -- `CreateJob`
  unfoldable pub create_job : Job → S → Result Error (Unit {0}) × S
  unfolding trim_space
  create_job job s =
      if is_empty (trim_space job.session_id)
      then (err session_id_required, s)
      else then_do (srv.command ("INCR" ∷ str_append pfx "seq" ∷ []) s)
          (λ r. numbered (record job { status = or_pending job.status }) (int64 codec r))

  -- `GetJob`
  unfoldable pub get_job : String → S → Result Error Job
  unfolding decoded
  get_job id s = decoded (srv.query ("HGETALL" ∷ job_key pfx id ∷ []) s)

  -- The job is looked for where it may be missing.
  unfoldable pub missing : String → List String → S → Option Error
  unfolding get_job
  missing id (old ∷ score ∷ vals) s =
      let job = get_job id s in
      if is_empty old && is_empty score then elim job [ err e ↦ some e | ok _ ↦ none ] else none
  missing id _ s = elim (get_job id s) [ err e ↦ some e | ok _ ↦ none ]

  -- The commands of `SetJobStatus`
  abbrev pub set_cmds :
      String → JobStatus → String → String → String → List String → List (List String)
  set_cmds id status result error old vals =
      ("HSET"
        ∷ job_key pfx id
        ∷ "status"
        ∷ status_text status
        ∷ "result"
        ∷ result
        ∷ "error"
        ∷ error
        ∷ "updated_at"
        ∷ times.now
        ∷ [])
      ∷ (if is_empty old || old == status_text status
          then []
          else ("ZREM" ∷ str_append pfx (str_append "jobs:" old) ∷ id ∷ [])
            ∷ ("ZADD" ∷ status_key pfx status ∷ score_or_default codec times vals ∷ id ∷ [])
            ∷ [])

  -- `vals[0]` of no values is a panic in Go.
  abbrev pub write_status :
      String → JobStatus → String → String → List String → S → Result Error (Unit {0}) × S
  write_status id status result error [] s = (err (database "index out of range"), s)
  write_status id status result error (old ∷ vals) s =
      done (srv.transact (set_cmds id status result error old (old ∷ vals)) s)

  abbrev pub or_write : Option Error → Result Error (Unit {0}) × S → S → Result Error (Unit {0}) × S
  or_write (some e) written s = (err e, s)
  or_write none written s = written

  unfoldable pub after_values :
      String → JobStatus → String → String → List String → S → Result Error (Unit {0}) × S
  unfolding missing
  after_values id status result error vals s =
      or_write (missing id vals s) (write_status id status result error vals s) s

  unfoldable pub after_read :
      String
      → JobStatus
      → String
      → String
      → Result String (ReplyOf String)
      → S
      → Result Error (Unit {0}) × S
  unfolding after_values strings
  after_read id status result error (err e) s = (err (database e), s)
  after_read id status result error (ok r) s = after_values id status result error (strings "" r) s

  -- `SetJobStatus`
  unfoldable pub set_job_status :
      String → JobStatus → (result error : String) → S → Result Error (Unit {0}) × S
  unfolding after_read
  set_job_status id status result error s =
      after_read id status result error
        (srv.query ("HMGET" ∷ job_key pfx id ∷ "status" ∷ "seq" ∷ []) s) s

  abbrev pub collect : Result Error Job → Result Error (List Job) → Result Error (List Job)
  collect (ok job) (ok jobs) = ok (job ∷ jobs)
  collect (ok job) (err e) = err e
  collect (err not_found) rest = rest
  collect (err e) rest = err e

  unfoldable pub get_all : List String → S → Result Error (List Job)
  unfolding get_job
  get_all [] s = ok []
  get_all (id ∷ ids) s = collect (get_job id s) (get_all ids s)

  -- `ListJobsByStatus`
  unfoldable pub list_jobs_by_status : JobStatus → S → Result Error (List Job)
  unfolding get_all strings
  list_jobs_by_status status s =
      elim (srv.query ("ZRANGE" ∷ status_key pfx status ∷ "0" ∷ "-1" ∷ []) s) [
        | err e ↦ err (database e)
        | ok r ↦ get_all (strings "" r) s
      ]

  unfoldable pub push_step : String → Result String String → S → Result Error (Unit {0}) × S
  push_step id (err e) s = (err (database e), s)
  push_step id (ok raw) s = done (srv.command ("RPUSH" ∷ steps_key pfx id ∷ raw ∷ []) s)

  -- `AppendStepResult`
  unfoldable pub append_step_result : StepResult → S → Result Error (Unit {0}) × S
  unfolding push_step
  append_step_result r s = push_step r.session_id (codec.marshal_step r) s

  abbrev pub before :
      Result String StepResult → Result Error (List StepResult) → Result Error (List StepResult)
  before (err e) rest = err (database e)
  before (ok r) (ok rs) = ok (r ∷ rs)
  before (ok r) (err e) = err e

  unfoldable pub decode_steps : List String → Result Error (List StepResult)
  decode_steps [] = ok []
  decode_steps (item ∷ items) = before (codec.unmarshal_step item) (decode_steps items)

  -- `ListStepResults`
  unfoldable pub list_step_results : String → S → Result Error (List StepResult)
  unfolding decode_steps strings
  list_step_results id s = elim (srv.query ("LRANGE" ∷ steps_key pfx id ∷ "0" ∷ "-1" ∷ []) s) [
    | err e ↦ err (database e)
    | ok r ↦ decode_steps (strings "" r)
  ]

  abbrev pub redis : Store S
  redis = record {
    create_job = create_job;
    get_job = get_job;
    set_job_status = set_job_status;
    list_jobs_by_status = list_jobs_by_status;
    append_step_result = append_step_result;
  }
