-- ===== src/Store/Redis/Fields.antt =====
-- internal/store/redis/redis.go: how a job and a step result are kept as texts. A Go string is a
-- String here; on the wire it is its bytes.
use j_harness.Base.{
  zero, String, Bool, true, false, List, [], ◌∷◌, Result, ok, err, if◌then◌else◌, ◌==◌, is_empty,
  trim_space, Map, lookup, insert, get_or,
}
use j_harness.Model.{
  Job, JobKind, agent, pipeline, other_kind, JobStatus, unset, pending, running, completed, failed,
  canceled, skipped, StepResult,
}
use j_harness.Store.{Error, not_found, database}
use j_harness.Store.Redis.Wire.{
  ReplyOf, simple, bulk, integer, array, nil_bulk, nil_array, RepliesOf, more,
}
use j_harness.Store.Redis.Wire.Numbers.{Integer, plus}
use j_harness.Store.Redis.Conn.{text_of}

-- `strconv.FormatInt`; `strconv.ParseInt`, with its value and whether there is an error; and the JSON
-- of a step result
pub record Codec : Type 0 where
  pub format : Integer → String
  pub parse : String → Integer × Bool
  pub marshal_step : StepResult → Result String String
  pub unmarshal_step : String → Result String StepResult

-- The times that a call reads: as RFC 3339, and in nanoseconds.
pub record Times : Type 0 where
  pub now : String
  pub nanoseconds : Integer

abbrev pub status_text : JobStatus → String
status_text unset = ""
status_text pending = "PENDING"
status_text running = "RUNNING"
status_text completed = "COMPLETED"
status_text failed = "FAILED"
status_text canceled = "CANCELED"
status_text skipped = "SKIPPED"

-- A text that no status has counts as unset.
unfoldable pub status_of : String → JobStatus
status_of t =
    if t == "PENDING"
    then pending
    else if t == "RUNNING"
    then running
    else if t == "COMPLETED"
    then completed
    else if t == "FAILED"
    then failed
    else if t == "CANCELED"
    then canceled
    else if t == "SKIPPED"
    then skipped
    else unset

abbrev pub kind_text : JobKind → String
kind_text agent = "agent"
kind_text pipeline = "pipeline"
kind_text (other_kind t) = t

unfoldable pub kind_of : String → JobKind
kind_of t = if t == "agent" then agent else if t == "pipeline" then pipeline else other_kind t

-- `reply.int64`, with whether there is an error
abbrev pub int64 : Codec → ReplyOf String → Integer × Bool
int64 codec (integer n) = (n, false)
int64 codec (bulk t) = codec.parse (trim_space t)
int64 codec (simple t) = codec.parse (trim_space t)
int64 codec _ = (plus 0, true)

abbrev pub is_zero : Integer → Bool
is_zero (plus zero) = true
is_zero _ = false

unfoldable pub pairs : RepliesOf String → Map String → Map String
unfolding insert
pairs (more k (more v rs)) m = pairs rs (insert (text_of "" k) (text_of "" v) m)
pairs _ m = m

-- `hashToMap`
unfoldable pub hash_to_map : ReplyOf String → Result String (Map String)
unfolding pairs
hash_to_map nil_bulk = ok []
hash_to_map nil_array = ok []
hash_to_map (array rs) = ok (pairs rs [])
hash_to_map _ = err "expected array reply"

-- `f[name]`
unfoldable pub field : String → Map String → String
unfolding lookup
field name m = get_or "" (lookup name m)

unfoldable pub job_from_fields : Map String → Job
unfolding field kind_of status_of
job_from_fields m = record {
  session_id = field "session_id" m;
  kind = kind_of (field "kind" m);
  target_id = field "target_id" m;
  status = status_of (field "status" m);
  input = field "input" m;
  result = field "result" m;
  error = field "error" m;
}

unfoldable pub found : Result String (Map String) → Result Error Job
unfolding job_from_fields
found (err e) = err (database e)
found (ok []) = err not_found
found (ok (f ∷ fields)) = ok (job_from_fields (f ∷ fields))

unfoldable pub decoded : Result String (ReplyOf String) → Result Error Job
unfolding hash_to_map found
decoded (err e) = err (database e)
decoded (ok r) = found (hash_to_map r)

-- `scoreOrDefault`
abbrev pub score_or_default : Codec → Times → List String → String
score_or_default codec times (old ∷ score ∷ vals) =
    if is_empty score then codec.format times.nanoseconds else score
score_or_default codec times _ = codec.format times.nanoseconds
