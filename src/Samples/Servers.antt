-- ===== src/Samples/Servers.antt =====
-- Tests of the Redis store over a server that keeps the commands that wrote to it.
use j_harness.Base.{
  String, false, Option, none, some, List, [], ◌∷◌, ◌++◌, ◌≡◌, ◌⊎◌, inl, inr, refl, ap, Result, ok,
  err, if◌then◌else◌, ◌==◌, eq_iff, arith, Map, lookup, insert, lookup-insert, Bool-cases, ◌&&◌,
}
use j_harness.Model.{completed, StepResult}
use j_harness.Store.{or_pending, update_found, not_found, already_exists}
use j_harness.Store.Redis.Wire.{ReplyOf, integer, array, no_more, more}
use j_harness.Store.Redis.Wire.Numbers.{plus}
use j_harness.Store.Redis.Fields.{Codec, Times, kind_of, kind_text}
use j_harness.Store.Redis.Jobs.{Server, get_job, create_job, set_job_status, append_step_result}
use j_harness.Store.Redis.Jobs.Contract.{
  flat, IsHash, or_nil, set_all, effect, effects, Same, ServerLaws,
}
use j_harness.Store.Redis.Jobs.Kept.{get-writes}
use j_harness.Samples.{job}

-- The commands that wrote, the first one first
abbrev Log : Type 0
Log = List (List String)

unfoldable hash : Log → String → Map String
unfolding effects
hash log key = effects log key []

abbrev ask : List String → Log → Result String (ReplyOf String)
unfolding hash flat
ask (name ∷ key ∷ a ∷ b ∷ []) log =
    if name == "HMGET"
    then ok (
        array (
          more (or_nil (lookup a (hash log key)))
            (more (or_nil (lookup b (hash log key))) no_more)))
    else err "unknown"
ask (name ∷ key ∷ []) log =
    if name == "HGETALL" then ok (array (flat (hash log key))) else err "unknown"
ask _ log = err "unknown"

abbrev claim : String → String → String → Option String → Log → Result String (ReplyOf String) × Log
claim key name val none log = (ok (integer (plus 1)), log ++ ("HSET" ∷ key ∷ name ∷ val ∷ []) ∷ [])
claim key name val (some old) log = (ok (integer (plus 0)), log)

abbrev act : List String → Log → Result String (ReplyOf String) × Log
unfolding hash
act (op ∷ key ∷ name ∷ val ∷ []) log =
    if op == "HSETNX"
    then claim key name val (lookup name (hash log key)) log
    else (err "unknown", log)
act _ log = (ok (integer (plus 1)), log)

abbrev server : Server Log
server = record { query = ask; command = act; transact = λ cmds log. (ok no_more, log ++ cmds) }

insert-IsHash : (name val : String) (m : Map String) → IsHash m → IsHash (insert name val m)
unfolding IsHash insert lookup
insert-IsHash name val [] h = (refl, tt)
insert-IsHash name val ((at, old) ∷ m) h = elim (Bool-cases (at == name)) [
  | inl same ↦ rw same h
  | inr other ↦
      let absent : lookup at (insert name val m) ≡ none =
        ground (arith, lookup-insert name at val m, eq_iff at name, eq_iff name at, h.0, other) in
      rw other (absent, insert-IsHash name val m h.1)
]

set_all-IsHash : (args : List String) (m : Map String) → IsHash m → IsHash (set_all args m)
unfolding set_all
set_all-IsHash [] m h = h
set_all-IsHash (a ∷ []) m h = h
set_all-IsHash (name ∷ val ∷ args) m h =
    set_all-IsHash args (insert name val m) (insert-IsHash name val m h)

effect-IsHash :
    (cmd : List String) (key : String) (m : Map String) → IsHash m → IsHash (effect cmd key m)
unfolding effect
effect-IsHash [] key m h = h
effect-IsHash (a ∷ []) key m h = h
effect-IsHash (name ∷ at ∷ args) key m h = elim (Bool-cases (name == "HSET" && at == key)) [
  | inl here ↦ rw here (set_all-IsHash args m h)
  | inr there ↦ rw there h
]

effects-IsHash : (log : Log) (key : String) (m : Map String) → IsHash m → IsHash (effects log key m)
unfolding effects
effects-IsHash [] key m h = h
effects-IsHash (cmd ∷ log) key m h =
    effects-IsHash log key (effect cmd key m) (effect-IsHash cmd key m h)

effects-append :
    (log cmds : Log) (key : String) (m : Map String)
    → effects (log ++ cmds) key m ≡ effects cmds key (effects log key m)
unfolding effects
effects-append [] cmds key m = refl
effects-append (cmd ∷ log) cmds key m = effects-append log cmds key (effect cmd key m)

claim-on :
    (log : Log) (key name val : String) (r : ReplyOf String) (o : Option String)
    → (claim key name val o log).0 ≡ ok r
    → ((o ≡ none)
        × (r ≡ integer (plus 1))
        × ((k : String)
            → Same
                (hash (claim key name val o log).1 k)
                (if key == k then insert name val (hash log k) else hash log k)))
      ⊎ (r ≡ integer (plus 0))
unfolding hash effects effect set_all
claim-on log key name val r none h = inl (
  refl,
  cc h,
  λ k o. ap (lookup o) (effects-append log (("HSET" ∷ key ∷ name ∷ val ∷ []) ∷ []) k []),
)
claim-on log key name val r (some old) h = inr (cc h)

server-ServerLaws : ServerLaws server hash
unfolding hash IsHash ask
server-ServerLaws = record {
  is_hash = λ log key. effects-IsHash log key [] tt;
  hgetall = λ log key. refl;
  hmget = λ log key a b r h. cc h;
  incr = λ log key r h k o. refl;
  hsetnx = λ log key name val r. claim-on log key name val r (lookup name (hash log key));
  rpush = λ log key val k o. refl;
  exec = λ log cmds rs w h k o. ap (lookup o) (effects-append log cmds k []);
}

abbrev codec : Codec
codec = record {
  format = λ n. "1";
  parse = λ t. (plus 1, false);
  marshal_step = λ r. ok r.step_id;
  unmarshal_step = λ t. err t;
}

abbrev times : Times
times = record { now = "2026-01-01T00:00:00Z"; nanoseconds = plus 9 }

abbrev created : Log
unfolding create_job
created = (create_job server codec times "jh:" job []).1

create_job-twice :
    (get_job server codec times "jh:" "s1" created
      ≡ ok (record job { status = or_pending job.status }))
    × (get_job server codec times "jh:" "s2" created ≡ err not_found)
    × ((create_job server codec times "jh:" job created).0 ≡ err already_exists)
unfolding create_job get_job ask
create_job-twice = (refl, refl, refl)

job-created : (create_job server codec times "jh:" job []).0 ≡ ok tt
unfolding create_job act lookup
job-created = refl

job-set : (set_job_status server codec times "jh:" "s1" completed "r" "" created).0 ≡ ok tt
unfolding create_job set_job_status ask
job-set = refl

abbrev step : StepResult
step = record {
  session_id = "s1";
  step_id = "a";
  status = completed;
  output = "";
  error = "";
  tokens = 0;
  duration_ms = 0;
}

kind-kept : kind_of (kind_text job.kind) ≡ job.kind
unfolding kind_of
kind-kept = refl

get-writes_example :
    (get_job server codec times "jh:" "s1" (create_job server codec times "jh:" job []).1
      ≡ ok (record job { status = or_pending job.status }))
    × (get_job server codec times "jh:" "s1"
          (set_job_status server codec times "jh:" "s1" completed "r" "" created).1
        ≡ update_found completed "r" "" (get_job server codec times "jh:" "s1" created))
    × (get_job server codec times "jh:" "s1"
          (append_step_result server codec times "jh:" step created).1
        ≡ get_job server codec times "jh:" "s1" created)
get-writes_example =
    get-writes server-ServerLaws codec times "jh:" job "s1" completed "r" "" step [] created created
      "s1" kind-kept job-created job-set
