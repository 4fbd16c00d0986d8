-- ===== src/Store/Redis/Jobs/Rewritten.antt =====
-- internal/store/redis/redis.go: the fields of a job behind the commands that write them.
use j_harness.Base.{
  String, some, List, [], ◌∷◌, ◌≡◌, refl, sym, ap, ◌∙◌, if◌then◌else◌, ◌==◌, Map, insert,
  lookup-insert,
}
use j_harness.Model.{Job, JobStatus}
use j_harness.Store.{updated}
use j_harness.Store.Redis.Wire.Numbers.{Integer}
use j_harness.Store.Redis.Fields.{
  Codec, Times, status_text, kind_text, kind_of, field, job_from_fields,
}
use j_harness.Store.Redis.Jobs.{job_key, create_cmds}
use j_harness.Store.Redis.Jobs.Contract.{set_all, effect, effects, Same}
use j_harness.Store.Redis.Jobs.Decoded.{status_of-text}

pub insert-Same :
    (name val : String) (m m' : Map String)
    → Same m m'
    → Same (insert name val m) (insert name val m')
insert-Same name val m m' h other =
    lookup-insert name other val m
    ∙ ap (λ o. if name == other then some val else o) (h other)
    ∙ sym (lookup-insert name other val m')

pub set_all-Same :
    (args : List String) (m m' : Map String) → Same m m' → Same (set_all args m) (set_all args m')
unfolding set_all
set_all-Same [] m m' h = h
set_all-Same (a ∷ []) m m' h = h
set_all-Same (name ∷ val ∷ args) m m' h =
    set_all-Same args (insert name val m) (insert name val m') (insert-Same name val m m' h)

abbrev pub create_args : Codec → Times → Job → Integer → List String
create_args codec times job seq =
    "kind"
    ∷ kind_text job.kind
    ∷ "target_id"
    ∷ job.target_id
    ∷ "status"
    ∷ status_text job.status
    ∷ "input"
    ∷ job.input
    ∷ "result"
    ∷ job.result
    ∷ "error"
    ∷ job.error
    ∷ "seq"
    ∷ codec.format seq
    ∷ "created_at"
    ∷ times.now
    ∷ "updated_at"
    ∷ times.now
    ∷ []

abbrev pub set_args : Times → JobStatus → String → String → List String
set_args times status result error =
    "status"
    ∷ status_text status
    ∷ "result"
    ∷ result
    ∷ "error"
    ∷ error
    ∷ "updated_at"
    ∷ times.now
    ∷ []

pub effects-create :
    (codec : Codec) (times : Times) (pfx : String) (job : Job) (seq : Integer) (k : String)
    (m : Map String)
    → effects (create_cmds codec times pfx job seq) k m
      ≡ (if job_key pfx job.session_id == k then set_all (create_args codec times job seq) m else m)
unfolding effects effect
effects-create codec times pfx job seq k m = refl

pub job_from_fields-create :
    (codec : Codec) (times : Times) (job : Job) (seq : Integer) (m : Map String)
    → kind_of (kind_text job.kind) ≡ job.kind
    → job_from_fields
        (set_all (create_args codec times job seq) (insert "session_id" job.session_id m))
      ≡ job
unfolding job_from_fields field set_all
job_from_fields-create codec times job seq m h = simp (lookup-insert, h, status_of-text job.status)

pub job_from_fields-set :
    (times : Times) (status : JobStatus) (result error : String) (m : Map String)
    → job_from_fields (set_all (set_args times status result error) m)
      ≡ updated status result error (job_from_fields m)
unfolding job_from_fields field set_all
job_from_fields-set times status result error m = simp (lookup-insert, status_of-text status)
