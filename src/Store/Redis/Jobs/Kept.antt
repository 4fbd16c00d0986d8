-- ===== src/Store/Redis/Jobs/Kept.antt =====
-- internal/store/redis/redis.go: what is written is what is read.
use j_harness.Base.{
  String, true, false, some, [], ◌∷◌, ◌≡◌, ◌≢◌, inl, inr, refl, sym, ap, subst, ◌∙◌, Result, ok,
  err, if◌then◌else◌, ◌==◌, arith, Map, lookup, insert, lookup-insert, Bool-cases, eq_iff,
}
use j_harness.Model.{Job, JobStatus, StepResult}
use j_harness.Store.{or_pending, update_found}
use j_harness.Store.Redis.Wire.Numbers.{Integer}
use j_harness.Store.Redis.Fields.{Codec, Times, kind_text, kind_of, status_text, found}
use j_harness.Store.Redis.Jobs.{
  Server, job_key, steps_key, done, get_job, create_job, set_job_status, push_step,
  append_step_result,
}
use j_harness.Store.Redis.Jobs.Contract.{Same, ServerLaws, set_all}
use j_harness.Store.Redis.Jobs.Decoded.{
  found-field, found-Same, get_job-hash, get_job-Same, job_key-eq,
}
use j_harness.Store.Redis.Jobs.Rewritten.{
  create_args, set_args, job_from_fields-create, job_from_fields-set,
}
use j_harness.Store.Redis.Jobs.Written.{create_job-Same, set_job_status-Same}

found-create :
    (codec : Codec) (times : Times) (job : Job) (seq : Integer) (m : Map String)
    → kind_of (kind_text job.kind) ≡ job.kind
    → found (ok (set_all (create_args codec times job seq) (insert "session_id" job.session_id m)))
      ≡ ok job
unfolding set_all
found-create codec times job seq m h =
    let new = set_all (create_args codec times job seq) (insert "session_id" job.session_id m) in
    let there : lookup "session_id" new ≡ some job.session_id = simp lookup-insert in
    found-field new "session_id" job.session_id there
    ∙ ap ok (job_from_fields-create codec times job seq m h)

found-set :
    (times : Times) (status : JobStatus) (result error : String) (m : Map String)
    → m ≢ []
    → found (ok (set_all (set_args times status result error) m))
      ≡ update_found status result error (found (ok m))
unfolding set_all found
found-set times status result error [] h = elim (h refl) [ ]
found-set times status result error (f ∷ m) h =
    let new = set_all (set_args times status result error) (f ∷ m) in
    let there : lookup "status" new ≡ some (status_text status) = simp lookup-insert in
    found-field new "status" (status_text status) there
    ∙ ap ok (job_from_fields-set times status result error (f ∷ m))

done-state : {S A : Type 0} (r : Result String A × S) → (done r).1 ≡ r.1
done-state (ok a, s) = refl
done-state (err e, s) = refl

module _ {S : Type 0} {srv : Server S} {hash : S → String → Map String} (laws : ServerLaws srv hash)
    (codec : Codec) (times : Times) (pfx : String) where
  -- A hash that changed at one key, and the jobs that are read
  get_job-at :
      (id j : String) (s t : S) (change : Map String → Map String)
      → Same (hash t (job_key pfx j)) (
          if job_key pfx id == job_key pfx j
          then change (hash s (job_key pfx j))
          else hash s (job_key pfx j))
      → get_job srv codec times pfx j t ≡ (
          if id == j
          then found (ok (change (hash s (job_key pfx j))))
          else get_job srv codec times pfx j s)
  get_job-at id j s t change h =
      let k = job_key pfx j in
      elim (Bool-cases (id == j)) [
        | inl same ↦
            let at : (job_key pfx id == k) ≡ true = job_key-eq pfx id j ∙ same in
            rw same (
              get_job-hash laws codec times pfx j t
              ∙ found-Same (hash t k) (change (hash s k)) (rw at at h))
        | inr other ↦
            let at : (job_key pfx id == k) ≡ false = job_key-eq pfx id j ∙ other in
            rw other (get_job-Same laws codec times pfx j s t (rw at at h))
      ]

  get-create :
      (job : Job) (s : S) (j : String)
      → kind_of (kind_text job.kind) ≡ job.kind
      → (create_job srv codec times pfx job s).0 ≡ ok tt
      → get_job srv codec times pfx j (create_job srv codec times pfx job s).1 ≡ (
          if job.session_id == j
          then ok (record job { status = or_pending job.status })
          else get_job srv codec times pfx j s)
  get-create job s j kind good =
      let (seq, same) = create_job-Same laws codec times pfx job s good in
      let job' = record job { status = or_pending job.status } in
      let change : Map String → Map String =
        λ m. set_all (create_args codec times job' seq) (insert "session_id" job.session_id m) in
      get_job-at job.session_id j s (create_job srv codec times pfx job s).1 change
        (same (job_key pfx j))
      ∙ ap (λ r. if job.session_id == j then r else get_job srv codec times pfx j s)
          (found-create codec times job' seq (hash s (job_key pfx j)) kind)

  get-set :
      (id : String) (status : JobStatus) (result error : String) (s : S) (j : String)
      → (set_job_status srv codec times pfx id status result error s).0 ≡ ok tt
      → get_job srv codec times pfx j
          (set_job_status srv codec times pfx id status result error s).1
        ≡ (if id == j
            then update_found status result error (get_job srv codec times pfx j s)
            else get_job srv codec times pfx j s)
  get-set id status result error s j good =
      let (there, same) = set_job_status-Same laws codec times pfx id status result error s good in
      let t = (set_job_status srv codec times pfx id status result error s).1 in
      get_job-at id j s t (set_all (set_args times status result error)) (same (job_key pfx j))
      ∙ elim (Bool-cases (id == j)) [
        | inr other ↦ rw other refl
        | inl at ↦
            let e : id ≡ j = ground (arith, at, eq_iff id j) in
            rw at (
              found-set times status result error (hash s (job_key pfx j))
                (subst (λ i. hash s (job_key pfx i) ≢ []) e there)
              ∙ ap (update_found status result error) (sym (get_job-hash laws codec times pfx j s)))
      ]

  push-get :
      (id : String) (raw : Result String String) (s : S) (j : String)
      → get_job srv codec times pfx j (push_step srv codec times pfx id raw s).1
        ≡ get_job srv codec times pfx j s
  unfolding push_step
  push-get id (err e) s j = refl
  push-get id (ok raw) s j =
      let key = steps_key pfx id in
      let t = (srv.command ("RPUSH" ∷ key ∷ raw ∷ []) s).1 in
      ap (get_job srv codec times pfx j) (done-state (srv.command ("RPUSH" ∷ key ∷ raw ∷ []) s))
      ∙ get_job-Same laws codec times pfx j s t (laws.rpush s key raw (job_key pfx j))

  append-get :
      (r : StepResult) (s : S) (j : String)
      → get_job srv codec times pfx j (append_step_result srv codec times pfx r s).1
        ≡ get_job srv codec times pfx j s
  unfolding append_step_result
  append-get r = push-get r.session_id (codec.marshal_step r)

  -- Over a server that keeps the documented behaviour of its commands on hashes and answers reads,
  -- but may fail in a write: after a CreateJob without an error the job of its id is read as it was
  -- given, PENDING if it had no status, and each other job as before, if the texts of its kind read
  -- back as that kind; after a SetJobStatus without an error the job of its id is read with the new
  -- status and outcome, and each other job as before; and AppendStepResult changes no job that is
  -- read, also where it fails.
  pub get-writes :
      (job : Job) (id : String) (status : JobStatus) (result error : String) (r : StepResult)
      (s t u : S) (j : String)
      → kind_of (kind_text job.kind) ≡ job.kind
      → (create_job srv codec times pfx job s).0 ≡ ok tt
      → (set_job_status srv codec times pfx id status result error t).0 ≡ ok tt
      → (get_job srv codec times pfx j (create_job srv codec times pfx job s).1 ≡ (
          if job.session_id == j
          then ok (record job { status = or_pending job.status })
          else get_job srv codec times pfx j s))
        × (get_job srv codec times pfx j
              (set_job_status srv codec times pfx id status result error t).1
            ≡ (if id == j
                then update_found status result error (get_job srv codec times pfx j t)
                else get_job srv codec times pfx j t))
        × (get_job srv codec times pfx j (append_step_result srv codec times pfx r u).1
            ≡ get_job srv codec times pfx j u)
  get-writes job id status result error r s t u j kind created set =
      (get-create job s j kind created, get-set id status result error t j set, append-get r u j)
