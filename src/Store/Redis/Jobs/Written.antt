-- ===== src/Store/Redis/Jobs/Written.antt =====
-- internal/store/redis/redis.go: the hashes behind CreateJob and SetJobStatus.
use j_harness.Store.Redis.Conn.{strings, text_of}
use Prim.Native.String.{◌++◌ as str_append}
use j_harness.Base.{
  String, Bool, true, false, ◌||◌, some, List, [], ◌∷◌, ◌≡◌, ◌≢◌, inl, inr, refl, sym, ap, subst,
  ◌∙◌, Result, ok, err, if◌then◌else◌, ◌==◌, arith, All, Map, lookup, insert, Bool-cases,
  Result-cases, is_empty, trim_space, Option-cases,
}
use j_harness.Model.{Job, JobStatus}
use j_harness.Store.{Error, or_pending, not_found}
use j_harness.Store.Redis.Wire.{ReplyOf, integer}
use j_harness.Store.Redis.Wire.Numbers.{Integer, plus}
use j_harness.Store.Redis.Fields.{Codec, Times, int64, is_zero, found, status_text}
use j_harness.Store.Redis.Jobs.{
  Server, job_key, then_do, done, claimed, numbered, create_job, set_job_status, create_cmds,
  set_cmds, missing, after_values, after_read,
}
use j_harness.Store.Redis.Jobs.Contract.{
  Same, effect, ServerLaws, IsWrite, set_all, effects, or_nil,
}
use j_harness.Store.Redis.Jobs.Decoded.{get_job-hash}
use j_harness.Store.Redis.Jobs.Rewritten.{
  insert-Same, set_all-Same, create_args, set_args, effects-create,
}

pub done-ok :
    {S A : Type 0} (r : Result String A × S)
    → (done r).0 ≡ ok tt
    → (a : A) × (r.0 ≡ ok a) × ((done r).1 ≡ r.1)
done-ok (ok a, s) h = (a, refl, refl)
done-ok (err e, s) h = ground (arith, h)

then_do-ok :
    {S A : Type 0} (r : Result String A × S) (go_on : A → S → Result Error (Unit {0}) × S)
    → (then_do r go_on).0 ≡ ok tt
    → (a : A) × (r.0 ≡ ok a) × (then_do r go_on ≡ go_on a r.1)
then_do-ok (ok a, s) go_on h = (a, refl, refl)
then_do-ok (err e, s) go_on h = ground (arith, h)

-- HSETNX and the transaction, one behind the other, on one hash
written-Same :
    (at : Bool) (args : List String) (name val : String) (m m1 m2 : Map String)
    → Same m1 (if at then insert name val m else m)
    → Same m2 (if at then set_all args m1 else m1)
    → Same m2 (if at then set_all args (insert name val m) else m)
written-Same false args name val m m1 m2 a b other = b other ∙ a other
written-Same true args name val m m1 m2 a b other =
    b other ∙ set_all-Same args m1 (insert name val m) a other

-- INCR in front of them
written-base :
    (at : Bool) (args : List String) (name val : String) (m m1 m2 : Map String)
    → Same m1 m
    → Same m2 (if at then set_all args (insert name val m1) else m1)
    → Same m2 (if at then set_all args (insert name val m) else m)
written-base false args name val m m1 m2 a b other = b other ∙ a other
written-base true args name val m m1 m2 a b other =
    b other
    ∙ set_all-Same args (insert name val m1) (insert name val m) (insert-Same name val m1 m a) other

module _ {S : Type 0} {srv : Server S} {hash : S → String → Map String} (laws : ServerLaws srv hash)
    (codec : Codec) (times : Times) (pfx : String) where
  exec-Same :
      (cmds : List (List String)) (s : S)
      → All IsWrite cmds
      → (done (srv.transact cmds s)).0 ≡ ok tt
      → (k : String) → Same (hash (done (srv.transact cmds s)).1 k) (effects cmds k (hash s k))
  exec-Same cmds s w h k =
      let (rs, good, e) = done-ok (srv.transact cmds s) h in rw e (laws.exec s cmds rs w good k)

  -- The hash of a claimed job, once the transaction succeeded
  claimed-Same :
      (job : Job) (seq : Integer) (claim : ReplyOf String) (s : S)
      → (claimed srv codec times pfx job seq claim s).0 ≡ ok tt
      → (k : String)
      → Same (hash (claimed srv codec times pfx job seq claim s).1 k) (
          if job_key pfx job.session_id == k
          then set_all (create_args codec times job seq) (hash s k)
          else hash s k)
  claimed-Same job seq claim s h k = elim (Bool-cases (is_zero (int64 codec claim).0)) [
    | inl zero ↦ ground (arith, rw zero at h)
    | inr one ↦
        let cmds = create_cmds codec times pfx job seq in
        rw one (
          subst (λ m. Same (hash (done (srv.transact cmds s)).1 k) m)
            (effects-create codec times pfx job seq k (hash s k))
            (exec-Same cmds s (refl, (refl, tt)) (rw one at h) k))
  ]

  claimed-fresh :
      (job : Job) (seq : Integer) (claim : ReplyOf String) (s : S)
      → claim ≡ integer (plus 0)
      → (claimed srv codec times pfx job seq claim s).0 ≢ ok tt
  claimed-fresh job seq claim s zero h = ground (arith, rw zero at h)

  numbered-Same :
      (job : Job) (n : Integer × Bool) (s : S)
      → (numbered srv codec times pfx job n s).0 ≡ ok tt
      → (k : String)
      → Same (hash (numbered srv codec times pfx job n s).1 k) (
          if job_key pfx job.session_id == k
          then set_all
              (create_args codec times job n.0)
              (insert "session_id" job.session_id (hash s k))
          else hash s k)
  numbered-Same job (seq, true) s h k = ground (arith, h)
  numbered-Same job (seq, false) s h k =
      let key = job_key pfx job.session_id in
      let r = srv.command ("HSETNX" ∷ key ∷ "session_id" ∷ job.session_id ∷ []) s in
      let (claim, good, e) = then_do-ok r (claimed srv codec times pfx job seq) h in
      let h' : (claimed srv codec times pfx job seq claim r.1).0 ≡ ok tt =
        sym (ap (λ a. a.0) e) ∙ h in
      elim (laws.hsetnx s key "session_id" job.session_id claim good) [
        | inl (absent, one, same) ↦ rw e (
            written-Same (key == k) (create_args codec times job seq) "session_id" job.session_id
              (hash s k) (hash r.1 k) (hash (claimed srv codec times pfx job seq claim r.1).1 k)
              (same k) (claimed-Same job seq claim r.1 h' k))
        | inr zero ↦ elim (claimed-fresh job seq claim r.1 zero h') [ ]
      ]

  pub create_job-Same :
      (job : Job) (s : S)
      → (create_job srv codec times pfx job s).0 ≡ ok tt
      → (seq : Integer) × ((k : String)
          → Same (hash (create_job srv codec times pfx job s).1 k) (
              if job_key pfx job.session_id == k
              then set_all
                  (create_args codec times (record job { status = or_pending job.status }) seq)
                  (insert "session_id" job.session_id (hash s k))
              else hash s k))
  unfolding create_job
  create_job-Same job s h = elim (Bool-cases (is_empty (trim_space job.session_id))) [
    | inl blank ↦ ground (arith, rw blank at h)
    | inr real ↦
        let job' = record job { status = or_pending job.status } in
        let r = srv.command ("INCR" ∷ str_append pfx "seq" ∷ []) s in
        let (n, good, e) =
          then_do-ok r (λ a. numbered srv codec times pfx job' (int64 codec a)) (rw real at h) in
        let h' : (numbered srv codec times pfx job' (int64 codec n) r.1).0 ≡ ok tt =
          sym (ap (λ a. a.0) e) ∙ (rw real at h) in
        let t = (numbered srv codec times pfx job' (int64 codec n) r.1).1 in
        (
          (int64 codec n).0,
          λ k.
              rw (real, e)
                (written-base (job_key pfx job.session_id == k)
                  (create_args codec times job' (int64 codec n).0) "session_id" job.session_id
                  (hash s k) (hash r.1 k) (hash t k) (laws.incr s (str_append pfx "seq") n good k)
                  (numbered-Same job' (int64 codec n) r.1 h' k)),
        )
  ]

  All-set_cmds :
      (id : String) (status : JobStatus) (result error old : String) (vals : List String)
      → All IsWrite (set_cmds srv codec times pfx id status result error old vals)
  All-set_cmds id status result error old vals =
      elim (Bool-cases (is_empty old || old == status_text status)) [
        | inl same ↦ rw same (refl, tt)
        | inr other ↦ rw other (refl, (refl, (refl, tt)))
      ]

  effects-set :
      (id : String) (status : JobStatus) (result error old : String) (vals : List String)
      (k : String) (m : Map String)
      → effects (set_cmds srv codec times pfx id status result error old vals) k m
        ≡ (if job_key pfx id == k then set_all (set_args times status result error) m else m)
  unfolding effects effect
  effects-set id status result error old vals k m =
      elim (Bool-cases (is_empty old || old == status_text status)) [
        | inl same ↦ rw same refl
        | inr other ↦ rw other refl
      ]

  -- The job that is looked for where it may be missing
  missing-some :
      (id : String) (s : S)
      → hash s (job_key pfx id) ≡ []
      → missing srv codec times pfx id ("" ∷ "" ∷ []) s ≡ some not_found
  unfolding missing found
  missing-some id s h = rw (get_job-hash laws codec times pfx id s, h) refl

  after_values-Same :
      (id : String) (status : JobStatus) (result error old : String) (vals : List String) (s : S)
      → (after_values srv codec times pfx id status result error (old ∷ vals) s).0 ≡ ok tt
      → (k : String)
      → Same (hash (after_values srv codec times pfx id status result error (old ∷ vals) s).1 k) (
          if job_key pfx id == k
          then set_all (set_args times status result error) (hash s k)
          else hash s k)
  unfolding after_values
  after_values-Same id status result error old vals s h k =
      elim (Option-cases (missing srv codec times pfx id (old ∷ vals) s)) [
        | inr (e, v) ↦ ground (arith, rw v at h)
        | inl v ↦
            let cmds = set_cmds srv codec times pfx id status result error old (old ∷ vals) in
            rw v (
              subst (λ m. Same (hash (done (srv.transact cmds s)).1 k) m)
                (effects-set id status result error old (old ∷ vals) k (hash s k))
                (exec-Same cmds s (All-set_cmds id status result error old (old ∷ vals)) (rw v at h)
                  k))
      ]

  after_values-missing :
      (id : String) (status : JobStatus) (result error : String) (s : S)
      → hash s (job_key pfx id) ≡ []
      → (after_values srv codec times pfx id status result error ("" ∷ "" ∷ []) s).0 ≢ ok tt
  unfolding after_values
  after_values-missing id status result error s empty h =
      ground (arith, rw (missing-some id s empty) at h)

  -- The two values that are read
  abbrev old_values : String → S → List String
  old_values id s =
      text_of "" (or_nil (lookup "status" (hash s (job_key pfx id))))
      ∷ text_of "" (or_nil (lookup "seq" (hash s (job_key pfx id))))
      ∷ []

  set_job_status-values :
      (id : String) (status : JobStatus) (result error : String) (s : S)
      → (set_job_status srv codec times pfx id status result error s).0 ≡ ok tt
      → set_job_status srv codec times pfx id status result error s
        ≡ after_values srv codec times pfx id status result error (old_values id s) s
  unfolding set_job_status after_read strings lookup
  set_job_status-values id status result error s h =
      let key = job_key pfx id in
      elim (Result-cases (srv.query ("HMGET" ∷ key ∷ "status" ∷ "seq" ∷ []) s)) [
        | inr (e, v) ↦ ground (arith, rw v at h)
        | inl (r, v) ↦
            ap (λ q. after_read srv codec times pfx id status result error q s) v
            ∙ ap (λ q. after_values srv codec times pfx id status result error (strings "" q) s)
                (laws.hmget s key "status" "seq" r v)
      ]

  pub set_job_status-Same :
      (id : String) (status : JobStatus) (result error : String) (s : S)
      → (set_job_status srv codec times pfx id status result error s).0 ≡ ok tt
      → (hash s (job_key pfx id) ≢ [])
        × ((k : String)
            → Same (hash (set_job_status srv codec times pfx id status result error s).1 k) (
                if job_key pfx id == k
                then set_all (set_args times status result error) (hash s k)
                else hash s k))
  unfolding lookup
  set_job_status-Same id status result error s h =
      let e = set_job_status-values id status result error s h in
      let h' = sym (ap (λ a. a.0) e) ∙ h in
      let old = text_of "" (or_nil (lookup "status" (hash s (job_key pfx id)))) in
      let score = text_of "" (or_nil (lookup "seq" (hash s (job_key pfx id)))) in
      (
        λ empty. after_values-missing id status result error s empty (
            subst
              (λ m.
                (after_values srv codec times pfx id status result error
                  (text_of "" (or_nil (lookup "status" m))
                    ∷ text_of "" (or_nil (lookup "seq" m))
                    ∷ [])
                  s).0
                ≡ ok tt)
              empty h'),
        λ k. rw e (after_values-Same id status result error old (score ∷ []) s h' k),
      )
