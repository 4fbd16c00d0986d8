-- ===== src/Engine/Worker/Queue.antt =====
-- Submitting and requeueing: what the pool promises of the store and of its queue.
use j_harness.Base.{
  ℕ, ◌≤◌, ◌<◌, String, Bool, true, false, none, some, List, [], ◌∷◌, ◌++◌, ◌≡◌, ◌≢◌, refl, ◌∙◌,
  Result, ok, err, Result-cases, Bool-cases, inl, inr, ◌⊎◌, if◌then◌else◌, arith, ◌==◌, length,
  ltb→lt, ltb→le, elem, map,
}
use j_harness.Model.{Job, JobStatus, pending, running, same_status}
use j_harness.Store.{Store, Error as StoreError, StoreLaws, IsReliable, update_found, or_pending}
use j_harness.Engine.Worker.{
  Pool, PoolError, queue_full, store_failed, has_room, on_created, submit, enqueue, requeue_all,
  requeue_orphans, add_one,
}

module _ {S : Type 0} (st : Store S) where
  -- The job is in the store, PENDING if it had no status, and no other job of the store changed.
  abbrev pub IsStored : Job → S → S → Type 0
  IsStored job before after =
      (j : String)
      → st.get_job j after ≡ (
          if job.session_id == j
          then ok (record job { status = or_pending job.status })
          else st.get_job j before)

or_pending_idem : (x : JobStatus) → or_pending (or_pending x) ≡ or_pending x
or_pending_idem JobStatus.unset = refl
or_pending_idem pending = refl
or_pending_idem running = refl
or_pending_idem JobStatus.completed = refl
or_pending_idem JobStatus.failed = refl
or_pending_idem JobStatus.canceled = refl
or_pending_idem JobStatus.skipped = refl

abbrev ids_of : List Job → List String
ids_of jobs = map (λ k. k.session_id) jobs

some-ne-none : {A : Type 0} (a : A) → some a ≢ none
some-ne-none a h = cc

reset_idem :
    (r : Result StoreError Job)
    → update_found pending "" "" (update_found pending "" "" r) ≡ update_found pending "" "" r
reset_idem (ok job) = refl
reset_idem (err x) = refl

abbrev pub is_running : Result StoreError Job → Bool
is_running (ok job) = same_status job.status running
is_running (err x) = false

reset-not_running : (r : Result StoreError Job) → is_running (update_found pending "" "" r) ≡ false
reset-not_running (ok job) = refl
reset-not_running (err x) = refl

running-cases :
    (r : Result StoreError Job)
    → (is_running r ≡ false)
      ⊎ ((job : Job) × (r ≡ ok job) × (same_status job.status running ≡ true))
running-cases (err x) = inl refl
running-cases (ok job) = elim (Bool-cases (same_status job.status running)) [
  | inl h ↦ inr (job, refl, h)
  | inr h ↦ inl h
]

module _ {W S : Type 0} (st : Store S) where
  abbrev pub Submitted : Job → Pool S W → Result PoolError (Unit {0}) × Pool S W → Type 0
  Submitted job p (r, p') =
      (r ≡ ok tt)
        × (p'.queue ≡ p.queue ++ job.session_id ∷ [])
        × (length p.queue < p.capacity)
        × IsStored st job p.store p'.store
      ⊎ ((r ≡ err queue_full)
            × (p'.queue ≡ p.queue)
            × (p.capacity ≤ length p.queue)
            × IsStored st job p.store p'.store
          ⊎ ((x : StoreError) × (r ≡ err (store_failed x))
              × (p'.queue ≡ p.queue)
              × ((j : String) → st.get_job j p'.store ≡ st.get_job j p.store)))

  on_created-Submitted :
      (job : Job) (r : Result StoreError (Unit {0}) × S) (p : Pool S W)
      → (r.0 ≡ ok tt → IsStored st job p.store r.1)
      → ((x : StoreError) → r.0 ≡ err x → (j : String) → st.get_job j r.1 ≡ st.get_job j p.store)
      → Submitted job p (on_created job.session_id r p)
  on_created-Submitted job (err x, s) p good bad = inr (inr (x, refl, refl, bad x refl))
  on_created-Submitted job (ok u, s) p good bad = elim (Bool-cases (has_room p)) [
    | inl h ↦ rw h (inl (refl, refl, ltb→lt _ _ h, good refl))
    | inr h ↦ rw h (inr (inl (refl, refl, ltb→le _ _ h, good refl)))
  ]

  -- With a store that keeps its contract, Submit stores a job and queues it where there is room,
  -- stores it and answers that the queue is full where there is none, and where the store refuses
  -- it neither the queue nor a stored job changes.
  pub submit-Submitted :
      StoreLaws st → (job : Job) (p : Pool S W) → Submitted job p (submit st job p)
  unfolding submit
  submit-Submitted laws job p =
      let job' = record job { status = or_pending job.status } in
      on_created-Submitted job (st.create_job job' p.store) p
        (λ h j. laws.create-ok job' p.store h j ∙ rw (or_pending_idem job.status) refl)
        (λ x h j. laws.create-err job' p.store x h j)

  enqueue-store :
      (takes : Bool) (id : String) (p : Pool S W) → (enqueue takes id p).1.store ≡ p.store
  unfolding enqueue
  enqueue-store takes id p = ground arith

  requeue_all-get :
      StoreLaws st
      → (takes : String → Bool) (jobs : List Job) (n : ℕ) (p : Pool S W)
      → (requeue_all st takes jobs n p).0.1 ≡ none
      → (j : String)
      → st.get_job j (requeue_all st takes jobs n p).1.store ≡ (
          if elem j (ids_of jobs)
          then update_found pending "" "" (st.get_job j p.store)
          else st.get_job j p.store)
  unfolding requeue_all elem
  requeue_all-get laws takes [] n p h j = refl
  requeue_all-get laws takes (job ∷ jobs) n p h j =
      let id = job.session_id in
      elim (Result-cases (st.set_job_status id pending "" "" p.store).0) [
        | inr (x, bad) ↦ absurd (some-ne-none x (rw (bad, requeue_all) at h))
        | inl (u, done) ↦
            let p₁ : Pool S W = record p {
              store = (st.set_job_status id pending "" "" p.store).1;
            } in
            let (queued, p₂) = enqueue (takes id) id p₁ in
            let h' : (requeue_all st takes jobs (add_one queued n) p₂).0.1 ≡ none =
              rw (done, requeue_all) at h in
            rw (done, requeue_all)
              (ground (
                arith,
                requeue_all-get laws takes jobs (add_one queued n) p₂ h' j,
                enqueue-store (takes id) id p₁,
                laws.set-ok id pending "" "" p.store done j,
                reset_idem (st.get_job j p.store),
              ))
      ]

  -- With a store that keeps its contract and does not fail, after RequeueOrphans returns without an
  -- error no job of the store is RUNNING: each is as it was, or PENDING with an empty result and
  -- error.
  pub requeue_orphans-not_running :
      StoreLaws st
      → IsReliable st
      → (takes : String → Bool) (p : Pool S W) → (requeue_orphans st takes p).0.1 ≡ none
      → (j : String)
      → let before = st.get_job j p.store in
        let after = st.get_job j (requeue_orphans st takes p).1.store in
        (is_running after ≡ false)
        × ((after ≡ before) ⊎ (after ≡ update_found pending "" "" before))
  unfolding requeue_orphans
  requeue_orphans-not_running laws reliable takes p =
      let (jobs, listed, complete) = reliable.list-complete running p.store in
      rw (listed, requeue_orphans)
        (λ h j.
          let moved = requeue_all-get laws takes jobs 0 p h j in
          elim (Bool-cases (elem j (ids_of jobs))) [
            | inl there ↦ rw moved (rw there (reset-not_running (st.get_job j p.store), inr refl))
            | inr absent ↦ rw moved (
                rw absent (elim (running-cases (st.get_job j p.store)) [
                  | inl idle ↦ (idle, inl refl)
                  | inr (job, found, runs) ↦ absurd (cc (complete j job found runs, absent))
                ]))
          ])
