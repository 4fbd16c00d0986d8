-- ===== src/Store/Laws.antt =====
-- The SQLite store keeps the contract that the engine relies on.
use j_harness.Base.{
  ℕ, String, List, [], ◌∷◌, ◌++◌, Option, none, some, ◌≡◌, refl, ok, err, if◌then◌else◌, ◌==◌,
  eq_iff, eq_refl, arith, map, elem, sym, subst, Bool-cases, inl, inr, ◌||◌, true,
}
use j_harness.Model.{Job, JobStatus, same_status}
use j_harness.Store.{
  already_exists, StoreLaws, Error, updated, update_found, or_pending, IsReliable,
}
use j_harness.Store.Sqlite.{
  Row, Db, find, create_job, get_job, update, set_job_status, append_step_result, sqlite,
  has_status, insert_sorted, select_status, list_jobs_by_status, found,
}

abbrev update_row : JobStatus → String → String → Option Row → Option Row
update_row status result error none = none
update_row status result error (some row) =
    some (record row { job = updated status result error row.job })

find-update :
    (id j : String) (status : JobStatus) (result error : String) (rows : List Row)
    → find j (update id status result error rows)
      ≡ (if id == j then update_row status result error (find j rows) else find j rows)
unfolding find update
find-update id j status result error [] = ground arith
find-update id j status result error (row ∷ rows) = ground (
  arith,
  find-update id j status result error rows,
  eq_iff row.job.session_id id,
  eq_iff row.job.session_id j,
  eq_iff id j,
)

get-set_ok :
    (id : String) (status : JobStatus) (result error : String) (s : Db)
    → (set_job_status id status result error s).0 ≡ ok tt
    → (j : String)
    → get_job j (set_job_status id status result error s).1
      ≡ (if id == j then update_found status result error (get_job j s) else get_job j s)
unfolding get_job set_job_status
get-set_ok id status result error s h j =
    ground (arith, find-update id j status result error s.jobs)

get-set_err :
    (id : String) (status : JobStatus) (result error : String) (s : Db) (e : Error)
    → (set_job_status id status result error s).0 ≡ err e
    → (j : String) → get_job j (set_job_status id status result error s).1 ≡ get_job j s
unfolding get_job set_job_status
get-set_err id status result error s e h j = ground arith

find-snoc :
    (j : String) (row : Row) (rows : List Row)
    → find j (rows ++ row ∷ []) ≡ elim (find j rows) [
      | none ↦ if row.job.session_id == j then some row else none
      | some r ↦ some r
    ]
unfolding find
find-snoc j row [] = refl
find-snoc j row (r ∷ rows) = ground (arith, find-snoc j row rows)

abbrev new_row : ℕ → Job → Row
new_row now job = record { job = record job { status = or_pending job.status }; created_at = now }

-- A job that was created is what the next read of its id returns, PENDING if it had no status, and
-- no other read changes; creating its id once more is refused and changes nothing.
pub create-get :
    (now later : ℕ) (job again : Job) (db : Db)
    → (create_job now job db).0 ≡ ok tt
    → ((j : String)
        → get_job j (create_job now job db).1 ≡ (
            if job.session_id == j
            then ok (record job { status = or_pending job.status })
            else get_job j db))
      × (again.session_id ≡ job.session_id
          → create_job later again (create_job now job db).1
            ≡ (err already_exists, (create_job now job db).1))
unfolding create_job get_job
create-get now later job again db h = (
  λ j. ground (arith, find-snoc j (new_row now job) db.jobs, eq_iff job.session_id j),
  λ same.
      ground (arith, find-snoc job.session_id (new_row now job) db.jobs, eq_refl job.session_id),
)

create_job-get_err :
    (now : ℕ) (job : Job) (db : Db) (e : Error)
    → (create_job now job db).0 ≡ err e
    → (j : String) → get_job j (create_job now job db).1 ≡ get_job j db
unfolding create_job
create_job-get_err now job db e h j = ground arith

-- The SQLite store meets the contract of a store: a job that was created is what the next read of
-- its id returns; an update that succeeds is seen by the next read of that job alone, and one that
-- fails, or a step result, changes no job.
pub sqlite-StoreLaws : (now : ℕ) → StoreLaws (sqlite now)
unfolding append_step_result get_job
sqlite-StoreLaws now = record {
  create-ok = λ job db h. (create-get now now job job db h).0;
  create-err = create_job-get_err now;
  set-ok = get-set_ok;
  set-err = get-set_err;
  append-get = λ r s j. refl;
}

abbrev ids_of : List Row → List String
ids_of rows = map (λ k. k.session_id) (map (λ r. r.job) rows)

elem-insert_sorted :
    (j : String) (row : Row) (rows : List Row)
    → elem j (ids_of (insert_sorted row rows)) ≡ (row.job.session_id == j || elem j (ids_of rows))
unfolding insert_sorted elem
elem-insert_sorted j row [] = refl
elem-insert_sorted j row (r ∷ rows) = ground (arith, elem-insert_sorted j row rows)

select_status-elem :
    (status : JobStatus) (j : String) (rows : List Row) (row : Row)
    → find j rows ≡ some row
    → same_status row.job.status status ≡ true
    → elem j (ids_of (select_status status rows)) ≡ true
unfolding find select_status
select_status-elem status j [] row h k = cc
select_status-elem status j (r ∷ rows) row h k = elim (Bool-cases (r.job.session_id == j)) [
  | inl same ↦
      let e : r ≡ row = ground arith in
      let t : has_status status r ≡ true = subst (λ q. has_status status q ≡ true) (sym e) k in
      rw t (ground (arith, elem-insert_sorted j r (select_status status rows)))
  | inr other ↦ ground (
    arith,
    elem-insert_sorted j r (select_status status rows),
    select_status-elem status j rows row,
  )
]

found-ok :
    (o : Option Row) (job : Job) → found o ≡ ok job → (row : Row) × (o ≡ some row) × (row.job ≡ job)
found-ok none job h = cc
found-ok (some row) job h = (row, refl, cc)

-- The SQLite store of this model, whose database does not fail, updates each job that is there, and
-- its list by status misses none.
pub sqlite-IsReliable : (now : ℕ) → IsReliable (sqlite now)
unfolding get_job set_job_status list_jobs_by_status
sqlite-IsReliable now = record {
  set-found = λ id status result error db job h. ground arith;
  list-complete = λ status db. (
    map (λ r. r.job) (select_status status db.jobs),
    refl,
    λ j job h k.
        let (row, a, b) = found-ok (find j db.jobs) job h in
        select_status-elem status j db.jobs row a
          (subst (λ q. same_status q.status status ≡ true) (sym b) k),
  );
}
