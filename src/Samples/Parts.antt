-- ===== src/Samples/Parts.antt =====
-- Tests of the metrics, of conditions and of the store.
use j_harness.Samples.{job, empty_db}
use j_harness.Base.{
  ℕ, ◌+◌, ◌-◌, ◌^◌, ◌%◌, String, false, [], ◌∷◌, ◌≡◌, ◌≢◌, ◌↔◌, refl, ok, err, ◌==◌, if◌then◌else◌,
}
use j_harness.Json.{null, str}
use j_harness.Model.{Condition, operator, no_operator, op_equals, unset, pending}
use j_harness.Model.Laws.{populated, operator-ne-no_operator}
use j_harness.Metrics.{Metrics, add, get, int64_mod}
use j_harness.Metrics.Laws.{get-add}
use j_harness.Store.{StoreLaws, already_exists, or_pending}
use j_harness.Store.Sqlite.{create_job, get_job, list_jobs_by_status, sqlite}
use j_harness.Store.Laws.{sqlite-StoreLaws, create-get}

abbrev counters : Metrics
counters = ("jobs", 2 ^ 64 - 1) ∷ []

get-add_example :
    get "jobs" (add "jobs" 3 counters)
    ≡ (if "jobs" == "jobs" then (get "jobs" counters + 3) % int64_mod else get "jobs" counters)
get-add_example = get-add "jobs" "jobs" 3 counters

get-add_wraps : get "jobs" (add "jobs" 3 counters) ≡ 2
unfolding get add
get-add_wraps = refl

abbrev equals_yes : Condition ℕ
equals_yes = record {
  path = "";
  equals = str "yes";
  not_equals = null;
  among = [];
  matches = "";
  exists = false;
}

operator-equals_yes : operator equals_yes ≡ op_equals
unfolding operator
operator-equals_yes = refl

operator-ne-no_operator_example : (operator equals_yes ≢ no_operator) ↔ (populated equals_yes ≡ 1)
operator-ne-no_operator_example = operator-ne-no_operator equals_yes

job-created : (create_job 7 job empty_db).0 ≡ ok tt
unfolding create_job
job-created = refl

list-created :
    list_jobs_by_status pending (create_job 7 job empty_db).1
    ≡ ok (record job { status = pending } ∷ [])
unfolding list_jobs_by_status create_job
list-created = refl

sqlite-StoreLaws_example : StoreLaws (sqlite 7)
sqlite-StoreLaws_example = sqlite-StoreLaws 7

create-get_example :
    ((j : String)
      → get_job j (create_job 7 job empty_db).1
        ≡ (if "s1" == j then ok (record job { status = or_pending unset }) else get_job j empty_db))
    × (job.session_id ≡ job.session_id
        → create_job 9 job (create_job 7 job empty_db).1
          ≡ (err already_exists, (create_job 7 job empty_db).1))
create-get_example = create-get 7 9 job job empty_db job-created
