-- ===== src/Metrics.antt =====
-- internal/metrics/metrics.go: named counters. A counter is an atomic int64, which wraps; a pattern
-- from 2 ^ 63 on is a negative value. Rendering as Prometheus text is formatting only.
pub mod Laws
use j_harness.Base.{
  ℕ, ◌+◌, ◌%◌, String, Option, none, some, List, [], ◌∷◌, Map, lookup, insert, get_or,
}

abbrev pub Metrics : Type 0
Metrics = Map ℕ

abbrev pub jobs_submitted : String
jobs_submitted = "harness_jobs_submitted_total"

abbrev pub jobs_completed : String
jobs_completed = "harness_jobs_completed_total"

abbrev pub jobs_failed : String
jobs_failed = "harness_jobs_failed_total"

abbrev pub llm_retries : String
llm_retries = "harness_llm_retries_total"

abbrev pub schema_failures : String
schema_failures = "harness_schema_failures_total"

register : List String → Metrics → Metrics
unfolding insert
register [] m = m
register (name ∷ names) m = register names (insert name 0 m)

unfoldable pub new : Metrics
unfolding register
new =
    register (jobs_submitted ∷ jobs_completed ∷ jobs_failed ∷ llm_retries ∷ schema_failures ∷ []) []

-- `counter` creates a missing counter at zero, also when it is only read.
unfoldable pub counter : String → Metrics → ℕ × Metrics
unfolding lookup insert
counter name m = elim (lookup name m) [ none ↦ (0, insert name 0 m) | some c ↦ (c, m) ]

abbrev pub int64_mod : ℕ
int64_mod = 18446744073709551616

unfoldable pub add : String → ℕ → Metrics → Metrics
unfolding counter insert
add name n m = let (c, m') = counter name m in insert name ((c + n) % int64_mod) m'

unfoldable pub inc : String → Metrics → Metrics
unfolding add
inc name m = add name 1 m

unfoldable pub get : String → Metrics → ℕ
unfolding counter
get name m = (counter name m).0
