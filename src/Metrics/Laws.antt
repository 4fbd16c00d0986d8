-- ===== src/Metrics/Laws.antt =====
-- Counters count.
use j_harness.Base.{
  ℕ, ◌+◌, ◌%◌, String, ◌≡◌, insert, lookup-insert, ◌==◌, eq_iff, arith, if◌then◌else◌,
}
use j_harness.Metrics.{Metrics, counter, add, get, int64_mod}

get-insert :
    (name other : String) (v : ℕ) (m : Metrics)
    → get other (insert name v m) ≡ (if name == other then v else get other m)
unfolding get counter
get-insert name other v m = ground (arith, lookup-insert name other v m)

get-counter : (name other : String) (m : Metrics) → get other (counter name m).1 ≡ get other m
unfolding get counter
get-counter name other m = ground (arith, lookup-insert name other 0 m, eq_iff name other)

-- Adding to a counter adds that much to it, modulo 2 ^ 64, and leaves the value of every other one
-- as it was.
pub get-add :
    (name other : String) (n : ℕ) (m : Metrics)
    → get other (add name n m)
      ≡ (if name == other then (get name m + n) % int64_mod else get other m)
unfolding add get
get-add name other n m = ground (
  arith,
  get-insert name other ((get name m + n) % int64_mod) (counter name m).1,
  get-counter name other m,
)
