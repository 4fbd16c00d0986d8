-- ===== src/RateLimit/System.antt =====
-- internal/ratelimit/ratelimit.go: the calls of `Complete` that run at the same time, one step for
-- each point at which one of them goes on.
use j_harness.Base.{ℕ, ◌+◌, ◌<◌, Bool, true, false, some, List, [], ◌∷◌, ◌≡◌, if◌then◌else◌}
use j_harness.Llm.{Context, Request}
use j_harness.RateLimit.{
  GoEnv, Config, Limiter, SemKey, same_key, Sem, new, sem_for, arrive, acquire, release,
}

-- The calls by where they stand, each as the key of its semaphore: before the bucket's token,
-- before the semaphore, and in the backend.
pub record System : Type 0 where
  pub limiter : Limiter
  pub pacing : List SemKey
  pub waiting : List SemKey
  pub calls : List SemKey

abbrev pub one_if : Bool → ℕ
one_if true = 1
one_if false = 0

-- How many calls of a list are about a semaphore.
abbrev pub count : SemKey → List SemKey → ℕ
count k [] = 0
count k (j ∷ js) = one_if (same_key j k) + count k js

abbrev pub drop_one : SemKey → List SemKey → List SemKey
drop_one k [] = []
drop_one k (j ∷ js) = if same_key j k then js else j ∷ drop_one k js

abbrev pub with_sems : Limiter → List (SemKey × Sem) → Limiter
with_sems l sems = record l { sems = sems }

module _ (env : GoEnv) (F : Type 0) where
  pub data Step : System → System → Type 0 where
    -- a call comes in
    come :
        (ctx : Context) (req : Request F) (s : System)
        → Step s (record s {
          limiter = (arrive env ctx req s.limiter).limiter;
          pacing = (arrive env ctx req s.limiter).sem ∷ s.pacing;
        })
    -- its token wait fails, and it returns the error
    refused :
        (k : SemKey) (s : System)
        → 0 < count k s.pacing
        → Step s (record s { pacing = drop_one k s.pacing })
    -- its token is there, or it needs none
    join :
        (k : SemKey) (s : System)
        → 0 < count k s.pacing
        → Step s (record s {
          limiter = with_sems s.limiter (sem_for k s.limiter.sems);
          pacing = drop_one k s.pacing;
          waiting = k ∷ s.waiting;
        })
    -- its context ends while it waits for a slot
    give_up :
        (k : SemKey) (s : System)
        → 0 < count k s.waiting
        → Step s (record s { waiting = drop_one k s.waiting })
    -- it takes a slot and calls the backend
    enter :
        (k : SemKey) (s : System) (sems : List (SemKey × Sem))
        → 0 < count k s.waiting
        → acquire k s.limiter.sems ≡ some sems
        → Step s (record s {
          limiter = with_sems s.limiter sems;
          waiting = drop_one k s.waiting;
          calls = k ∷ s.calls;
        })
    -- the backend answers, and the deferred receive gives the slot back
    leave :
        (k : SemKey) (s : System)
        → 0 < count k s.calls
        → Step s (record s {
          limiter = with_sems s.limiter (release k s.limiter.sems);
          calls = drop_one k s.calls;
        })

  pub data Reach (start : System) : System → Type 0 where
    here : Reach start start
    next : {s t : System} → Reach start s → Step s t → Reach start t

abbrev pub idle : Config → System
idle cfg = record { limiter = new cfg; pacing = []; waiting = []; calls = [] }
