-- ===== src/Samples/Limits.antt =====
-- Tests of the limits of an endpoint, and calls that wait for a slot of it.
use j_harness.Base.{
  ℕ, ◌≤◌, String, Option, none, some, List, [], ◌∷◌, ◌≡◌, ◌↔◌, refl, ◌==◌, eq_iff, if◌then◌else◌,
  arith,
}
use j_harness.Llm.{Context}
use j_harness.RateLimit.{
  GoEnv, Limit, Config, no_limit, SemKey, Sem, endpoint_key, env_key, parse_rate, from_env, acquire,
  arrive, rate_limiter_for, new, sem_for,
}
use j_harness.RateLimit.System.{System, Reach, here, next, come, join, enter, idle, count}
use j_harness.RateLimit.Safety.{IsScan, calls-Bounded, waiting-Live}
use j_harness.RateLimit.Buckets.{IsServed, rate_limiter_for-shared}
use j_harness.Samples.Agents.{request}

abbrev two : String → Option ℕ
two s = if s == "2" then some 2 else none

abbrev env : GoEnv
env = record {
  lookup_env = λ k. if k == "HARNESS_RATE_LIMIT" then some "5/2" else none;
  scan_int = two;
  scan_ratio = λ s. if s == "5/2" then some (5, 2) else if s == "1/3" then some (1, 3) else none;
  to_lower = λ s. s;
  to_upper = λ s. s;
}

two-IsScan : IsScan env
two-IsScan v n h = ground (arith, eq_iff v "2")

-- A rate of two requests a second has the burst two, and 5/2 has the burst five.
parse_rate-ratio : parse_rate env " 5/2 " ≡ some (record { amount = 5; seconds = 2 }, 5)
unfolding parse_rate
parse_rate-ratio = refl

from_env-rate : from_env env ≡ record {
  default_concurrency = 0;
  default_rate = record { amount = 5; seconds = 2 };
  default_burst = 5;
}
unfolding from_env
from_env-rate = refl

endpoint_key-port : endpoint_key env " http://box:8081/v1?x " ≡ "box:8081"
unfolding endpoint_key
endpoint_key-port = refl

env_key-port : env_key env "10.0.0.1:80" ≡ "10_0_0_1_80"
unfolding env_key
env_key-port = refl

abbrev third : Limit
third = record { amount = 1; seconds = 3 }

abbrev half : Limit
half = record { amount = 1; seconds = 2 }

rate_limiter_for-shared_example :
    IsServed "box" half 1 [] (rate_limiter_for "box" half 1 [])
    × (rate_limiter_for "box" third 1 (rate_limiter_for "box" half 1 []).1
        ≡ rate_limiter_for "box" half 1 [])
rate_limiter_for-shared_example = rate_limiter_for-shared "box" half third 1 [] refl refl refl

abbrev config : Config
config = record { default_concurrency = 0; default_rate = no_limit; default_burst = 0 }

abbrev one_slot : Context
one_slot = record { concurrency = 1; rate = ""; timeout_seconds = 0 }

abbrev key : SemKey
key = record { endpoint = "default"; size = 1 }

-- Two calls of one endpoint have come, and one of them has its slot.
abbrev slot : ℕ → List (SemKey × Sem)
slot held = (key, record { capacity = 1; held = held }) ∷ []

abbrev after : System
after = record {
  limiter = record {
    config = record config { default_concurrency = 1 };
    sems = slot 1;
    buckets = [];
  };
  pacing = [];
  waiting = key ∷ [];
  calls = key ∷ [];
}

after-reached : Reach env ℕ (idle config) after
unfolding new arrive acquire sem_for
after-reached =
    next
      (next
        (next (next (next here (come one_slot request _)) (come one_slot request _))
          (join key _ (omega arith)))
        (join key _ (omega arith)))
      (enter key _ (slot 1) (omega arith) refl)

calls-Bounded_example : count key after.calls ≤ 1
calls-Bounded_example = calls-Bounded env two-IsScan ℕ config after key after-reached

waiting-Live_example : (1 ≤ 1) × (acquire key (slot 1) ≡ none ↔ 1 ≤ count key after.calls)
waiting-Live_example = waiting-Live env two-IsScan ℕ config after key after-reached (omega arith)
