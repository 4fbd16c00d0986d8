-- ===== src/RateLimit.antt =====
-- internal/ratelimit/ratelimit.go: the limits of an endpoint and the caches of semaphores and token
-- buckets. The environment, fmt.Sscanf and the case maps of strings are parameters.
pub mod System
pub mod Safety
pub mod Buckets
use Prim.Native.String.{◌++◌ as str_append}
use j_harness.Base.{
  ℕ, zero, suc, ◌-◌, ◌/◌, String, Bool, true, false, ◌&&◌, ◌||◌, Option, none, some, List, [], ◌∷◌,
  ◌==◌, nat_eq, ltb, leb, if◌then◌else◌, trim_space, is_empty, has_prefix, drop_chars, Char, code,
}
use j_harness.Llm.{Context, Request}

-- What the package asks of the process and of the standard library. A scan answers none for an
-- error and for a number below one, which all of its callers refuse alike.
pub record GoEnv : Type 0 where
  pub lookup_env : String → Option String
  pub scan_int : String → Option ℕ
  pub scan_ratio : String → Option (ℕ × ℕ)
  pub to_lower : String → String
  pub to_upper : String → String

-- A rate.Limit: `amount` requests in `seconds` seconds; the amount zero is no limit. The float64
-- of the code is this ratio rounded.
pub record Limit : Type 0 where
  pub amount : ℕ
  pub seconds : ℕ

abbrev pub no_limit : Limit
no_limit = record { amount = 0; seconds = 1 }

pub record Config : Type 0 where
  pub default_concurrency : ℕ
  pub default_rate : Limit
  pub default_burst : ℕ

-- `strings.Contains(s, "/")`
unfoldable pub has_slash : String → Bool
has_slash String.[] = false
has_slash (String.◌∷◌ c s) = nat_eq (code c) b'/' || has_slash s

-- `s[strings.Index(s, "://")+3:]`, none without that text
unfoldable pub after_scheme : String → Option String
unfolding has_prefix drop_chars
after_scheme String.[] = none
after_scheme (String.◌∷◌ c s) =
    let rest = after_scheme s in
    if has_prefix (String.◌∷◌ c s) "://" then some (drop_chars (String.◌∷◌ c s) "://") else rest

abbrev ends_host : ℕ → Bool
ends_host c = nat_eq c b'/' || nat_eq c b'?' || nat_eq c b'#'

-- `s[:strings.IndexAny(s, "/?#")]`, all of it without such a character
unfoldable pub host_of : String → String
host_of String.[] = String.[]
host_of (String.◌∷◌ c s) = if ends_host (code c) then String.[] else String.◌∷◌ c (host_of s)

-- The replacer of `envKey`: `.`, `:`, `/` and `\` become `_`.
abbrev is_separator : ℕ → Bool
is_separator c = nat_eq c b'.' || nat_eq c b':' || nat_eq c b'/' || nat_eq c b'\\'

unfoldable pub underscored : String → String
underscored String.[] = String.[]
underscored (String.◌∷◌ c s) =
    let rest = underscored s in
    if is_separator (code c) then str_append "_" rest else String.◌∷◌ c rest

abbrev or_default : String → String
or_default s = if is_empty s then "default" else s

abbrev or_all : Option String → String → String
or_all none s = s
or_all (some rest) s = rest

module _ (env : GoEnv) where
  open env use {lookup_env, scan_int, scan_ratio, to_lower, to_upper}

  unfoldable pub endpoint_key : String → String
  unfolding trim_space after_scheme host_of
  endpoint_key base_url =
      let s = or_default (trim_space base_url) in to_lower (host_of (or_all (after_scheme s) s))

  unfoldable pub env_key : String → String
  unfolding underscored
  env_key host = to_upper (underscored host)

  abbrev non_empty : Option String → Option String
  non_empty none = none
  non_empty (some v) = if is_empty v then none else some v

  -- `envOr(key, "")`
  abbrev env_or_empty : Option String → String
  env_or_empty none = ""
  env_or_empty (some v) = v

  -- `envInt(key, 0)`, none for the fallback
  abbrev scanned : Option String → Option ℕ
  scanned none = none
  scanned (some v) = scan_int v

  unfoldable pub env_int : String → Option ℕ
  env_int key = scanned (non_empty (lookup_env key))

  -- `parseRate`: a rate with its burst, none where there is none.
  abbrev per_second : Option ℕ → Option (Limit × ℕ)
  per_second none = none
  per_second (some n) = some (record { amount = n; seconds = 1 }, n)

  abbrev per_seconds : Option (ℕ × ℕ) → Option (Limit × ℕ)
  per_seconds none = none
  per_seconds (some (n, d)) = some (record { amount = n; seconds = d }, n)

  unfoldable pub parse_rate : String → Option (Limit × ℕ)
  unfolding trim_space has_slash
  parse_rate text =
      let s = trim_space text in
      if is_empty s || s == "0"
      then none
      else if has_slash s
      then per_seconds (scan_ratio s)
      else per_second (scan_int s)

  abbrev or_number : Option ℕ → ℕ → ℕ
  or_number none n = n
  or_number (some v) n = v

  -- `FromEnv`
  unfoldable pub from_env : Config
  unfolding env_int parse_rate
  from_env = elim (parse_rate (env_or_empty (non_empty (lookup_env "HARNESS_RATE_LIMIT")))) [
    | none ↦ record {
      default_concurrency = or_number (env_int "HARNESS_CONCURRENCY_DEFAULT") 0;
      default_rate = no_limit;
      default_burst = 0;
    }
    | some (r, b) ↦ record {
      default_concurrency = or_number (env_int "HARNESS_CONCURRENCY_DEFAULT") 0;
      default_rate = r;
      default_burst = b;
    }
  ]

  abbrev override_or : ℕ → ℕ → ℕ
  override_or zero n = n
  override_or (suc k) n = suc k

  -- `l.concurrency(key, ov)`, with the configured default as an argument
  unfoldable pub concurrency : ℕ → String → Context → ℕ
  unfolding env_int env_key
  concurrency default key ctx =
      or_number (env_int (str_append "HARNESS_CONCURRENCY_" (env_key key)))
        (override_or ctx.concurrency default)

  abbrev or_rate : Option (Limit × ℕ) → Limit × ℕ → Limit × ℕ
  or_rate none r = r
  or_rate (some s) r = s

  -- `l.rateLimit(key, ov)`
  unfoldable pub rate_limit : Config → String → Context → Limit × ℕ
  unfolding parse_rate env_key
  rate_limit cfg key ctx = or_rate (parse_rate ctx.rate) (
      or_rate
        (parse_rate
          (env_or_empty (non_empty (lookup_env (str_append "HARNESS_RATE_LIMIT_" (env_key key))))))
        (cfg.default_rate, cfg.default_burst))

-- The cache key `%s|%d`, kept as its two parts; the number has no `|`, so the text determines them.
pub record SemKey : Type 0 where
  pub endpoint : String
  pub size : ℕ

abbrev pub same_key : SemKey → SemKey → Bool
same_key a b = a.endpoint == b.endpoint && nat_eq a.size b.size

-- A semaphore: a buffered channel with what it holds.
pub record Sem : Type 0 where
  pub capacity : ℕ
  pub held : ℕ

-- The cache key `%s|%d|%d` of a bucket, with the limit cut off to a whole number.
pub record BucketKey : Type 0 where
  pub endpoint : String
  pub limit : ℕ
  pub burst : ℕ

abbrev pub same_bucket : BucketKey → BucketKey → Bool
same_bucket a b = a.endpoint == b.endpoint && (nat_eq a.limit b.limit && nat_eq a.burst b.burst)

pub record Bucket : Type 0 where
  pub limit : Limit
  pub burst : ℕ

pub record Limiter : Type 0 where
  pub config : Config
  pub sems : List (SemKey × Sem)
  pub buckets : List (BucketKey × Bucket)

abbrev at_least_one : ℕ → ℕ
at_least_one zero = 1
at_least_one (suc n) = suc n

-- `New`
unfoldable pub new : Config → Limiter
new cfg = record {
  config = record cfg { default_concurrency = at_least_one cfg.default_concurrency };
  sems = [];
  buckets = [];
}

unfoldable pub find_sem : SemKey → List (SemKey × Sem) → Option Sem
find_sem k [] = none
find_sem k ((j, s) ∷ sems) = if same_key j k then some s else find_sem k sems

abbrev pub sem_key : String → ℕ → SemKey
sem_key endpoint n = record { endpoint = endpoint; size = n }

-- `semFor`: the semaphore of a key is made once.
unfoldable pub sem_for : SemKey → List (SemKey × Sem) → List (SemKey × Sem)
unfolding find_sem
sem_for k sems = elim (find_sem k sems) [
  | some s ↦ sems
  | none ↦ (k, record { capacity = k.size; held = 0 }) ∷ sems
]

unfoldable pub find_bucket : BucketKey → List (BucketKey × Bucket) → Option Bucket
find_bucket k [] = none
find_bucket k ((j, b) ∷ buckets) = if same_bucket j k then some b else find_bucket k buckets

-- `int(limit)`, and `limit <= 0 || burst <= 0`
abbrev pub whole : Limit → ℕ
whole l = l.amount / l.seconds

abbrev pub is_off : Limit → ℕ → Bool
is_off l burst = nat_eq l.amount 0 || nat_eq burst 0

-- `rateLimiterFor`: the bucket, none without a limit, and the cache.
unfoldable pub rate_limiter_for :
    String → Limit → ℕ → List (BucketKey × Bucket) → Option Bucket × List (BucketKey × Bucket)
unfolding find_bucket
rate_limiter_for endpoint limit burst buckets =
    let k : BucketKey = record { endpoint = endpoint; limit = whole limit; burst = burst } in
    let fresh : Bucket = record { limit = limit; burst = burst } in
    if is_off limit burst then (none, buckets) else elim (find_bucket k buckets) [
      | some b ↦ (some b, buckets)
      | none ↦ (some fresh, (k, fresh) ∷ buckets)
    ]

-- A call settles its bucket and the key of its semaphore when it arrives.
pub record Ticket : Type 0 where
  pub bucket : Option Bucket
  pub sem : SemKey
  pub limiter : Limiter

-- `Complete`, up to the wait for the bucket. The semaphore's key does not depend on that wait.
unfoldable pub arrive : {F : Type 0} → GoEnv → Context → Request F → Limiter → Ticket
unfolding endpoint_key rate_limit concurrency rate_limiter_for
arrive env ctx req l =
    let key = endpoint_key env req.base_url in
    let (limit, burst) = rate_limit env l.config key ctx in
    let (bucket, buckets) = rate_limiter_for key limit burst l.buckets in
    record {
      bucket = bucket;
      sem = sem_key key (concurrency env l.config.default_concurrency key ctx);
      limiter = record l { buckets = buckets };
    }

-- `sem <- struct{}{}`: it can go on while the channel is not full.
abbrev pub take_slot : Sem → Option Sem
take_slot s = if ltb s.held s.capacity then some (record s { held = suc s.held }) else none

abbrev pub put_first : SemKey → List (SemKey × Sem) → Option Sem → Option (List (SemKey × Sem))
put_first k sems none = none
put_first k sems (some s) = some ((k, s) ∷ sems)

abbrev pub put_rest : SemKey × Sem → Option (List (SemKey × Sem)) → Option (List (SemKey × Sem))
put_rest e none = none
put_rest e (some sems) = some (e ∷ sems)

unfoldable pub acquire : SemKey → List (SemKey × Sem) → Option (List (SemKey × Sem))
acquire k [] = none
acquire k ((j, s) ∷ sems) =
    let rest = acquire k sems in
    if same_key j k then put_first j sems (take_slot s) else put_rest (j, s) rest

-- `<-sem`
unfoldable pub release : SemKey → List (SemKey × Sem) → List (SemKey × Sem)
release k [] = []
release k ((j, s) ∷ sems) =
    if same_key j k then (j, record s { held = s.held - 1 }) ∷ sems else (j, s) ∷ release k sems
