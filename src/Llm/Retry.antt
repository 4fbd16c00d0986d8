-- ===== src/Llm/Retry.antt =====
-- internal/llm/retry.go: retries of transient failures with an exponential wait. A Duration is an
-- int64, so doubling it wraps at 2 ^ 64; a value from 2 ^ 63 on is negative.
pub mod Bounds
use j_harness.Base.{
  ℕ, zero, suc, ◌+◌, ◌-◌, ◌*◌, ◌/◌, ◌%◌, ◌^◌, String, Bool, true, false, not, ◌&&◌, ◌||◌, Option,
  none, some, List, Result, ok, err, leb, ltb, nat_eq, if◌then◌else◌,
}
use j_harness.Llm.{
  CallError, canceled, deadline_exceeded, http_error, wrapped, Request, Response, Context, Client,
}

-- Zero stands for all numbers of attempts, and all delays, below one.
pub record Retry (W : Type 0) : Type 0 where
  pub max_attempts : ℕ
  pub base_delay : ℕ
  pub max_delay : ℕ
  pub on_retry : Option (W → W)

-- `rand.Int64N`, and the select of `sleep` between the timer and the context's end.
pub record Clock (W : Type 0) : Type 0 where
  pub draw : ℕ → W → ℕ × W
  pub wait : Context → ℕ → W → Option CallError × W

-- `errors.Is` with Canceled or DeadlineExceeded
unfoldable pub is_context : CallError → Bool
is_context canceled = true
is_context deadline_exceeded = true
is_context (wrapped text x) = is_context x
is_context _ = false

-- `errors.As` with an HTTPError
unfoldable pub status_code : CallError → Option ℕ
status_code (http_error code text) = some code
status_code (wrapped text x) = status_code x
status_code _ = none

abbrev transient_status : Option ℕ → Bool
transient_status none = true
transient_status (some code) = nat_eq code 429 || leb 500 code

unfoldable pub retryable : CallError → Bool
unfolding is_context status_code
retryable x = not (is_context x) && transient_status (status_code x)

abbrev pub is_positive : ℕ → Bool
is_positive d = ltb 0 d && ltb d (2 ^ 63)

-- `d *= 2`
abbrev pub double : ℕ → ℕ
double d = (d * 2) % 2 ^ 64

abbrev pub reaches : ℕ → ℕ → Bool
reaches d limit = ltb d (2 ^ 63) && leb limit d

-- The loop of `backoff`, with its rounds left.
unfoldable pub grow : ℕ → ℕ → ℕ → ℕ
grow limit zero d = d
grow limit (suc n) d =
    let rest = grow limit n (double d) in if reaches (double d) limit then limit else rest

-- The jitter of a positive delay is drawn from the upper half of it.
abbrev pub jitter : {W : Type 0} → Clock W → ℕ → W → ℕ × W
jitter clock d w =
    if is_positive d then (let (r, w') = clock.draw (suc (d / 2)) w in (d / 2 + r, w')) else (0, w)

unfoldable pub backoff : {W : Type 0} → Clock W → Retry W → ℕ → W → ℕ × W
unfolding grow
backoff clock cfg attempt w = jitter clock (grow cfg.max_delay (attempt - 1) cfg.base_delay) w

-- `sleep`
abbrev pub sleep : {W : Type 0} → Clock W → Context → ℕ × W → Option CallError × W
sleep clock ctx (zero, w) = (none, w)
sleep clock ctx (suc d, w) = clock.wait ctx (suc d) w

abbrev pub notify : {W : Type 0} → Option (W → W) → W → W
notify none w = w
notify (some f) w = f w

module _ {F W : Type 0} (clock : Clock W) (client : Client F W) (cfg : Retry W) (ctx : Context)
    (req : Request F) where
  abbrev pub Answer : Type 0
  Answer = Result CallError Response × W

  abbrev pub after_sleep : Option CallError × W → (W → Answer) → Answer
  after_sleep (some x, w) again = (err x, w)
  after_sleep (none, w) again = again w

  abbrev pub on_answer : ℕ → Answer → (W → Answer) → Answer
  on_answer attempt (ok resp, w) again = (ok resp, w)
  on_answer attempt (err x, w) again =
      if retryable x
      then after_sleep (sleep clock ctx (backoff clock cfg attempt (notify cfg.on_retry w))) again
      else (err x, w)

  -- Attempt number `attempt`, with `left` attempts behind it.
  unfoldable pub attempts : (left attempt : ℕ) → W → Answer
  unfolding backoff retryable
  attempts zero attempt w = client ctx req w
  attempts (suc left) attempt w =
      on_answer attempt (client ctx req w) (λ w'. attempts left (suc attempt) w')

unfoldable pub complete : {F W : Type 0} → Clock W → Client F W → Retry W → Client F W
unfolding attempts
complete clock client cfg ctx req w = attempts clock client cfg ctx req (cfg.max_attempts - 1) 1 w

abbrev or_default : ℕ → ℕ → ℕ
or_default zero d = d
or_default (suc n) d = suc n

abbrev with_defaults : {W : Type 0} → Retry W → Retry W
with_defaults cfg = record cfg {
  base_delay = or_default cfg.base_delay 250000000;
  max_delay = or_default cfg.max_delay 5000000000;
}

-- `NewRetry`: with one attempt the client stays as it is.
unfoldable pub new_retry : {F W : Type 0} → Clock W → Client F W → Retry W → Client F W
unfolding complete
new_retry clock client cfg =
    if leb cfg.max_attempts 1 then client else complete clock client (with_defaults cfg)
