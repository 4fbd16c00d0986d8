-- ===== src/Llm/Retry/Bounds.antt =====
-- internal/llm/retry.go: how often a retried call is made, and how long it waits.
pub mod Final
use Prim.Native.Nat.{max}
use j_harness.Base.{
  ℕ, zero, suc, ◌+◌, ◌-◌, ◌/◌, ◌^◌, ◌≤◌, Bool, true, false, not, Option, none, some, Result, ok,
  err, ◌≡◌, refl, ◌⊎◌, inl, inr, arith, Bool-cases, ltb, ◌∙◌,
}
use j_harness.Llm.{CallError, Request, Response, Context, Client}
use j_harness.Llm.Retry.{
  Retry, Clock, retryable, is_positive, double, reaches, grow, backoff, sleep, notify, after_sleep,
  on_answer, attempts, complete,
}

-- An answer that is not retried.
abbrev pub is_final : Result CallError Response → Bool
is_final (ok resp) = true
is_final (err x) = not (retryable x)

module _ {F W : Type 0} (clock : Clock W) (client : Client F W) (cfg : Retry W) (ctx : Context)
    (req : Request F) (calls : W → ℕ) where
  -- `calls` counts the calls of the backend, and the callback and the clock make none.
  pub record IsMeter : Type 0 where
    pub called : (w : W) → calls (client ctx req w).1 ≡ suc (calls w)
    pub notified : (w : W) → calls (notify cfg.on_retry w) ≡ calls w
    pub drawn : (n : ℕ) (w : W) → calls (clock.draw n w).1 ≡ calls w
    pub waited : (n : ℕ) (w : W) → calls (clock.wait ctx n w).1 ≡ calls w

  -- Between `low` and `high` calls were made, and `high` of them if the last answer is one to be
  -- retried and no wait was cut short.
  abbrev pub IsWithin : ℕ → ℕ → Result CallError Response × W → Type 0
  IsWithin low high o =
      (low ≤ calls o.1)
      × (calls o.1 ≤ high)
      × (((n : ℕ) (v : W) → (clock.wait ctx n v).0 ≡ none)
          → (is_final o.0 ≡ true) ⊎ (calls o.1 ≡ high))

  backoff-calls : IsMeter → (attempt : ℕ) (w : W) → calls (backoff clock cfg attempt w).1 ≡ calls w
  unfolding backoff
  backoff-calls m attempt w =
      let d = grow cfg.max_delay (attempt - 1) cfg.base_delay in
      elim (Bool-cases (is_positive d)) [
        | inl h ↦ rw (h, backoff) (m.drawn (suc (d / 2)) w)
        | inr h ↦ rw (h, backoff) refl
      ]

  sleep-calls : IsMeter → (p : ℕ × W) → calls (sleep clock ctx p).1 ≡ calls p.1
  sleep-calls m (zero, w) = refl
  sleep-calls m (suc d, w) = m.waited (suc d) w

  sleep-none :
      ((n : ℕ) (v : W) → (clock.wait ctx n v).0 ≡ none) → (p : ℕ × W) → (sleep clock ctx p).0 ≡ none
  sleep-none patient (zero, w) = refl
  sleep-none patient (suc d, w) = patient (suc d) w

  -- What the attempts behind this one do, `left` of them after the next.
  abbrev Continues : ℕ → (W → Result CallError Response × W) → Type 0
  Continues left again = (w : W) → IsWithin (suc (calls w)) (calls w + suc left) (again w)

  after_sleep-IsWithin :
      (n left : ℕ) (s : Option CallError × W) (again : W → Result CallError Response × W)
      → calls s.1 ≡ suc n
      → (((k : ℕ) (v : W) → (clock.wait ctx k v).0 ≡ none) → s.0 ≡ none)
      → Continues left again
      → IsWithin (suc n) (n + suc (suc left)) (after_sleep clock client cfg ctx req s again)
  after_sleep-IsWithin n left (some x, w) again h slept rest =
      (omega arith, omega arith, λ patient. absurd (cc (slept patient)))
  after_sleep-IsWithin n left (none, w) again h slept rest =
      let k = rest w in
      (
        omega (arith, k.0),
        omega (arith, k.1),
        λ patient. elim (k.2 patient) [ inl f ↦ inl f | inr e ↦ inr (omega (arith, e)) ],
      )

  on_answer-IsWithin :
      IsMeter
      → (n left attempt : ℕ) (r : Result CallError Response × W)
        (again : W → Result CallError Response × W)
      → calls r.1 ≡ suc n
      → Continues left again
      → IsWithin (suc n) (n + suc (suc left)) (on_answer clock client cfg ctx req attempt r again)
  on_answer-IsWithin m n left attempt (ok resp, w) again h rest =
      (omega arith, omega arith, λ patient. inl refl)
  on_answer-IsWithin m n left attempt (err x, w) again h rest =
      let woken = notify cfg.on_retry w in
      let delay = backoff clock cfg attempt woken in
      elim (Bool-cases (retryable x)) [
        | inr lasting ↦ rw lasting (omega arith, omega arith, λ patient. inl (rw lasting refl))
        | inl transient ↦ rw transient (
            after_sleep-IsWithin n left (sleep clock ctx delay) again
              (sleep-calls m delay ∙ backoff-calls m attempt woken ∙ m.notified w ∙ h)
              (λ patient. sleep-none patient delay) rest)
      ]

  attempts-IsWithin :
      IsMeter
      → (left attempt : ℕ) (w : W)
      → IsWithin
          (suc (calls w))
          (calls w + suc left)
          (attempts clock client cfg ctx req left attempt w)
  unfolding attempts
  attempts-IsWithin m zero attempt w = (
    omega (arith, m.called w),
    omega (arith, m.called w),
    λ patient. inr (omega (arith, m.called w)),
  )
  attempts-IsWithin m (suc left) attempt w =
      on_answer-IsWithin m (calls w) left attempt (client ctx req w) _ (m.called w)
        (λ w'. attempts-IsWithin m left (suc attempt) w')

  -- If a measure of the world counts the calls of the backend, a retried call is made at least once
  -- and at most as often as the configured attempts, and exactly so often if the last answer is a
  -- failure that could be retried and no wait was cut short.
  pub complete-IsWithin :
      IsMeter
      → 1 ≤ cfg.max_attempts
      → (w : W)
      → IsWithin (suc (calls w)) (calls w + cfg.max_attempts) (complete clock client cfg ctx req w)
  unfolding complete
  complete-IsWithin m h w =
      let k = attempts-IsWithin m (cfg.max_attempts - 1) 1 w in
      (
        k.0,
        omega (arith, k.1),
        λ patient. elim (k.2 patient) [ inl f ↦ inl f | inr e ↦ inr (omega (arith, e)) ],
      )

below-reaches :
    (limit d high : ℕ) → limit ≤ high → reaches d limit ≡ false → (d ≤ high) ⊎ (2 ^ 63 ≤ d)
below-reaches limit d high a h = elim (Bool-cases (ltb d (2 ^ 63))) [
  | inl small ↦ inl (ground arith)
  | inr large ↦ inr (ground arith)
]

-- The delay of the loop is at most the larger one of its bounds, or it wrapped to a negative.
grow-bounded :
    (limit n d high : ℕ)
    → limit ≤ high
    → (d ≤ high) ⊎ (2 ^ 63 ≤ d)
    → (grow limit n d ≤ high) ⊎ (2 ^ 63 ≤ grow limit n d)
unfolding grow
grow-bounded limit zero d high a b = b
grow-bounded limit (suc n) d high a b = elim (Bool-cases (reaches (double d) limit)) [
  | inl h ↦ rw h (inl a)
  | inr h ↦ rw h (grow-bounded limit n (double d) high a (below-reaches limit (double d) high a h))
]

-- If the random draw below a bound is below it, no wait between attempts is longer than the larger
-- one of the two configured delays, also where doubling wraps at 2 ^ 64.
pub backoff-bounded :
    {W : Type 0} (clock : Clock W) (cfg : Retry W)
    → ((n : ℕ) (w : W) → (clock.draw (suc n) w).0 ≤ n)
    → (attempt : ℕ) (w : W) → (backoff clock cfg attempt w).0 ≤ max cfg.base_delay cfg.max_delay
unfolding backoff
backoff-bounded clock cfg drawn attempt w =
    let d = grow cfg.max_delay (attempt - 1) cfg.base_delay in
    elim (Bool-cases (is_positive d)) [
      | inr h ↦ rw (h, backoff) (omega arith)
      | inl h ↦
          rw (h, backoff)
            (elim (grow-bounded cfg.max_delay (attempt - 1) cfg.base_delay
              (max cfg.base_delay cfg.max_delay) (omega arith) (inl (omega arith))) [
                | inl low ↦ omega (arith, drawn (d / 2) w, low)
                | inr negative ↦ absurd (ground arith)
              ])
    ]
