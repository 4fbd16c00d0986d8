-- ===== src/Llm/Retry/Bounds/Final.antt =====
-- internal/llm/retry.go: which failures end a call, and which are tried once more.
use j_harness.Base.{
  ℕ, suc, ◌-◌, ◌≤◌, ◌<◌, true, false, Option, none, some, Result, ok, err, ◌≡◌, ◌≢◌, refl, ◌⊎◌, inl,
  inr, ◌∙◌, arith, nat_eq, leb, ◌||◌, Bool-cases,
}
use j_harness.Llm.{
  CallError, canceled, deadline_exceeded, unsupported, http_error, transport, wrapped, Request,
  Response, Context, Client,
}
use j_harness.Llm.Retry.{
  Retry, Clock, retryable, backoff, sleep, notify, after_sleep, on_answer, attempts, complete,
}
use j_harness.Llm.Retry.Bounds.{IsMeter, backoff-calls, sleep-calls, sleep-none, attempts-IsWithin}

-- Behind its wrappers, an error that no further attempt can mend: the end of the context, or a status
-- that is neither 429 nor from 500 on.
abbrev pub IsLasting : CallError → Type 0
IsLasting canceled = Unit
IsLasting deadline_exceeded = Unit
IsLasting unsupported = ⊥
IsLasting (http_error code text) = (code ≢ 429) × (code < 500)
IsLasting (transport text) = ⊥
IsLasting (wrapped text x) = IsLasting x

abbrev pub Settles : Result CallError Response → Type 0
Settles (ok resp) = Unit
Settles (err x) = IsLasting x

retryable-decides :
    (x : CallError)
    → (IsLasting x × (retryable x ≡ false)) ⊎ ((IsLasting x → ⊥) × (retryable x ≡ true))
unfolding retryable
retryable-decides canceled = inl (tt, refl)
retryable-decides deadline_exceeded = inl (tt, refl)
retryable-decides unsupported = inr (λ h. h, refl)
retryable-decides (transport text) = inr (λ h. h, refl)
retryable-decides (wrapped text x) = retryable-decides x
retryable-decides (http_error code text) = elim (Bool-cases (nat_eq code 429 || leb 500 code)) [
  | inl transient ↦ inr (λ h. ground (arith, h.0, h.1, transient), transient)
  | inr lasting ↦ inl ((λ e. ground (arith, e, lasting), ground (arith, lasting)), lasting)
]

module _ {F W : Type 0} (clock : Clock W) (client : Client F W) (cfg : Retry W) (ctx : Context)
    (req : Request F) (calls : W → ℕ) where
  -- The first answer is given back as it is, or there is a second call.
  abbrev pub Decided : ℕ → Result CallError Response × W → Result CallError Response × W → Type 0
  Decided n first out =
      (Settles first.0 × (out ≡ first)) ⊎ ((Settles first.0 → ⊥) × (suc (suc n) ≤ calls out.1))

  waited-calls :
      (n : ℕ) (s : Option CallError × W) (again : W → Result CallError Response × W)
      → s.0 ≡ none
      → calls s.1 ≡ suc n
      → ((w : W) → suc (calls w) ≤ calls (again w).1)
      → suc (suc n) ≤ calls (after_sleep clock client cfg ctx req s again).1
  waited-calls n (some x, w) again h c k = absurd (cc h)
  waited-calls n (none, w) again h c k = omega (arith, c, k w)

  on_answer-Decided :
      IsMeter clock client cfg ctx req calls
      → ((n : ℕ) (v : W) → (clock.wait ctx n v).0 ≡ none)
      → (n : ℕ) (r : Result CallError Response × W) (again : W → Result CallError Response × W)
      → calls r.1 ≡ suc n
      → ((w : W) → suc (calls w) ≤ calls (again w).1)
      → Decided n r (on_answer clock client cfg ctx req 1 r again)
  on_answer-Decided m patient n (ok resp, w) again c k = inl (tt, refl)
  on_answer-Decided m patient n (err x, w) again c k =
      let woken = notify cfg.on_retry w in
      let delay = backoff clock cfg 1 woken in
      elim (retryable-decides x) [
        | inl (lasting, v) ↦ inl (lasting, rw v refl)
        | inr (transient, v) ↦ inr (
          transient,
          rw v (
              waited-calls n (sleep clock ctx delay) again
                (sleep-none clock client cfg ctx req calls patient delay)
                (sleep-calls clock client cfg ctx req calls m delay
                  ∙ backoff-calls clock client cfg ctx req calls m 1 woken
                  ∙ m.notified w
                  ∙ c)
                k),
        )
      ]

  attempts-Decided :
      IsMeter clock client cfg ctx req calls
      → ((n : ℕ) (v : W) → (clock.wait ctx n v).0 ≡ none)
      → (left : ℕ) (w : W)
      → Decided (calls w) (client ctx req w) (attempts clock client cfg ctx req (suc left) 1 w)
  unfolding attempts
  attempts-Decided m patient left w =
      on_answer-Decided m patient (calls w) (client ctx req w) _ (m.called w)
        (λ v. (attempts-IsWithin clock client cfg ctx req calls m left 2 v).0)

  -- With two attempts or more, and where a measure of the world counts the calls of the backend and
  -- no wait is cut short: either the first answer is a success, or it is, behind its wrappers, the
  -- end of the context or a status that is neither 429 nor from 500 on, and then it is given back
  -- as it is, with the world that it left; or it is any other failure, and then the backend is
  -- called at least once more.
  pub complete-final :
      IsMeter clock client cfg ctx req calls
      → ((n : ℕ) (v : W) → (clock.wait ctx n v).0 ≡ none)
      → 2 ≤ cfg.max_attempts
      → (w : W) → Decided (calls w) (client ctx req w) (complete clock client cfg ctx req w)
  unfolding complete
  complete-final m patient h w =
      let e : cfg.max_attempts - 1 ≡ suc (cfg.max_attempts - 2) = omega (arith, h) in
      rw e (attempts-Decided m patient (cfg.max_attempts - 2) w)
