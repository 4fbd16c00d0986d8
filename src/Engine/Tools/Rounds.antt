-- ===== src/Engine/Tools/Rounds.antt =====
-- How often the tool loop calls the backend, and what it counts.
use j_harness.Base.{
  ℕ, zero, suc, ◌+◌, ◌≤◌, String, List, ◌≡◌, Result, ok, err, List-cases, inl, inr, arith, ◌<◌, ◌%◌,
  ◌^◌, ◌-◌, ap,
}
use j_harness.Json.{GoLib}
use j_harness.Llm.{Request, Response, Context, CallError}
use j_harness.Engine.Messages.{add_usage, no_usage}
use j_harness.Engine.Defs.{Engine}
use j_harness.Engine.Tools.{Reply, on_reply, next_request, tool_rounds, complete_with_tools}

-- The tokens that a call reports; a failed one reports none.
abbrev pub tokens_of : Result CallError Response → ℕ
tokens_of (ok resp) = resp.total_tokens
tokens_of (err x) = 0

module _ {F W : Type 0} (lib : GoLib F) (e : Engine F W) (ctx : Context) (allowed : List String)
    (calls spent : W → ℕ) where
  -- `calls` counts the calls of the backend, and `spent` adds up the tokens that they report.
  abbrev pub IsMeter : Type 0
  IsMeter =
      (req : Request F) (w : W)
      → (calls (e.client ctx req w).1 ≡ suc (calls w))
        × (spent (e.client ctx req w).1 ≡ spent w + tokens_of (e.client ctx req w).0)

  -- From a state, with a usage so far, to a reply: at most so many calls, and the tokens they report.
  abbrev Metered : ℕ → ℕ → Response → W → Reply W → Type 0
  Metered low high usage w reply =
      (low + calls w ≤ calls reply.1)
      × (calls reply.1 ≤ calls w + high)
      × (spent w ≤ spent reply.1)
      × (usage.total_tokens < 2 ^ 64 → reply.0.0.total_tokens < 2 ^ 64)
      × ((spent reply.1 + usage.total_tokens) % 2 ^ 64
          ≡ (spent w + reply.0.0.total_tokens) % 2 ^ 64)

  on_reply-Metered :
      (n : ℕ) (usage : Response) (r : Result CallError Response × W) (w : W)
      (more : Response → Response → W → Reply W)
      → calls r.1 ≡ suc (calls w)
      → spent r.1 ≡ spent w + tokens_of r.0
      → ((usage' resp : Response) (w' : W) → Metered 0 n usage' w' (more usage' resp w'))
      → Metered 1 (suc n) usage w (on_reply usage r more)
  on_reply-Metered n usage (err x, w') w more c s k =
      (omega arith, omega arith, omega arith, λ h. h, ap (λ m. m % 2 ^ 64) (omega arith))
  on_reply-Metered n usage (ok resp, w') w more c s k = elim (List-cases resp.tool_calls) [
    | inl h ↦ simp h (omega arith, omega arith, omega arith, λ u. omega arith, omega arith)
    | inr (call, rest, h) ↦
        let step = k (add_usage usage resp) resp w' in
        simp h (
          omega (arith, step.0),
          omega (arith, step.1),
          omega (arith, step.2),
          λ u. step.3 (omega arith),
          omega (arith, step.4),
        )
  ]

  tool_rounds-Metered :
      (n : ℕ) (req : Request F) (usage : Response) (w : W)
      → IsMeter
      → Metered 0 n usage w (tool_rounds lib e ctx allowed n req usage w)
  unfolding tool_rounds
  tool_rounds-Metered zero req usage w meter =
      (omega arith, omega arith, omega arith, λ h. h, ap (λ m. m % 2 ^ 64) (omega arith))
  tool_rounds-Metered (suc n) req usage w meter =
      let step =
        on_reply-Metered n usage (e.client ctx req w) w _ (meter req w).0 (meter req w).1
          (λ usage' resp w'.
            tool_rounds-Metered n (next_request lib e w' allowed req resp) usage' w' meter) in
      (omega (arith, step.0), step.1, step.2, step.3, step.4)

  -- If a measure of the world counts the calls of the backend and another adds up the tokens that
  -- they report, each as its 64-bit pattern, the tool loop makes at least one and at most five
  -- calls, and the total of tokens that it returns, also beside an error, is what those calls
  -- added, modulo 2 ^ 64.
  pub complete_with_tools-metered :
      (req : Request F) (w : W)
      → IsMeter
      → let reply = complete_with_tools lib e ctx req allowed w in
        (suc (calls w) ≤ calls reply.1)
        × (calls reply.1 ≤ calls w + 5)
        × (spent w ≤ spent reply.1)
        × (reply.0.0.total_tokens ≡ (spent reply.1 - spent w) % 2 ^ 64)
  unfolding complete_with_tools tool_rounds
  complete_with_tools-metered req w meter =
      let step : Metered 1 5 no_usage w (complete_with_tools lib e ctx req allowed w) =
        on_reply-Metered 4 no_usage (e.client ctx req w) w _ (meter req w).0 (meter req w).1
          (λ usage' resp w'.
            tool_rounds-Metered 4 (next_request lib e w' allowed req resp) usage' w' meter) in
      (omega (arith, step.0), step.1, step.2, omega (arith, step.2, step.3 (omega arith), step.4))
