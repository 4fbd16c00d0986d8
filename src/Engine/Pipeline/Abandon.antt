-- ===== src/Engine/Pipeline/Abandon.antt =====
-- What `RunPipeline` does with the goroutines that are in flight when no step is pending any more.
use j_harness.Base.{
  ℕ, suc, String, List, [], ◌∷◌, ◌≡◌, ◌≢◌, refl, length, List-cases, inl, inr, arith, ap, ◌∙◌,
  Bool-cases, is_empty,
}
use j_harness.Json.{GoLib}
use j_harness.Model.{JobStatus, Step}
use j_harness.Schema.Defs.{Error as SchemaError}
use j_harness.Engine.Defs.{Engine, State}
use j_harness.Engine.Pipeline.Admit.{Plan, Run, admit}
use j_harness.Engine.Pipeline.Receive.{
  Completion, take_at, on_outcome, record_completion, receive, run_body,
}
use j_harness.Engine.Pipeline.Loop.{finished, loop}
use j_harness.Engine.Pipeline.Terminates.{length-take_at}

module _ {F : Type 0} (plan : Plan F) where
  on_outcome-kept :
      (x : JobStatus) (c : Completion) (r : Run F)
      → ((on_outcome x plan c r).pending ≡ r.pending)
        × ((on_outcome x plan c r).inflight ≡ r.inflight)
  on_outcome-kept JobStatus.completed c r = elim (Bool-cases (is_empty c.goto_id)) [
    | inl h ↦ rw h (refl, refl)
    | inr h ↦ rw h (refl, refl)
  ]
  on_outcome-kept _ c r = (refl, refl)

module _ {F W : Type 0} (lib : GoLib F) (clock : W → ℕ) (render : SchemaError → String)
    (e : Engine F W) (plan : Plan F) (schedule : ℕ → ℕ) where
  receive-kept :
      (i : ℕ) (x : Step F × String) (xs : List (Step F × String)) (r : Run F) (s : State W)
      → ((receive lib clock render e plan i x xs r s).0.pending ≡ r.pending)
        × (length (receive lib clock render e plan i x xs r s).0.inflight ≡ length xs)
  unfolding receive record_completion
  receive-kept i x xs r s =
      let job = (take_at i x xs).0 in
      let c = (run_body lib clock render e plan job.0 job.1 s).0 in
      let k = on_outcome-kept plan c.out.status c _ in (k.0, ap length k.1 ∙ length-take_at i x xs)

  loop-nil :
      (fuel : ℕ) (r : Run F) (s : State W)
      → r.pending ≡ []
      → loop lib clock render e schedule plan (suc fuel) r s ≡ ((finished, r), s)
  unfolding loop
  loop-nil fuel r s h = ground arith

  loop-wait :
      (fuel : ℕ) (r : Run F) (s : State W) (x : Step F × String) (xs : List (Step F × String))
      → r.pending ≢ []
      → (admit lib plan plan.order r).inflight ≡ x ∷ xs
      → let (r', s') =
          receive lib clock render e plan (schedule fuel) x xs (admit lib plan plan.order r) s in
        loop lib clock render e schedule plan (suc fuel) r s
        ≡ loop lib clock render e schedule plan fuel r' s'
  unfolding loop
  loop-wait fuel r s x xs n k = elim (List-cases r.pending) [
    | inl e₁ ↦ absurd (n e₁)
    | inr (id, ids, e₁) ↦ ground arith
  ]

  -- When a pass leaves no step pending and two or more goroutines in flight, the run ends with the
  -- first completion, and all the others are still in flight.
  pub loop-abandons :
      (fuel : ℕ) (r : Run F) (s : State W) (x y : Step F × String) (xs : List (Step F × String))
      → r.pending ≢ []
      → (admit lib plan plan.order r).pending ≡ []
      → (admit lib plan plan.order r).inflight ≡ x ∷ y ∷ xs
      → ((loop lib clock render e schedule plan (suc (suc fuel)) r s).0.0 ≡ finished)
        × (length (loop lib clock render e schedule plan (suc (suc fuel)) r s).0.1.inflight
            ≡ suc (length xs))
  loop-abandons fuel r s x y xs n h k =
      let (r', s') =
        receive lib clock render e plan (schedule (suc fuel)) x (y ∷ xs)
          (admit lib plan plan.order r) s in
      let kept = receive-kept (schedule (suc fuel)) x (y ∷ xs) (admit lib plan plan.order r) s in
      rw (loop-wait (suc fuel) r s x (y ∷ xs) n k)
        (rw (loop-nil fuel r' s' (kept.0 ∙ h)) (refl, kept.1))
