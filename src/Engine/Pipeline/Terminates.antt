-- ===== src/Engine/Pipeline/Terminates.antt =====
-- The main loop of `RunPipeline` ends: each round that goes on receives one completion.
use j_harness.Base.{
  ℕ, zero, suc, ◌+◌, ◌≤◌, ◌<◌, String, Bool, true, false, Option, none, some, List, [], ◌∷◌, ◌≡◌,
  ◌≢◌, refl, length, length-append, lookup, ap, List-cases, is_empty, elem, remove,
  length-remove_lt, Result, ok, err, arith, Bool-cases, inl, inr,
}
use j_harness.Json.{GoLib}
use j_harness.Model.{JobStatus, Step}
use j_harness.Pipeline.Graph.{deps_of}
use j_harness.Schema.Defs.{Error as SchemaError}
use j_harness.Engine.Defs.{Engine, State, Error}
use j_harness.Engine.Pipeline.Admit.{
  Plan, Run, Readiness, ready, skip, blocked, status_of, dep_status, launched, resolved, launch,
  launch_id, on_readiness, on_status, consider, admit_one, step_pass, admit,
}
use j_harness.Engine.Pipeline.Receive.{
  Completion, on_outcome, take_at, record_completion, receive, run_body,
}
use j_harness.Engine.Pipeline.Loop.{Ending, finished, out_of_fuel, stop, loop, start}

-- Steps that are still to be started or awaited.
abbrev pub work : {F : Type 0} → Run F → ℕ
work r = length r.pending + length r.inflight

module _ {F : Type 0} (lib : GoLib F) (plan : Plan F) where
  work-launched :
      (step : Step F) (input : Result Error String) (r : Run F)
      → work (launched lib plan step input r) ≤ work r + 1
  work-launched step (ok decoded) r =
      omega (arith, length-append {0} r.inflight ((step, decoded) ∷ []))
  work-launched step (err e) r = omega arith

  work-launch_id : (o : Option (Step F)) (r : Run F) → work (launch_id lib plan o r) ≤ work r + 1
  unfolding launch
  work-launch_id none r = omega arith
  work-launch_id (some step) r = work-launched step (resolved lib plan step r) r

  work-on_readiness :
      (x : Readiness) (id : String) (r : Run F)
      → elem id r.pending ≡ true
      → work (on_readiness lib plan x id r) ≤ work r
  unfolding lookup
  work-on_readiness skip id r h = omega (arith, length-remove_lt id r.pending h)
  work-on_readiness blocked id r h = omega arith
  work-on_readiness ready id r h = omega (
    arith,
    length-remove_lt id r.pending h,
    work-launch_id (lookup id plan.steps) (record r { pending = remove id r.pending }),
  )

  work-on_status :
      (x : JobStatus) (id : String) (r : Run F)
      → elem id r.pending ≡ true
      → work (on_status lib plan x id r) ≤ work r
  unfolding dep_status deps_of
  work-on_status JobStatus.skipped id r h = omega (arith, length-remove_lt id r.pending h)
  work-on_status _ id r h = work-on_readiness (dep_status r.state (deps_of plan.graph id)) id r h

  work-admit_one :
      (failure : Option Error) (waits : Bool) (id : String) (r : Run F)
      → elem id r.pending ≡ waits
      → work (admit_one lib plan failure waits id r) ≤ work r
  unfolding consider
  work-admit_one (some x) waits id r h = omega arith
  work-admit_one none false id r h = omega arith
  work-admit_one none true id r h = work-on_status (status_of r.state id) id r h

  work-admit : (ids : List String) (r : Run F) → work (admit lib plan ids r) ≤ work r
  unfolding admit step_pass
  work-admit [] r = omega arith
  work-admit (id ∷ ids) r = omega (
    arith,
    work-admit_one r.failure (elem id r.pending) id r refl,
    work-admit ids (step_pass lib plan id r),
  )

pub length-take_at :
    {A : Type 0} (i : ℕ) (x : A) (xs : List A) → length (take_at i x xs).1 ≡ length xs
unfolding take_at
length-take_at zero x xs = refl
length-take_at (suc i) x [] = refl
length-take_at (suc i) x (y ∷ ys) = omega (arith, length-take_at i y ys)

work-on_outcome :
    {F : Type 0} (x : JobStatus) (plan : Plan F) (c : Completion) (r : Run F)
    → work (on_outcome x plan c r) ≡ work r
work-on_outcome JobStatus.completed plan c r = elim (Bool-cases (is_empty c.goto_id)) [
  | inl h ↦ rw h
  | inr h ↦ rw h
]
work-on_outcome _ plan c r = refl

work-record_completion :
    {F : Type 0} (plan : Plan F) (c : Completion) (r : Run F)
    → work (record_completion plan c r) ≡ work r
unfolding record_completion
work-record_completion plan c r = work-on_outcome c.out.status plan c _

module _ {F W : Type 0} (lib : GoLib F) (clock : W → ℕ) (render : SchemaError → String)
    (e : Engine F W) (plan : Plan F) where
  work-receive :
      (i : ℕ) (x : Step F × String) (xs : List (Step F × String)) (r : Run F) (s : State W)
      → r.inflight ≡ x ∷ xs
      → work (receive lib clock render e plan i x xs r s).0 + 1 ≡ work r
  unfolding receive
  work-receive i x xs r s h =
      let job = (take_at i x xs).0 in
      let c = (run_body lib clock render e plan job.0 job.1 s).0 in
      omega (
        arith,
        work-record_completion plan c (record r { inflight = (take_at i x xs).1 }),
        length-take_at i x xs,
        ap length h,
      )

  -- What to show of an invariant `P` at the head of the loop and a result `Q` of the run.
  pub record Rule (P : Run F → Type 0) (Q : Ending → Run F → Type 0) : Type 0 where
    pub ended : (r : Run F) → P r → r.pending ≡ [] → Q finished r
    pub stopped :
        (r : Run F)
        → P r
        → r.pending ≢ []
        → (admit lib plan plan.order r).inflight ≡ []
        → Q
            (stop (admit lib plan plan.order r).failure (admit lib plan plan.order r).pending)
            (admit lib plan plan.order r)
    pub again :
        (r : Run F) (i : ℕ) (x : Step F × String) (xs : List (Step F × String)) (s : State W)
        → P r
        → (admit lib plan plan.order r).inflight ≡ x ∷ xs
        → P (receive lib clock render e plan i x xs (admit lib plan plan.order r) s).0

  -- The rule: with fuel for the work that is left, what holds at the start ends in the result.
  pub loop_rule :
      {P : Run F → Type 0} {Q : Ending → Run F → Type 0}
      → Rule P Q
      → (schedule : ℕ → ℕ) (fuel : ℕ) (r : Run F) (s : State W) → work r < fuel
      → P r
      → Q
          (loop lib clock render e schedule plan fuel r s).0.0
          (loop lib clock render e schedule plan fuel r s).0.1
  unfolding loop
  loop_rule rule schedule zero r s h p = absurd (omega arith)
  loop_rule {P} {Q} rule schedule (suc fuel) r s h p = elim (List-cases r.pending) [
    | inl e₁ ↦ rw (e₁, loop) (rule.ended r p e₁)
    | inr (id, ids, e₁) ↦
        let r' = admit lib plan plan.order r in
        elim (List-cases r'.inflight) [
          | inl e₂ ↦ rw (e₁, loop) (rw e₂ (rule.stopped r p (λ z. cc) e₂))
          | inr (x, xs, e₂) ↦
              rw (e₁, loop)
                (rw e₂ (
                  loop_rule rule schedule fuel
                    (receive lib clock render e plan (schedule fuel) x xs r' s).0
                    (receive lib clock render e plan (schedule fuel) x xs r' s).1
                    (omega (
                      arith,
                      work-receive (schedule fuel) x xs r' s e₂,
                      work-admit lib plan plan.order r,
                    ))
                    (rule.again r (schedule fuel) x xs s p e₂)))
        ]
  ]

-- The main loop of RunPipeline ends by its own tests, whatever the backend answers and in whatever
-- order the steps complete: one round more than there are steps is enough.
pub loop-ne-out_of_fuel :
    {F W : Type 0} (lib : GoLib F) (clock : W → ℕ) (render : SchemaError → String) (e : Engine F W)
    (schedule : ℕ → ℕ) (plan : Plan F) (s : State W)
    → (loop lib clock render e schedule plan (suc (length plan.order)) (start plan.order) s).0.0
      ≢ out_of_fuel
loop-ne-out_of_fuel lib clock render e schedule plan s =
    loop_rule lib clock render e plan {P = λ r. Unit} {Q = λ x r. x ≢ out_of_fuel} rule schedule
      (suc (length plan.order)) (start plan.order) s (omega arith) tt
  where
    stop-ne : (f : Option Error) (ids : List String) → stop f ids ≢ out_of_fuel
    stop-ne (some x) ids = λ h. cc
    stop-ne none [] = λ h. cc
    stop-ne none (id ∷ ids) = λ h. cc

    rule : Rule lib clock render e plan (λ r. Unit) (λ x r. x ≢ out_of_fuel)
    rule = record {
      ended = λ r p h k. cc;
      stopped = λ r p n h. stop-ne _ _;
      again = λ r i x xs s' p h. tt;
    }
