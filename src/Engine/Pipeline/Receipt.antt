-- ===== src/Engine/Pipeline/Receipt.antt =====
-- The receipt of a completion keeps the phases of all steps in order; so a run does.
use j_harness.Base.{
  ℕ, zero, suc, String, true, false, ◌||◌, Option, none, some, List, [], ◌∷◌, ◌≡◌, refl, sym, subst,
  ap, ◌∙◌, Map, insert, lookup, elem, any, Distinct, All, ◌==◌, eq_iff, eq_refl, is_empty, arith,
  Bool-cases, inl, inr, Result, ok, err, length,
}
use j_harness.Json.{GoLib}
use j_harness.Model.{JobStatus, completed, skipped, is_completed, Step, Route}
use j_harness.Pipeline.Error.{Error as PipelineError}
use j_harness.Pipeline.Graph.Cycles.{IsDep}
use j_harness.Pipeline.Condition.{pick_route}
use j_harness.Schema.Defs.{Error as SchemaError}
use j_harness.Engine.Defs.{Engine, State, Error, AgentResult}
use j_harness.Engine.Agent.{run_agent}
use j_harness.Engine.Pipeline.Admit.{Plan, Run, status_of, admit}
use j_harness.Engine.Pipeline.Receive.{
  Completion, skip_others, take_at, on_outcome, record_completion, run_body, receive,
  route_completion, agent_completion, routes_of,
}
use j_harness.Engine.Pipeline.Loop.{loop, start}
use j_harness.Engine.Pipeline.Terminates.{Rule, loop_rule}
use j_harness.Engine.Pipeline.Phases.{
  is_settled, started, status_of-insert, Inv, Inv-skip, Inv-land,
}
use j_harness.Engine.Pipeline.Order.{IsWired, RunInv, flying, admit-RunInv}

-- What the completion of a step in flight tells: it ends with a result or an error, and a goto
-- that it names is the choice of a router.
pub record IsEnd {F : Type 0} (step : Step F) (c : Completion) : Type 0 where
  pub own : c.step_id ≡ step.id
  pub settled : is_settled c.out.status ≡ true
  pub routes : is_empty c.goto_id ≡ false → step.router ≡ true

module _ {F : Type 0} (plan : Plan F) where
  -- Skipping the branches that a router in flight did not take.
  skip_others-Inv :
      (routes : List (Route F)) (target : String) (st : Map JobStatus) (fl pe : List String)
      → ((t : String) → any (λ r. r.goto == t) routes ≡ true → started st fl t ≡ false)
      → Inv plan.graph st fl pe
      → Inv plan.graph (skip_others routes target st) fl pe
  unfolding skip_others
  skip_others-Inv [] target st fl pe n v = v
  skip_others-Inv (rt ∷ rts) target st fl pe n v = elim (Bool-cases (rt.goto == target)) [
    | inl same ↦ rw same (skip_others-Inv rts target st fl pe (λ t h. n t (ground arith)) v)
    | inr other ↦ rw other (
        skip_others-Inv rts target (insert rt.goto skipped st) fl pe
          (λ t h. ground (arith, status_of-insert rt.goto t skipped st, n t))
          (Inv-skip v rt.goto (n rt.goto (rw (eq_refl rt.goto)))))
  ]

module _ {F : Type 0} where
  pub elem-take_at :
      (i : ℕ) (x : Step F × String) (xs : List (Step F × String)) (j : String)
      → elem j (flying (x ∷ xs))
        ≡ ((take_at i x xs).0.0.id == j || elem j (flying (take_at i x xs).1))
  unfolding take_at elem
  elem-take_at zero x xs j = refl
  elem-take_at (suc i) x [] j = refl
  elem-take_at (suc i) x (y ∷ ys) j = ground (arith, elem-take_at i y ys j)

  Distinct-take_at :
      (i : ℕ) (x : Step F × String) (xs : List (Step F × String))
      → Distinct (flying (x ∷ xs))
      → Distinct ((take_at i x xs).0.0.id ∷ flying (take_at i x xs).1)
  unfolding take_at elem
  Distinct-take_at zero x xs d = d
  Distinct-take_at (suc i) x [] d = d
  Distinct-take_at (suc i) x (y ∷ ys) d =
      let z = (take_at i y ys).0.0.id in
      let r = Distinct-take_at i y ys d.1 in
      (
        ground (arith, r.0, d.0, elem-take_at i y ys x.0.id, eq_iff x.0.id z, eq_iff z x.0.id),
        (ground (arith, d.0, elem-take_at i y ys x.0.id), r.1),
      )

  All-take_at :
      (P : Step F × String → Type 0) (i : ℕ) (x : Step F × String) (xs : List (Step F × String))
      → All P (x ∷ xs)
      → P (take_at i x xs).0 × All P (take_at i x xs).1
  unfolding take_at
  All-take_at P zero x xs a = a
  All-take_at P (suc i) x [] a = a
  All-take_at P (suc i) x (y ∷ ys) a = let (p, rest) = All-take_at P i y ys a.1 in (p, (a.0, rest))

  route_completion-IsEnd :
      (plan : Plan F) (step : Step F)
      → step.router ≡ true
      → (r : Result PipelineError String) → IsEnd step (route_completion plan.steps step.id r)
  route_completion-IsEnd plan step h (err x) = record {
    own = refl;
    settled = refl;
    routes = λ e. h;
  }
  route_completion-IsEnd plan step h (ok target) = record {
    own = refl;
    settled = ground arith;
    routes = λ e. h;
  }

  agent_completion-IsEnd :
      (step : Step F) (o : AgentResult × Option Error) → IsEnd step (agent_completion step.id o)
  agent_completion-IsEnd step (res, none) = record {
    own = refl;
    settled = refl;
    routes = λ e. absurd (cc);
  }
  agent_completion-IsEnd step (res, some x) = record {
    own = refl;
    settled = refl;
    routes = λ e. absurd (cc);
  }

module _ {F W : Type 0} (lib : GoLib F) (clock : W → ℕ) (render : SchemaError → String)
    (e : Engine F W) (plan : Plan F) where
  pub run_body-IsEnd :
      (step : Step F) (decoded : String) (s : State W)
      → IsEnd step (run_body lib clock render e plan step decoded s).0
  unfolding run_body
  run_body-IsEnd step decoded s = elim (Bool-cases step.router) [
    | inl h ↦ simp h (route_completion-IsEnd plan step h (pick_route lib step.routes decoded))
    | inr h ↦
        simp h
          (agent_completion-IsEnd step (run_agent lib clock render e step.agent_id decoded s).0)
  ]

  -- The routes of a step in flight lead to steps that were not started.
  targets-waiting :
      (wired : IsWired plan) (st : Map JobStatus) (fl pe : List String) (step : Step F)
      → Inv plan.graph st fl pe
      → elem step.id fl ≡ true
      → lookup step.id plan.steps ≡ some step
      → step.router ≡ true
      → (t : String) → any (λ r. r.goto == t) step.routes ≡ true
      → started st fl t ≡ false
  targets-waiting wired st fl pe step v flies listed router t h =
      elim (Bool-cases (started st fl t)) [
        | inr no_start ↦ no_start
        | inl starts ↦
            let done = v.backed t step.id starts (wired.routed step.id step t listed router h) in
            absurd (clash (status_of st step.id) done (v.unsettled step.id flies))
      ]
    where
      clash : (x : JobStatus) → is_completed x ≡ true → is_settled x ≡ false → ⊥
      clash completed a b = cc
      clash _ a b = cc

  on_outcome-RunInv :
      (wired : IsWired plan) (x : JobStatus) (c : Completion) (r : Run F)
      → RunInv plan r
      → (is_empty c.goto_id ≡ false
          → (t : String) → any (λ rt. rt.goto == t) (routes_of (lookup c.step_id plan.steps)) ≡ true
          → started r.state (flying r.inflight) t ≡ false)
      → RunInv plan (on_outcome x plan c r)
  unfolding lookup
  on_outcome-RunInv wired completed c r v n = elim (Bool-cases (is_empty c.goto_id)) [
    | inl h ↦ rw h (record { phases = v.phases; listed = v.listed })
    | inr h ↦ rw h (record {
      phases =
          skip_others-Inv plan (routes_of (lookup c.step_id plan.steps)) c.goto_id r.state
            (flying r.inflight) r.pending (n h) v.phases;
      listed = v.listed;
    })
  ]
  on_outcome-RunInv wired _ c r v n = record { phases = v.phases; listed = v.listed }

  abbrev IsListed : List (Step F × String) → Type 0
  IsListed = All (λ j. lookup j.0.id plan.steps ≡ some j.0)

  record_completion-RunInv :
      (wired : IsWired plan) (step : Step F) (rest : List (Step F × String)) (c : Completion)
      (r : Run F)
      → RunInv plan r
      → ((j : String) → elem j (flying r.inflight) ≡ (step.id == j || elem j (flying rest)))
      → Distinct (step.id ∷ flying rest)
      → lookup step.id plan.steps ≡ some step
      → IsListed rest
      → IsEnd step c
      → RunInv plan (record_completion plan c (record r { inflight = rest }))
  unfolding record_completion
  record_completion-RunInv wired step rest c r v same dist found listed ended =
      on_outcome-RunInv wired c.out.status c _
        (record {
          phases =
              subst (λ k. Inv plan.graph (insert k c.out.status r.state) (flying rest) r.pending)
                (sym ended.own)
                (Inv-land v.phases step.id (flying rest) same dist c.out.status ended.settled);
          listed = listed;
        })
        (λ routed t h.
          let at_home =
            subst (λ k. any (λ rt. rt.goto == t) (routes_of (lookup k plan.steps)) ≡ true) ended.own
              h in
          let taken = subst (λ o. any (λ rt. rt.goto == t) (routes_of o) ≡ true) found at_home in
          let idle =
            targets-waiting wired r.state (flying r.inflight) r.pending step v.phases
              (ground (arith, same step.id, eq_refl step.id)) found (ended.routes routed) t taken in
          subst (λ k. started (insert k c.out.status r.state) (flying rest) t ≡ false)
            (sym ended.own)
            (ground (arith, same t, idle, status_of-insert step.id t c.out.status r.state)))

  receive-RunInv :
      (wired : IsWired plan) (i : ℕ) (x : Step F × String) (xs : List (Step F × String)) (r : Run F)
      (s : State W)
      → RunInv plan r
      → r.inflight ≡ x ∷ xs
      → RunInv plan (receive lib clock render e plan i x xs r s).0
  unfolding receive
  receive-RunInv wired i x xs r s v h =
      let job = (take_at i x xs).0 in
      let rest = (take_at i x xs).1 in
      let flight = subst IsListed h v.listed in
      let split = All-take_at (λ j. lookup j.0.id plan.steps ≡ some j.0) i x xs flight in
      record_completion-RunInv wired job.0 rest (run_body lib clock render e plan job.0 job.1 s).0 r
        v (λ j. ap (λ l. elem j (flying l)) h ∙ elem-take_at i x xs j)
        (Distinct-take_at i x xs (subst (λ l. Distinct (flying l)) h v.phases.distinct)) split.0
        split.1 (run_body-IsEnd job.0 job.1 s)

  start-RunInv : (ids : List String) → RunInv plan (start ids)
  unfolding elem lookup
  start-RunInv ids = record {
    phases = record {
      unsettled = λ id h. absurd (cc);
      waiting = λ id h. refl;
      backed = λ id d h k. absurd (cc);
      distinct = tt;
    };
    listed = tt;
  }

  -- However a run ends and in whatever order its steps completed: a step that was started, so one
  -- that is reported as completed or as failed, has all of its dependencies completed.
  pub started-deps_completed :
      IsWired plan
      → (schedule : ℕ → ℕ) (s : State W) (id d : String)
      → let r =
          (loop lib clock render e schedule plan
            (suc (length plan.order))
            (start plan.order)
            s).0.1 in
        started r.state (flying r.inflight) id ≡ true
        → IsDep plan.graph d id
        → is_completed (status_of r.state d) ≡ true
  started-deps_completed wired schedule s id d =
      let v =
        loop_rule lib clock render e plan {P = RunInv plan} {Q = λ x r. RunInv plan r} rule schedule
          (suc (length plan.order)) (start plan.order) s (omega arith) (start-RunInv plan.order) in
      v.phases.backed id d
    where
      rule : Rule lib clock render e plan (RunInv plan) (λ x r. RunInv plan r)
      rule = record {
        ended = λ r v h. v;
        stopped = λ r v n h. admit-RunInv lib plan wired plan.order r v;
        again = λ r i x xs s' v h.
            receive-RunInv wired i x xs (admit lib plan plan.order r) s'
              (admit-RunInv lib plan wired plan.order r v) h;
      }
