-- ===== src/Registry/Routes.antt =====
-- Where the routers of an accepted pipeline lead.
use j_harness.Base.{
  String, Bool, true, false, ◌||◌, Option, none, some, List, [], ◌∷◌, ◌≡◌, refl, Map, lookup, elem,
  any, All, Result, ok, err, >>=-eq-ok, Bool-cases, inl, inr, ◌⊎◌, arith, ◌==◌, eq_iff, subst,
}
use j_harness.Json.{GoLib}
use j_harness.Model.{completed, Condition, Route, Step, Pipeline}
use j_harness.Pipeline.Error.{Error as PipelineError}
use j_harness.Pipeline.Condition.{
  evaluate_condition, finish, chosen, try_route, pick_from, pick_route,
}
use j_harness.Pipeline.Graph.{step_ids}
use j_harness.Engine.Defs.{route_failed}
use j_harness.Engine.Pipeline.Loop.{index_steps}
use j_harness.Engine.Pipeline.Wiring.{plan_of-IsTabled}
use j_harness.Engine.Pipeline.Receive.{Completion, route_completion}
use j_harness.Registry.{validate_pipeline}
use j_harness.Registry.Valid.{IsRoute, validate_pipeline-IsLoadable}

All-map :
    {A : Type 0} {P Q : A → Type 0} → ((a : A) → P a → Q a) → (xs : List A) → All P xs → All Q xs
All-map f [] h = tt
All-map f (x ∷ xs) h = (f x h.0, All-map f xs h.1)

module _ {F : Type 0} (lib : GoLib F) where
  -- The fallback so far, or the target of one of the routes.
  abbrev IsTarget : Option String → List (Route F) → String → Type 0
  IsTarget fallback rts g = (fallback ≡ some g) ⊎ (any (λ r. r.goto == g) rts ≡ true)

  finish-IsTarget :
      (fallback : Option String) (g : String) → finish lib fallback ≡ ok g → IsTarget fallback [] g
  finish-IsTarget none g h = cc
  finish-IsTarget (some f) g h = inl cc

  chosen-IsTarget :
      (matched : Bool) (target : String) (fallback : Option String) (rts : List (Route F))
      (rest : Result PipelineError String) (g : String)
      → (rest ≡ ok g → IsTarget fallback rts g)
      → chosen lib matched target rest ≡ ok g
      → (fallback ≡ some g) ⊎ ((target == g || any (λ r. r.goto == g) rts) ≡ true)
  chosen-IsTarget true target fallback rts rest g k h = inr (ground (arith, eq_iff target g))
  chosen-IsTarget false target fallback rts rest g k h = elim (k h) [
    | inl e ↦ inl e
    | inr there ↦ inr (ground arith)
  ]

  try_route-IsTarget :
      (default : Bool) (when : Option (Condition F)) (target input : String)
      (fallback : Option String) (rts : List (Route F))
      (rest : Option String → Result PipelineError String) (g : String)
      → ((fb : Option String) → rest fb ≡ ok g → IsTarget fb rts g)
      → try_route lib default when target input fallback rest ≡ ok g
      → (fallback ≡ some g) ⊎ ((target == g || any (λ r. r.goto == g) rts) ≡ true)
  try_route-IsTarget true when target input fallback rts rest g k h = elim (k (some target) h) [
    | inl e ↦ inr (ground (arith, eq_iff target g))
    | inr there ↦ inr (ground arith)
  ]
  try_route-IsTarget false none target input fallback rts rest g k h = elim (k fallback h) [
    | inl e ↦ inl e
    | inr there ↦ inr (ground arith)
  ]
  try_route-IsTarget false (some c) target input fallback rts rest g k h =
      let (matched, evaluated, found) = >>=-eq-ok (evaluate_condition lib c input) _ h in
      chosen-IsTarget matched target fallback rts (rest fallback) g (k fallback) found

  pick_from-IsTarget :
      (rts : List (Route F)) (input : String) (fallback : Option String) (g : String)
      → pick_from lib rts input fallback ≡ ok g
      → IsTarget fallback rts g
  unfolding pick_from
  pick_from-IsTarget [] input fallback g h = finish-IsTarget fallback g h
  pick_from-IsTarget (r ∷ rts) input fallback g h =
      try_route-IsTarget r.default r.when r.goto input fallback rts (pick_from lib rts input) g
        (λ fb k. pick_from-IsTarget rts input fb g k) h

-- The targets of routes that lead to steps are steps.
any-goto :
    {F : Type 0} (known : String → Bool) (ids : List String) (rts : List (Route F)) (g : String)
    → All (IsRoute known ids) rts
    → any (λ r. r.goto == g) rts ≡ true
    → elem g ids ≡ true
any-goto known ids [] g a h = cc
any-goto known ids (r ∷ rts) g a h = elim (Bool-cases (r.goto == g)) [
  | inl same ↦ subst (λ t. elem t ids ≡ true) ((eq_iff r.goto g).0 same) a.0.0
  | inr other ↦ any-goto known ids rts g a.1 (ground arith)
]

-- A router's run ends with a step of the pipeline to go to, or with the error of its routes.
abbrev pub Leads : List String → Completion → Type 0
Leads ids c =
    (c.out.status ≡ completed) × (elem c.goto_id ids ≡ true)
    ⊎ ((x : PipelineError) × (c.out.error ≡ some (route_failed x)))

route_completion-found :
    {F : Type 0} (steps : Map (Step F)) (id g : String) (s : Step F)
    → lookup g steps ≡ some s
    → (route_completion steps id (ok g)).out.status ≡ completed
route_completion-found steps id g s h = ground arith

module _ {F : Type 0} (lib : GoLib F) (p : Pipeline F) where
  route_completion-Leads :
      (id : String) (r : Result PipelineError String)
      → ((g : String) → r ≡ ok g → elem g (step_ids p.steps) ≡ true)
      → Leads (step_ids p.steps) (route_completion (index_steps p.steps []) id r)
  route_completion-Leads id (err x) h = inr (x, refl)
  route_completion-Leads id (ok g) h =
      let (s, found) = plan_of-IsTabled "" p [] [] g (h g refl) in
      let there : lookup g (index_steps p.steps []) ≡ some s = found in
      inl (route_completion-found (index_steps p.steps []) id g s there, h g refl)

  -- In a pipeline that the registry accepts, a router never ends with the error that its target is
  -- not a step: whatever its input, it completes with a step of the pipeline to go to, or fails
  -- with an error of its input or its routes.
  pub router-Leads :
      (known : String → Bool) (filename : String)
      → validate_pipeline known filename p ≡ ok tt
      → (input : String)
      → All
          (λ s.
            s.router ≡ true
            → Leads
                (step_ids p.steps)
                (route_completion (index_steps p.steps []) s.id (pick_route lib s.routes input)))
          p.steps
  unfolding pick_route
  router-Leads known filename accepted input =
      All-map
        (λ s runnable router.
          route_completion-Leads s.id (pick_route lib s.routes input) (λ g picked.
            elim (pick_from-IsTarget lib s.routes input none g picked) [
              | inl none_yet ↦ absurd (cc none_yet)
              | inr there ↦ any-goto known (step_ids p.steps) s.routes g (runnable.0 router).1 there
            ]))
        p.steps (validate_pipeline-IsLoadable known filename p accepted).runnable
