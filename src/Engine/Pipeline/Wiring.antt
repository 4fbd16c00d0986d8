-- ===== src/Engine/Pipeline/Wiring.antt =====
-- The plan that `RunPipeline` builds from an accepted pipeline is wired, so the properties of the
-- loop hold of its runs.
use j_harness.Base.{
  ℕ, suc, String, Bool, true, some, List, [], ◌∷◌, ◌≡◌, ap, ◌∙◌, subst, Map, insert, lookup,
  lookup-insert, elem, any, ◌==◌, eq_iff, length, arith, Bool-cases, inl, inr, ok, ◌⊎◌,
}
use j_harness.Json.{GoLib}
use j_harness.Model.{Step, Pipeline, is_completed}
use j_harness.Pipeline.Graph.{Graph, deps, step_ids}
use j_harness.Pipeline.Graph.Cycles.{IsDep}
use j_harness.Pipeline.Graph.Edges.{requires}
use j_harness.Pipeline.Graph.Valid.{deps-edges}
use j_harness.Schema.Defs.{Error as SchemaError}
use j_harness.Engine.Defs.{Engine, State}
use j_harness.Engine.Pipeline.Admit.{Run, status_of}
use j_harness.Engine.Pipeline.Loop.{Ending, finished, loop, start, plan_of, index_steps}
use j_harness.Engine.Pipeline.Phases.{started}
use j_harness.Engine.Pipeline.Order.{IsWired, flying}
use j_harness.Engine.Pipeline.Receipt.{started-deps_completed}
use j_harness.Engine.Pipeline.Cover.{IsTabled}
use j_harness.Engine.Pipeline.Progress.{IsDeclared, loop-finishes}

module _ {F : Type 0} where
  -- What the table holds was in it before, or is a step of the list under its own id.
  index-cases :
      (ss : List (Step F)) (m : Map (Step F)) (id : String) (s : Step F)
      → lookup id (index_steps ss m) ≡ some s
      → (lookup id m ≡ some s)
        ⊎ ((s.id ≡ id) × ((q : Step F → Bool) → q s ≡ true → any q ss ≡ true))
  unfolding index_steps
  index-cases [] m id s h = inl h
  index-cases (x ∷ ss) m id s h = elim (index-cases ss (insert x.id x m) id s h) [
    | inr (same, found) ↦ inr (same, λ q k. ground (arith, found q k))
    | inl old ↦ elim (Bool-cases (x.id == id)) [
      | inl same ↦
          let e : x ≡ s = ground (arith, lookup-insert x.id id x m) in
          inr (subst (λ t. t.id ≡ id) e ((eq_iff x.id id).0 same), λ q k. ground (arith, ap q e, k))
      | inr other ↦ inl (ground (arith, lookup-insert x.id id x m))
    ]
  ]

  index-tabled :
      (ss : List (Step F)) (m : Map (Step F)) (id : String)
      → (elem id (step_ids ss) ≡ true) ⊎ ((s : Step F) × (lookup id m ≡ some s))
      → (s : Step F) × (lookup id (index_steps ss m) ≡ some s)
  unfolding index_steps elem
  index-tabled [] m id h = elim h [ inl a ↦ absurd (cc) | inr found ↦ found ]
  index-tabled (x ∷ ss) m id h = elim (Bool-cases (x.id == id)) [
    | inl same ↦
        index-tabled ss (insert x.id x m) id (inr (x, ground (arith, lookup-insert x.id id x m)))
    | inr other ↦ elim h [
      | inl a ↦ index-tabled ss (insert x.id x m) id (inl (rw other at a))
      | inr (s, e) ↦
          index-tabled ss (insert x.id x m) id (inr (s, ground (arith, lookup-insert x.id id x m)))
    ]
  ]

  pub plan_of-IsTabled :
      (id : String) (p : Pipeline F) (g : Graph) (bound : Map String)
      → IsTabled (plan_of id p g bound)
  plan_of-IsTabled id p g bound j h = index-tabled p.steps [] j (inl h)

  plan_of-IsWired :
      (id : String) (p : Pipeline F) (g : Graph) (bound : Map String)
      → deps p ≡ ok g
      → IsWired (plan_of id p g bound)
  unfolding lookup
  plan_of-IsWired id p g bound h = record {
    keyed = λ j s e. elim (index-cases p.steps [] j s e) [
      | inl none_there ↦ absurd (cc)
      | inr (same, found) ↦ same
    ];
    routed = λ j s t e router taken. elim (index-cases p.steps [] j s e) [
      | inl none_there ↦ absurd (cc)
      | inr (same, found) ↦
          deps-edges p g j t h ∙ found (requires j t) (ground (arith, eq_iff s.id j))
    ];
  }

module _ {F W : Type 0} (lib : GoLib F) (clock : W → ℕ) (render : SchemaError → String)
    (e : Engine F W) (id : String) (p : Pipeline F) (g : Graph) (bound : Map String)
    (accepted : deps p ≡ ok g) (schedule : ℕ → ℕ) (s : State W) where
  -- The ending and the variables of the loop, for a run of pipeline `p`.
  abbrev pub ended : Ending × Run F
  ended =
      (loop lib clock render e schedule (plan_of id p g bound) (suc (length (step_ids p.steps)))
        (start (step_ids p.steps)) s).0

  -- In a run of a pipeline that Deps accepts, however the run ends, whatever the backend answers
  -- and in whatever order the steps complete, a step that is in flight, completed or failed has all
  -- of its dependencies completed.
  pub run-deps_completed :
      (j d : String)
      → started ended.1.state (flying ended.1.inflight) j ≡ true
      → IsDep g d j
      → is_completed (status_of ended.1.state d) ≡ true
  run-deps_completed j d =
      started-deps_completed lib clock render e (plan_of id p g bound)
        (plan_of-IsWired id p g bound accepted) schedule s j d

  -- If the steps of a pipeline that Deps accepts are declared behind their dependencies, its run
  -- never stalls and never runs out of fuel: the loop ends by its own tests.
  pub run-finishes : IsDeclared g [] (step_ids p.steps) → ended.0 ≡ finished
  run-finishes declared =
      loop-finishes lib clock render e (plan_of id p g bound)
        (plan_of-IsWired id p g bound accepted) (plan_of-IsTabled id p g bound) declared schedule s
