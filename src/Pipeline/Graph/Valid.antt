-- ===== src/Pipeline/Graph/Valid.antt =====
-- `Deps` as a whole: which graphs it accepts, what their edges are, and when it reports a cycle.
use j_harness.Base.{
  String, true, false, [], ◌≡◌, refl, elem, any, lookup, arith, ok, err, >>=-eq-ok, inl, inr, ◌⊎◌,
}
use j_harness.Model.{Pipeline}
use j_harness.Pipeline.Error.{dependency_cycle}
use j_harness.Pipeline.Graph.{
  Graph, deps_of, Colors, Visit, done, cycle, exhausted, judge, add_steps, deps, step_ids,
  check_acyclic,
}
use j_harness.Pipeline.Graph.Cycles.{IsDep, OnCycle, Grounded, Grounded→not-OnCycle}
use j_harness.Pipeline.Graph.Search.{Verdict, check_acyclic-Verdict}
use j_harness.Pipeline.Graph.Edges.{requires, edge-add_steps, add_steps-Inside}

module _ {F : Type 0} (p : Pipeline F) where
  judge-eq-ok :
      (v : Visit) (g₀ g : Graph) → judge v g₀ ≡ ok g → (g₀ ≡ g) × ((c : Colors) × (v ≡ done c))
  judge-eq-ok (done c) g₀ g h = (cc, (c, refl))
  judge-eq-ok (cycle d) g₀ g h = cc
  judge-eq-ok exhausted g₀ g h = cc

  built : (g : Graph) → deps p ≡ ok g → add_steps (step_ids p.steps) p.steps [] ≡ ok g
  unfolding deps
  built g h =
      let (g₀, a, b) = >>=-eq-ok (add_steps (step_ids p.steps) p.steps []) _ h in
      cc (a, (judge-eq-ok (check_acyclic (step_ids p.steps) g₀) g₀ g b).0)

  no_edges : (d id : String) → elem d (deps_of [] id) ≡ false
  unfolding deps_of lookup elem
  no_edges d id = refl

  built-closed :
      (g : Graph)
      → add_steps (step_ids p.steps) p.steps [] ≡ ok g
      → (id d : String) → IsDep g d id
      → elem d (step_ids p.steps) ≡ true
  built-closed g h id d =
      add_steps-Inside (step_ids p.steps) d id p.steps [] g (λ j e. e) h
        (λ e. absurd (cc (no_edges d id)))

  -- The graph of an accepted pipeline has the edges that a template reference, a needs entry or the
  -- goto of a router asks for, and no other.
  pub deps-edges :
      (g : Graph) (d id : String)
      → deps p ≡ ok g
      → elem d (deps_of g id) ≡ any (requires d id) p.steps
  deps-edges g d id h =
      ground (arith, no_edges d id, edge-add_steps (step_ids p.steps) d id p.steps [] g (built g h))

  Verdict-sound :
      (g : Graph) (v : Visit)
      → Verdict g (λ c. (id : String) → elem id (step_ids p.steps) ≡ true → Grounded g id) v
      → (g' : Graph) → judge v g ≡ ok g'
      → (id : String) → elem id (step_ids p.steps) ≡ true
      → Grounded g id
  Verdict-sound g (done c) x g' h = x
  Verdict-sound g (cycle d) x g' h = cc
  Verdict-sound g exhausted x g' h = cc

  -- In the graph of an accepted pipeline the dependencies are steps of the pipeline, those of each
  -- step come to an end, and no step waits for itself.
  pub deps-Grounded :
      (g : Graph)
      → deps p ≡ ok g
      → ((id d : String) → IsDep g d id → elem d (step_ids p.steps) ≡ true)
        × ((id : String) → elem id (step_ids p.steps) ≡ true → Grounded g id × ¬ OnCycle g id)
  unfolding deps
  deps-Grounded g h =
      let b = built g h in
      let closed = built-closed g b in
      let all = check_acyclic-Verdict g (step_ids p.steps) closed in
      let j = rw (b, deps) at h in
      (
        closed,
        λ id k.
            let r = Verdict-sound g (check_acyclic (step_ids p.steps) g) all g j id k in
            (r, Grounded→not-OnCycle r),
      )

  Verdict-decides :
      (g : Graph) (v : Visit)
      → Verdict g (λ c. (id : String) → elem id (step_ids p.steps) ≡ true → Grounded g id) v
      → ((id : String) → elem id (step_ids p.steps) ≡ true → Grounded g id) × (judge v g ≡ ok g)
        ⊎ ((d : String) × OnCycle g d × (judge v g ≡ err (dependency_cycle d)))
  Verdict-decides g (done c) x = inl (x, refl)
  Verdict-decides g (cycle d) x = inr (d, x, refl)
  Verdict-decides g exhausted x = absurd x

  -- For a pipeline whose references all name steps, Deps returns the graph when every step is
  -- grounded, and otherwise an error that names a step which waits for itself.
  pub deps-decides :
      (g : Graph)
      → add_steps (step_ids p.steps) p.steps [] ≡ ok g
      → ((id : String) → elem id (step_ids p.steps) ≡ true → Grounded g id) × (deps p ≡ ok g)
        ⊎ ((d : String) × OnCycle g d × (deps p ≡ err (dependency_cycle d)))
  unfolding deps
  deps-decides g b = rw b (
      Verdict-decides g (check_acyclic (step_ids p.steps) g)
        (check_acyclic-Verdict g (step_ids p.steps) (built-closed g b)))
