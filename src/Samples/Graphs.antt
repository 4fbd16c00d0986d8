-- ===== src/Samples/Graphs.antt =====
-- Tests of the dependency graph.
use j_harness.Base.{String, true, List, [], ◌∷◌, ◌≡◌, refl, elem, any, ◌⊎◌, ok, err, Map}
use j_harness.Pipeline.Error.{dependency_cycle}
use j_harness.Pipeline.Graph.{deps_of, add_steps, deps, step_ids}
use j_harness.Pipeline.Graph.Cycles.{IsDep, OnCycle, Grounded}
use j_harness.Pipeline.Graph.Edges.{requires}
use j_harness.Pipeline.Graph.Valid.{deps-edges, deps-Grounded, deps-decides}
use j_harness.Samples.{chain, chain_graph, loop_pipeline}

deps-chain : deps chain ≡ ok chain_graph
unfolding deps
deps-chain = refl

deps-loop_pipeline : deps loop_pipeline ≡ err (dependency_cycle "a")
unfolding deps
deps-loop_pipeline = refl

deps-edges_example : elem "a" (deps_of chain_graph "b") ≡ any (requires "a" "b") chain.steps
deps-edges_example = deps-edges chain chain_graph "a" "b" deps-chain

deps-Grounded_example :
    ((id d : String) → IsDep chain_graph d id → elem d (step_ids chain.steps) ≡ true)
    × ((id : String)
        → elem id (step_ids chain.steps) ≡ true
        → Grounded chain_graph id × ¬ OnCycle chain_graph id)
deps-Grounded_example = deps-Grounded chain chain_graph deps-chain

abbrev loop_graph : Map (List String)
loop_graph = ("a", "b" ∷ []) ∷ ("b", "a" ∷ []) ∷ []

loop_graph-built : add_steps (step_ids loop_pipeline.steps) loop_pipeline.steps [] ≡ ok loop_graph
unfolding add_steps
loop_graph-built = refl

deps-decides_example :
    ((id : String) → elem id (step_ids loop_pipeline.steps) ≡ true → Grounded loop_graph id)
      × (deps loop_pipeline ≡ ok loop_graph)
    ⊎ ((d : String) × OnCycle loop_graph d × (deps loop_pipeline ≡ err (dependency_cycle d)))
deps-decides_example = deps-decides loop_pipeline loop_graph loop_graph-built
