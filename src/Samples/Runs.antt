-- ===== src/Samples/Runs.antt =====
-- Runs of small pipelines.
use j_harness.Base.{
  ℕ, suc, String, true, none, some, List, [], ◌∷◌, ◌≡◌, ◌≢◌, refl, ok, map, length, elem,
}
use j_harness.Model.{JobStatus, completed, skipped, is_completed, Pipeline}
use j_harness.Pipeline.Graph.{deps_of, deps}
use j_harness.Pipeline.Graph.Cycles.{IsDep}
use j_harness.Engine.Defs.{stalled}
use j_harness.Engine.Pipeline.Admit.{Run, Plan, status_of, admit}
use j_harness.Engine.Pipeline.Loop.{
  Ending, finished, out_of_fuel, loop, plan_of, start, run_found, Answer, index_steps,
}
use j_harness.Engine.Pipeline.Phases.{started}
use j_harness.Engine.Pipeline.Order.{flying}
use j_harness.Engine.Pipeline.Progress.{IsDeclared}
use j_harness.Engine.Pipeline.Terminates.{loop-ne-out_of_fuel}
use j_harness.Engine.Pipeline.Abandon.{loop-abandons}
use j_harness.Engine.Pipeline.Wiring.{ended, run-deps_completed, run-finishes}
use j_harness.Samples.{
  lib, clock, render, engine, world, chain, chain_graph, fan_out, backwards, step,
}

-- The goroutine that was started first ends first.
abbrev fifo : ℕ → ℕ
fifo n = 0

chain-accepted : deps chain ≡ ok chain_graph
unfolding deps
chain-accepted = refl

abbrev answer : Pipeline ℕ → Answer lib clock render engine fifo
answer p = run_found lib clock render engine fifo "p" p (("doc", "{}") ∷ []) world

abbrev statuses : Pipeline ℕ → List (String × JobStatus)
statuses p = map (λ o. (o.step_id, o.status)) (answer p).0.0.steps

run-chain :
    ((answer chain).0.0.output ≡ "draft")
    × ((answer chain).0.1 ≡ none)
    × (statuses chain ≡ ("a", completed) ∷ ("b", completed) ∷ [])
unfolding run_found
run-chain = (refl, refl, refl)

-- Once all three steps are in flight none is pending: the last two outcomes are not received.
run-fan_out :
    ((answer fan_out).0.1 ≡ none)
    × (statuses fan_out ≡ ("a", completed) ∷ ("b", skipped) ∷ ("c", skipped) ∷ [])
unfolding run_found
run-fan_out = (refl, refl)

-- The skips would pass through all of the chain, but one pass in declared order takes one of them.
run-backwards : (answer backwards).0.1 ≡ some (stalled "p")
unfolding run_found
run-backwards = refl

abbrev chain_plan : Plan ℕ
chain_plan = plan_of "p" chain chain_graph []

loop-ne-out_of_fuel_example :
    (loop lib clock render engine fifo chain_plan
      (suc (length chain_plan.order))
      (start chain_plan.order)
      world).0.0
    ≢ out_of_fuel
loop-ne-out_of_fuel_example = loop-ne-out_of_fuel lib clock render engine fifo chain_plan world

abbrev chain_end : Ending × Run ℕ
chain_end = ended lib clock render engine "p" chain chain_graph [] chain-accepted fifo world

b-started : started chain_end.1.state (flying chain_end.1.inflight) "b" ≡ true
unfolding loop index_steps
b-started = refl

a-IsDep : IsDep chain_graph "a" "b"
unfolding deps_of elem
a-IsDep = refl

run-deps_completed_example : is_completed (status_of chain_end.1.state "a") ≡ true
run-deps_completed_example =
    run-deps_completed lib clock render engine "p" chain chain_graph [] chain-accepted fifo world
      "b" "a" b-started a-IsDep

chain-IsDeclared : IsDeclared chain_graph [] ("a" ∷ "b" ∷ [])
unfolding deps_of elem
chain-IsDeclared = (λ d h. cc, (λ d h. h, tt))

run-finishes_example : chain_end.0 ≡ finished
run-finishes_example =
    run-finishes lib clock render engine "p" chain chain_graph [] chain-accepted fifo world
      chain-IsDeclared

abbrev fan_plan : Plan ℕ
fan_plan = plan_of "p" fan_out [] []

abbrev fan_start : Run ℕ
fan_start = start fan_plan.order

fan-pending : (admit lib fan_plan fan_plan.order fan_start).pending ≡ []
unfolding admit index_steps
fan-pending = refl

fan-inflight :
    (admit lib fan_plan fan_plan.order fan_start).inflight
    ≡ (step "a" "one" [], "one") ∷ (step "b" "two" [], "two") ∷ (step "c" "three" [], "three") ∷ []
unfolding admit index_steps
fan-inflight = refl

loop-abandons_example :
    ((loop lib clock render engine fifo fan_plan 4 fan_start world).0.0 ≡ finished)
    × (length (loop lib clock render engine fifo fan_plan 4 fan_start world).0.1.inflight ≡ 2)
loop-abandons_example =
    loop-abandons lib clock render engine fan_plan fifo 2 fan_start world (step "a" "one" [], "one")
      (step "b" "two" [], "two") ((step "c" "three" [], "three") ∷ []) (λ h. cc) fan-pending
      fan-inflight
