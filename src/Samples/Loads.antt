-- ===== src/Samples/Loads.antt =====
-- Tests of what the registry accepts.
use j_harness.Engine.Pipeline.Loop.{index_steps}
use j_harness.Engine.Pipeline.Receive.{route_completion}
use j_harness.Pipeline.Condition.{pick_route}
use j_harness.Pipeline.Graph.{step_ids}
use j_harness.Registry.Routes.{Leads, router-Leads}
use j_harness.Base.{String, Bool, [], ◌∷◌, ◌≡◌, refl, ok, err, ◌==◌, All, true}
use j_harness.Registry.{validate_pipeline, duplicate_step, bad_graph}
use j_harness.Registry.Valid.{IsLoadable, validate_pipeline-IsLoadable}
use j_harness.Pipeline.Error.{dependency_cycle}
use j_harness.Samples.{step, pipeline_of, loop_pipeline, backwards, lib}

abbrev is_writer : String → Bool
is_writer name = name == "writer"

-- The pipeline that ends in a stall is one that the registry accepts.
backwards-accepted : validate_pipeline is_writer "p" backwards ≡ ok tt
unfolding validate_pipeline
backwards-accepted = refl

twice-refused :
    validate_pipeline is_writer "p" (pipeline_of (step "a" "" [] ∷ step "a" "" [] ∷ []))
    ≡ err (duplicate_step "a")
unfolding validate_pipeline
twice-refused = refl

loop_pipeline-refused :
    validate_pipeline is_writer "p" loop_pipeline ≡ err (bad_graph (dependency_cycle "a"))
unfolding validate_pipeline
loop_pipeline-refused = refl

validate_pipeline-IsLoadable_example : IsLoadable is_writer backwards
validate_pipeline-IsLoadable_example =
    validate_pipeline-IsLoadable is_writer "p" backwards backwards-accepted

router-Leads_example :
    All
      (λ s.
        s.router ≡ true
        → Leads
            (step_ids backwards.steps)
            (route_completion (index_steps backwards.steps []) s.id (pick_route lib s.routes "{}")))
      backwards.steps
router-Leads_example = router-Leads lib backwards is_writer "p" backwards-accepted "{}"
