-- ===== src/Pipeline/Graph.antt =====
-- internal/pipeline/graph.go: the dependency edges of a pipeline and the search for cycles.
pub mod Valid
pub mod Edges
pub mod Cycles
pub mod Search
pub mod Colors
use j_harness.Base.{
  ℕ, zero, suc, String, not, none, some, List, [], ◌∷◌, ◌++◌, ◌==◌, map, length, elem, Map, lookup,
  insert, get_or, Result, ok, err, ◌>>=◌, if◌then◌else◌,
}
use j_harness.Model.{Route, Step, Pipeline}
use j_harness.Pipeline.Error.{
  Error, step_input, references_unknown_step, needs_unknown_step, goto_unknown_step, needs_itself,
  dependency_cycle,
}
use j_harness.Pipeline.Template.{RefKind, ref_input, ref_step_output, Ref, parse_refs}

abbrev pub Graph : Type 0
Graph = Map (List String)

-- `deps[id]`, nil on a missing key
unfoldable pub deps_of : Graph → String → List String
unfolding lookup
deps_of g id = get_or [] (lookup id g)

-- `add(from, to)`. The set `seen[to]` holds the members of `deps[to]`, so it is read off the list.
unfoldable pub add : String → String → Graph → Graph
unfolding deps_of insert elem
add from to g = if elem from (deps_of g to) then g else insert to (deps_of g to ++ from ∷ []) g

-- `if _, ok := deps[s.ID]; !ok { deps[s.ID] = nil }`
unfoldable pub ensure : String → Graph → Graph
unfolding lookup insert
ensure id g = elim (lookup id g) [ none ↦ insert id [] g | some ds ↦ g ]

module _ (ids : List String) (id : String) where
  abbrev add_ref : RefKind → Ref → Graph → Result Error Graph
  add_ref ref_input ref g = ok g
  add_ref ref_step_output ref g =
      if not (elem ref.step_id ids)
      then err (references_unknown_step id ref.step_id)
      else ok (add ref.step_id id g)

  unfoldable pub add_refs : List Ref → Graph → Result Error Graph
  unfolding elem add
  add_refs [] g = ok g
  add_refs (ref ∷ refs) g = do g' ← add_ref ref.kind ref g; add_refs refs g'

  unfoldable pub add_needs : List String → Graph → Result Error Graph
  unfolding elem add
  add_needs [] g = ok g
  add_needs (need ∷ needs) g =
      if need == id
      then err (needs_itself id)
      else if not (elem need ids)
      then err (needs_unknown_step id need)
      else add_needs needs (add need id g)

  unfoldable pub add_routes : {F : Type 0} → List (Route F) → Graph → Result Error Graph
  unfolding elem add
  add_routes [] g = ok g
  add_routes (rt ∷ rts) g =
      if not (elem rt.goto ids)
      then err (goto_unknown_step id rt.goto)
      else add_routes rts (add id rt.goto g)

abbrev wrap_input : String → Result Error (List Ref) → Result Error (List Ref)
wrap_input id (ok refs) = ok refs
wrap_input id (err e) = err (step_input id e)

module _ {F : Type 0} where
  abbrev pub step_ids : List (Step F) → List String
  step_ids steps = map (λ s. s.id) steps

  -- The body of the loop over the steps.
  unfoldable pub add_step : List String → Step F → Graph → Result Error Graph
  unfolding ensure parse_refs add_refs add_needs add_routes
  add_step ids s g = do
    refs ← wrap_input s.id (parse_refs s.input)
    g₁ ← add_refs ids s.id refs (ensure s.id g)
    g₂ ← add_needs ids s.id s.needs g₁
    if s.router then add_routes ids s.id s.routes g₂ else ok g₂

  unfoldable pub add_steps : List String → List (Step F) → Graph → Result Error Graph
  unfolding add_step
  add_steps ids [] g = ok g
  add_steps ids (s ∷ ss) g = do g' ← add_step ids s g; add_steps ids ss g'

-- The colors of `checkAcyclic`; white, the zero value, is a missing key.
pub data Color : Type 0 where
  white gray black : Color

abbrev pub Colors : Type 0
Colors = Map Color

unfoldable pub color_of : Colors → String → Color
unfolding lookup
color_of c id = get_or white (lookup id c)

-- How a search ends: with new colors, at a cycle, or without fuel, which the code has no case for.
pub data Visit : Type 0 where
  done : Colors → Visit
  cycle : String → Visit
  exhausted : Visit

abbrev pub then_visit : Visit → (Colors → Visit) → Visit
then_visit (done c) f = f c
then_visit (cycle d) f = cycle d
then_visit exhausted f = exhausted

abbrev pub by_color : Color → String → Visit → Visit → Visit
by_color gray dep enter next = cycle dep
by_color white dep enter next = enter
by_color black dep enter next = next

-- The loop over `deps[id]`, with the recursive call of `visit` as an argument.
unfoldable pub visit_deps : (String → Colors → Visit) → List String → Colors → Visit
unfolding color_of
visit_deps enter [] c = done c
visit_deps enter (d ∷ ds) c =
    by_color (color_of c d) d (then_visit (enter d c) (visit_deps enter ds)) (visit_deps enter ds c)

unfoldable pub visit : Graph → ℕ → String → Colors → Visit
unfolding visit_deps deps_of insert
visit g zero id c = exhausted
visit g (suc fuel) id c =
    then_visit (visit_deps (visit g fuel) (deps_of g id) (insert id gray c))
      (λ c'. done (insert id black c'))

abbrev pub if_white : Color → Visit → Visit → Visit
if_white white enter next = enter
if_white _ enter next = next

unfoldable pub visit_all : Graph → ℕ → List String → Colors → Visit
unfolding visit color_of
visit_all g fuel [] c = done c
visit_all g fuel (id ∷ ids) c =
    if_white (color_of c id) (then_visit (visit g fuel id c) (visit_all g fuel ids))
      (visit_all g fuel ids c)

-- A search goes from white to gray at each call, so its depth is at most the number of steps.
unfoldable pub check_acyclic : List String → Graph → Visit
unfolding visit_all
check_acyclic ids g = visit_all g (length ids) ids []

abbrev judge : Visit → Graph → Result Error Graph
judge (done c) g = ok g
judge (cycle d) g = err (dependency_cycle d)
judge exhausted g = err (dependency_cycle "")

unfoldable pub deps : {F : Type 0} → Pipeline F → Result Error Graph
unfolding add_steps check_acyclic
deps p = do
  g ← add_steps (step_ids p.steps) p.steps []
  judge (check_acyclic (step_ids p.steps) g) g
