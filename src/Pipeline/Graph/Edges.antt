-- ===== src/Pipeline/Graph/Edges.antt =====
-- The edges that `Deps` computes, against a description of where they come from.
use j_harness.Base.{
  elem-append, String, Bool, true, false, ◌&&◌, ◌||◌, List, [], ◌∷◌, ◌++◌, ◌≡◌, elem, any, lookup,
  get_or, lookup-insert, ◌==◌, eq_iff, eq_refl, arith, if◌then◌else◌, Result, ok, err, >>=-eq-ok,
}
use j_harness.Model.{Route, Step}
use j_harness.Pipeline.Error.{Error}
use j_harness.Pipeline.Template.{ref_input, ref_step_output, Ref, parse_refs}
use j_harness.Pipeline.Graph.{
  Graph, deps_of, add, ensure, add_refs, add_needs, add_routes, wrap_input, add_step, add_steps,
  step_ids,
}

edge-add :
    (from to d id : String) (g : Graph)
    → elem d (deps_of (add from to g) id) ≡ (elem d (deps_of g id) || (to == id && from == d))
unfolding add deps_of
edge-add from to d id g = ground (
  arith,
  lookup-insert to id (get_or [] (lookup to g) ++ from ∷ []) g,
  eq_iff to id,
  eq_iff from d,
  elem-append d from (get_or [] (lookup to g)),
)

edge-ensure : (id j : String) (g : Graph) → deps_of (ensure id g) j ≡ deps_of g j
unfolding ensure deps_of
edge-ensure id j g = ground (arith, lookup-insert id j [] g, eq_iff id j)

-- A template reference to the output of step `d`.
abbrev refers_to : String → Ref → Bool
refers_to d ref = elim ref.kind [ ref_input ↦ false | ref_step_output ↦ ref.step_id == d ]

module _ (ids : List String) (s d id : String) where
  edge-add_refs :
      (refs : List Ref) (g g' : Graph)
      → add_refs ids s refs g ≡ ok g'
      → elem d (deps_of g' id) ≡ (elem d (deps_of g id) || (s == id && any (refers_to d) refs))
  unfolding add_refs
  edge-add_refs [] g g' h = ground arith
  edge-add_refs (ref ∷ refs) g g' h = ground (
    arith,
    edge-add ref.step_id s d id g,
    edge-add_refs refs g g',
    edge-add_refs refs (add ref.step_id s g) g',
  )

  edge-add_needs :
      (needs : List String) (g g' : Graph)
      → add_needs ids s needs g ≡ ok g'
      → elem d (deps_of g' id) ≡ (elem d (deps_of g id) || (s == id && elem d needs))
  unfolding add_needs elem
  edge-add_needs [] g g' h = ground arith
  edge-add_needs (need ∷ needs) g g' h =
      ground (arith, edge-add need s d id g, edge-add_needs needs (add need s g) g')

  edge-add_routes :
      {F : Type 0} (routes : List (Route F)) (g g' : Graph)
      → add_routes ids s routes g ≡ ok g'
      → elem d (deps_of g' id)
        ≡ (elem d (deps_of g id) || (s == d && any (λ r. r.goto == id) routes))
  unfolding add_routes
  edge-add_routes [] g g' h = ground arith
  edge-add_routes (rt ∷ rts) g g' h =
      ground (arith, edge-add s rt.goto d id g, edge-add_routes rts (add s rt.goto g) g')

  -- An edge that is there, or that a loop adds, starts at a step.
  abbrev Inside : Graph → Type 0
  Inside g = elem d (deps_of g id) ≡ true → elem d ids ≡ true

  add-Inside :
      (from to : String) (g : Graph) → elem from ids ≡ true → Inside g → Inside (add from to g)
  add-Inside from to g k h e = ground (arith, edge-add from to d id g, eq_iff from d)

  add_refs-Inside :
      (refs : List Ref) (g g' : Graph) → add_refs ids s refs g ≡ ok g' → Inside g → Inside g'
  unfolding add_refs
  add_refs-Inside [] g g' h i e = ground arith
  add_refs-Inside (ref ∷ refs) g g' h i e = ground (
    arith,
    add-Inside ref.step_id s g,
    add_refs-Inside refs g g',
    add_refs-Inside refs (add ref.step_id s g) g',
  )

  add_needs-Inside :
      (needs : List String) (g g' : Graph) → add_needs ids s needs g ≡ ok g' → Inside g → Inside g'
  unfolding add_needs
  add_needs-Inside [] g g' h i e = ground arith
  add_needs-Inside (need ∷ needs) g g' h i e =
      ground (arith, add-Inside need s g, add_needs-Inside needs (add need s g) g')

  add_routes-Inside :
      {F : Type 0} (routes : List (Route F)) (g g' : Graph)
      → elem s ids ≡ true
      → add_routes ids s routes g ≡ ok g'
      → Inside g
      → Inside g'
  unfolding add_routes
  add_routes-Inside [] g g' k h i e = ground arith
  add_routes-Inside (rt ∷ rts) g g' k h i e =
      ground (arith, add-Inside s rt.goto g, add_routes-Inside rts (add s rt.goto g) g')

abbrev refs_of : String → List Ref
refs_of input = elim (parse_refs input) [ ok refs ↦ refs | err e ↦ [] ]

-- Step `s` makes step `id` wait for step `d`: by a template or by `needs`, or as a router's target.
abbrev pub requires : {F : Type 0} → String → String → Step F → Bool
requires d id s =
    (s.id == id && any (refers_to d) (refs_of s.input))
    || (s.id == id && elem d s.needs)
    || (s.router && (s.id == d && any (λ r. r.goto == id) s.routes))

-- The three loops of a step that did not fail.
record Parts {F : Type 0} (ids : List String) (s : Step F) (g g' : Graph) : Type 0 where
  refs : List Ref
  parsed : parse_refs s.input ≡ ok refs
  g₁ : Graph
  refs_added : add_refs ids s.id refs (ensure s.id g) ≡ ok g₁
  g₂ : Graph
  needs_added : add_needs ids s.id s.needs g₁ ≡ ok g₂
  routes_added : (if s.router then add_routes ids s.id s.routes g₂ else ok g₂) ≡ ok g'

wrap_input-eq-ok :
    (id : String) (r : Result Error (List Ref)) {refs : List Ref}
    → wrap_input id r ≡ ok refs
    → r ≡ ok refs
wrap_input-eq-ok id (ok refs) h = h
wrap_input-eq-ok id (err e) h = cc

add_step-Parts :
    {F : Type 0} (ids : List String) (s : Step F) (g g' : Graph)
    → add_step ids s g ≡ ok g'
    → Parts ids s g g'
unfolding add_step
add_step-Parts ids s g g' h =
    let (refs, p, h₁) = >>=-eq-ok (wrap_input s.id (parse_refs s.input)) _ h in
    let (g₁, a, h₂) = >>=-eq-ok (add_refs ids s.id refs (ensure s.id g)) _ h₁ in
    let (g₂, b, h₃) = >>=-eq-ok (add_needs ids s.id s.needs g₁) _ h₂ in
    record {
      refs = refs;
      parsed = wrap_input-eq-ok s.id (parse_refs s.input) p;
      g₁ = g₁;
      refs_added = a;
      g₂ = g₂;
      needs_added = b;
      routes_added = h₃;
    }

module _ {F : Type 0} (ids : List String) (d id : String) where
  edge-add_step :
      (s : Step F) (g g' : Graph)
      → add_step ids s g ≡ ok g'
      → elem d (deps_of g' id) ≡ (elem d (deps_of g id) || requires d id s)
  edge-add_step s g g' h =
      let x = add_step-Parts ids s g g' h in
      ground (
        arith,
        x.parsed,
        x.routes_added,
        edge-ensure s.id id g,
        edge-add_refs ids s.id d id x.refs (ensure s.id g) x.g₁ x.refs_added,
        edge-add_needs ids s.id d id s.needs x.g₁ x.g₂ x.needs_added,
        edge-add_routes ids s.id d id s.routes x.g₂ g',
      )

  add_step-Inside :
      (s : Step F) (g g' : Graph)
      → elem s.id ids ≡ true
      → add_step ids s g ≡ ok g'
      → Inside ids s.id d id g
      → Inside ids s.id d id g'
  add_step-Inside s g g' k h i =
      let x = add_step-Parts ids s g g' h in
      ground (
        arith,
        x.routes_added,
        edge-ensure s.id id g,
        add_refs-Inside ids s.id d id x.refs (ensure s.id g) x.g₁ x.refs_added,
        add_needs-Inside ids s.id d id s.needs x.g₁ x.g₂ x.needs_added,
        add_routes-Inside ids s.id d id s.routes x.g₂ g' k,
      )

  pub edge-add_steps :
      (ss : List (Step F)) (g g' : Graph)
      → add_steps ids ss g ≡ ok g'
      → elem d (deps_of g' id) ≡ (elem d (deps_of g id) || any (requires d id) ss)
  unfolding add_steps
  edge-add_steps [] g g' h = ground arith
  edge-add_steps (s ∷ ss) g g' h =
      let (g₁, a, b) = >>=-eq-ok (add_step ids s g) _ h in
      ground (arith, edge-add_step s g g₁ a, edge-add_steps ss g₁ g' b)

  pub add_steps-Inside :
      (ss : List (Step F)) (g g' : Graph)
      → ((j : String) → elem j (step_ids ss) ≡ true → elem j ids ≡ true)
      → add_steps ids ss g ≡ ok g'
      → (elem d (deps_of g id) ≡ true → elem d ids ≡ true)
      → elem d (deps_of g' id) ≡ true
      → elem d ids ≡ true
  unfolding add_steps elem
  add_steps-Inside [] g g' k h i = ground arith
  add_steps-Inside (s ∷ ss) g g' k h i =
      let (g₁, a, b) = >>=-eq-ok (add_step ids s g) _ h in
      add_steps-Inside ss g₁ g' (λ j e. k j (ground arith)) b
        (add_step-Inside s g g₁ (k s.id (rw (eq_refl s.id))) a i)
