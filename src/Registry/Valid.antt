-- ===== src/Registry/Valid.antt =====
-- What a pipeline satisfies that the registry has accepted.
use j_harness.Base.{
  ℕ, ◌+◌, ◌≤◌, String, Bool, true, false, not, ◌||◌, List, [], ◌∷◌, ◌≡◌, ◌≢◌, refl, elem, Result,
  ok, err, ltb, ltb→lt, All, Distinct, arith, eq_refl, eq_iff, ◌==◌, if◌then◌else◌, >>=-eq-ok,
  nat_eq,
}
use j_harness.Model.{Route, Step, Pipeline, schema_version}
use j_harness.Pipeline.Error.{Error as PipelineError}
use j_harness.Pipeline.Template.{parse_refs, id_pattern}
use j_harness.Pipeline.Graph.{Graph, deps, step_ids}
use j_harness.Registry.{
  Error, Check, ◌>>◌, require, from_pipeline, bad_step_input, bad_step_ref, bad_graph, check_inputs,
  check_ids, check_refs, check_needs, has_operator, default_of, check_routes, is_nil, check_router,
  check_agent, check_step, check_steps, check_parts, validate_pipeline, unsupported_version,
  invalid_pipeline_id, id_not_filename, no_steps,
}

pub >>-ok :
    {A : Type 0} (c : Check) (rest : Result Error A) {a : A}
    → (c >> rest) ≡ ok a
    → (c ≡ ok tt) × (rest ≡ ok a)
>>-ok (ok u) rest h = (refl, h)
>>-ok (err e) rest h = cc

pub require-ok : (b : Bool) (e : Error) → require b e ≡ ok tt → b ≡ true
require-ok true e h = refl
require-ok false e h = cc

from_pipeline-ok :
    {A : Type 0} (f : PipelineError → Error) (r : Result PipelineError A) (a : A)
    → from_pipeline f r ≡ ok a
    → r ≡ ok a
from_pipeline-ok f (ok b) a h = cc
from_pipeline-ok f (err e) a h = cc

-- The routes that are taken where no other is.
abbrev pub defaults : {F : Type 0} → List (Route F) → ℕ
defaults [] = 0
defaults (rt ∷ rts) = default_of rt (defaults rts)

defaults-step :
    {F : Type 0} (rt : Route F) (rts : List (Route F)) (n : ℕ)
    → defaults rts + default_of rt n ≤ 1
    → defaults (rt ∷ rts) + n ≤ 1
defaults-step rt rts n h = ground arith

-- A new id in front of ids that are apart from it and from those seen.
ids-apart :
    (seen ids : List String) (x : String)
    → not (elem x seen) ≡ true
    → ((j : String) → elem j ids ≡ true → (x == j || elem j seen) ≡ false)
    → (elem x ids ≡ false) × ((j : String) → (x == j || elem j ids) ≡ true → elem j seen ≡ false)
ids-apart seen ids x new apart =
    (ground (arith, apart x, eq_refl x), λ j k. ground (arith, apart j, eq_iff x j))

module _ {F : Type 0} (known : String → Bool) (ids : List String) where
  -- A route leads to a step, and says when it is taken.
  abbrev pub IsRoute : Route F → Type 0
  IsRoute rt = (elem rt.goto ids ≡ true) × ((rt.default || has_operator rt.when) ≡ true)

  -- A router has routes, at most one of them a default; another step has an agent that is known.
  abbrev pub IsRunnable : Step F → Type 0
  IsRunnable s =
      (s.router ≡ true → (s.routes ≢ []) × All IsRoute s.routes × (defaults s.routes ≤ 1))
      × (s.router ≡ false → known s.agent_id ≡ true)

  check_routes-IsRoute :
      (id : String) (rts : List (Route F)) (n : ℕ)
      → check_routes ids id rts n ≡ ok tt
      → All IsRoute rts × (defaults rts + n ≤ 1)
  unfolding check_routes
  check_routes-IsRoute id [] n h = (tt, omega (arith, ltb→lt n 2 (require-ok (ltb n 2) _ h)))
  check_routes-IsRoute id (rt ∷ rts) n h =
      let a = >>-ok _ _ h in
      let b = >>-ok _ _ a.1 in
      let c = >>-ok _ _ b.1 in
      let rest = check_routes-IsRoute id rts (default_of rt n) c.1 in
      (((require-ok _ _ b.0, require-ok _ _ c.0), rest.0), defaults-step rt rts n rest.1)

  not_nil : (b : List (Route F)) → not (is_nil b) ≡ true → b ≢ []
  not_nil [] h = cc
  not_nil (x ∷ xs) h = λ k. cc

  check_router-IsRunnable :
      (inputs : List String) (s : Step F)
      → check_router known inputs ids s ≡ ok tt
      → (s.routes ≢ []) × All IsRoute s.routes × (defaults s.routes ≤ 1)
  unfolding check_router
  check_router-IsRunnable inputs s h =
      let a = >>-ok _ _ h in
      let r = check_routes-IsRoute s.id s.routes 0 a.1 in
      (not_nil s.routes (require-ok _ _ a.0), r.0, omega (arith, r.1))

  check_agent-known :
      (inputs : List String) (s : Step F)
      → check_agent known inputs ids s ≡ ok tt
      → known s.agent_id ≡ true
  unfolding check_agent
  check_agent-known inputs s h = let a = >>-ok _ _ h in let b = >>-ok _ _ a.1 in require-ok _ _ b.0

  check_kind_of-IsRunnable :
      (inputs : List String) (s : Step F)
      → (if s.router then check_router known inputs ids s else check_agent known inputs ids s)
        ≡ ok tt
      → IsRunnable s
  check_kind_of-IsRunnable inputs s h = (
    λ r. check_router-IsRunnable inputs s (simp r at h),
    λ r. check_agent-known inputs s (simp r at h),
  )

  check_step-IsRunnable :
      (inputs : List String) (s : Step F) → check_step known inputs ids s ≡ ok tt → IsRunnable s
  unfolding check_step
  check_step-IsRunnable inputs s h =
      let (refs, parsed, rest) =
        >>=-eq-ok (from_pipeline (bad_step_input s.id) (parse_refs s.input)) _ h in
      let a = >>-ok (check_refs inputs ids (bad_step_ref s.id) refs) _ rest in
      let b = >>-ok (check_needs ids s.id s.needs) _ a.1 in check_kind_of-IsRunnable inputs s b.1

  check_steps-IsRunnable :
      (inputs : List String) (ss : List (Step F))
      → check_steps known inputs ids ss ≡ ok tt
      → All IsRunnable ss
  unfolding check_steps
  check_steps-IsRunnable inputs [] h = tt
  check_steps-IsRunnable inputs (s ∷ ss) h =
      let a = >>-ok (check_step known inputs ids s) (check_steps known inputs ids ss) h in
      (check_step-IsRunnable inputs s a.0, check_steps-IsRunnable inputs ss a.1)

module _ {F : Type 0} where
  check_ids-Distinct :
      (seen : List String) (ss : List (Step F))
      → check_ids seen ss ≡ ok tt
      → Distinct (step_ids ss) × ((j : String) → elem j (step_ids ss) ≡ true → elem j seen ≡ false)
  unfolding check_ids elem
  check_ids-Distinct seen [] h = (tt, λ j k. absurd (cc k))
  check_ids-Distinct seen (s ∷ ss) h =
      let a = >>-ok _ _ h in
      let b = >>-ok _ _ a.1 in
      let rest = check_ids-Distinct (s.id ∷ seen) ss b.1 in
      let apart = ids-apart seen (step_ids ss) s.id (require-ok _ _ b.0) rest.1 in
      ((apart.0, rest.0), apart.1)

-- What the loader promises to the engine.
pub record IsLoadable {F : Type 0} (known : String → Bool) (p : Pipeline F) : Type 0 where
  pub distinct : Distinct (step_ids p.steps)
  pub runnable : All (IsRunnable known (step_ids p.steps)) p.steps
  pub acyclic : (g : Graph) × (deps p ≡ ok g)

-- A pipeline that the registry accepts has steps with distinct ids, a known agent for each agent
-- step, for each router routes that lead to its steps with at most one default, and a graph that
-- Deps accepts.
pub validate_pipeline-IsLoadable :
    {F : Type 0} (known : String → Bool) (filename : String) (p : Pipeline F)
    → validate_pipeline known filename p ≡ ok tt
    → IsLoadable known p
unfolding validate_pipeline
validate_pipeline-IsLoadable known filename p h =
    let ids = step_ids p.steps in
    let a = >>-ok (require (nat_eq p.version schema_version) (unsupported_version p.version)) _ h in
    let b = >>-ok (require (id_pattern p.pipeline_id) (invalid_pipeline_id p.pipeline_id)) _ a.1 in
    let c =
      >>-ok (require (filename == p.pipeline_id) (id_not_filename p.pipeline_id filename)) _ b.1 in
    let d = >>-ok (require (not (is_nil p.steps)) no_steps) _ c.1 in
    let e = >>-ok (check_inputs p.inputs) (check_parts known filename p ids) d.1 in
    let f = >>-ok (check_ids [] p.steps) _ e.1 in
    let g = >>-ok (check_steps known p.inputs ids p.steps) _ f.1 in
    let (graph, accepted, rest) = >>=-eq-ok (from_pipeline bad_graph (deps p)) _ g.1 in
    record {
      distinct = (check_ids-Distinct [] p.steps f.0).0;
      runnable = check_steps-IsRunnable known ids p.inputs p.steps g.0;
      acyclic = (graph, from_pipeline-ok bad_graph (deps p) graph accepted);
    }
