-- ===== src/Engine/Pipeline/Order.antt =====
-- A step is started only behind its dependencies: the pass and the receipt of a completion keep
-- the phases of all steps in order.
use j_harness.Base.{
  String, Bool, true, false, Option, none, some, List, [], ◌∷◌, ◌++◌, ◌≡◌, refl, sym, subst, ap,
  Map, lookup, elem, remove, any, All, ◌==◌, eq_iff, arith, Result, ok, err,
}
use j_harness.Json.{GoLib}
use j_harness.Model.{JobStatus, skipped, is_completed, Step}
use j_harness.Pipeline.Graph.{deps_of}
use j_harness.Pipeline.Graph.Cycles.{IsDep}
use j_harness.Engine.Defs.{Error}
use j_harness.Engine.Pipeline.Admit.{
  Plan, Run, Readiness, ready, skip, blocked, status_of, dep_status, launched, resolved, launch,
  launch_id, on_readiness, on_status, consider, admit_one, step_pass, admit,
}
use j_harness.Engine.Pipeline.Phases.{Inv, Inv-drop, Inv-skip, Inv-fly, Inv-fail}

-- What `RunPipeline` sets up before the loop: the table of steps is keyed by their ids, and the
-- targets of a router wait for it.
pub record IsWired {F : Type 0} (plan : Plan F) : Type 0 where
  pub keyed : (id : String) (s : Step F) → lookup id plan.steps ≡ some s → s.id ≡ id
  pub routed :
      (id : String) (s : Step F) (t : String)
      → lookup id plan.steps ≡ some s
      → s.router ≡ true
      → any (λ r. r.goto == t) s.routes ≡ true
      → IsDep plan.graph id t

abbrev pub flying : {F : Type 0} → List (Step F × String) → List String
flying [] = []
flying (j ∷ js) = j.0.id ∷ flying js

pub flying-append :
    {F : Type 0} (js : List (Step F × String)) (j : Step F × String)
    → flying (js ++ j ∷ []) ≡ flying js ++ j.0.id ∷ []
flying-append [] j = refl
flying-append (k ∷ js) j = ap (λ l. k.0.id ∷ l) (flying-append js j)

-- The phases of a run are in order, and what is in flight stands in the table.
pub record RunInv {F : Type 0} (plan : Plan F) (r : Run F) : Type 0 where
  pub phases : Inv plan.graph r.state (flying r.inflight) r.pending
  pub listed : All (λ j. lookup j.0.id plan.steps ≡ some j.0) r.inflight

All-snoc :
    {A : Type 0} (P : A → Type 0) (xs : List A) (x : A) → All P xs → P x → All P (xs ++ x ∷ [])
All-snoc P [] x a p = (p, tt)
All-snoc P (y ∷ xs) x a p = (a.0, All-snoc P xs x a.1 p)

dep_status-ready :
    (st : Map JobStatus) (ds : List String) (d : String)
    → dep_status st ds ≡ ready
    → elem d ds ≡ true
    → is_completed (status_of st d) ≡ true
unfolding dep_status elem
dep_status-ready st [] d h k = cc
dep_status-ready st (x ∷ ds) d h k = ground (arith, dep_status-ready st ds d, eq_iff x d)

module _ {F : Type 0} (lib : GoLib F) (plan : Plan F) (wired : IsWired plan) where
  launch-RunInv :
      (id : String) (step : Step F) (r : Run F)
      → RunInv plan r
      → elem id r.pending ≡ true
      → ((d : String) → IsDep plan.graph d id → is_completed (status_of r.state d) ≡ true)
      → lookup id plan.steps ≡ some step
      → (input : Result Error String)
      → RunInv plan (launched lib plan step input (record r { pending = remove id r.pending }))
  launch-RunInv id step r v waits deps e (ok decoded) =
      let same : step.id ≡ id = wired.keyed id step e in
      record {
        phases =
            rw (flying-append r.inflight (step, decoded))
              (rw same (Inv-fly v.phases id waits deps));
        listed =
            All-snoc (λ j. lookup j.0.id plan.steps ≡ some j.0) r.inflight (step, decoded) v.listed
              (subst (λ t. lookup t plan.steps ≡ some step) (sym same) e);
      }
  launch-RunInv id step r v waits deps e (err x) =
      let same : step.id ≡ id = wired.keyed id step e in
      record { phases = rw same (Inv-fail v.phases id waits deps); listed = v.listed }

  launch_id-RunInv :
      (id : String) (o : Option (Step F)) (r : Run F)
      → RunInv plan r
      → elem id r.pending ≡ true
      → ((d : String) → IsDep plan.graph d id → is_completed (status_of r.state d) ≡ true)
      → lookup id plan.steps ≡ o
      → RunInv plan (launch_id lib plan o (record r { pending = remove id r.pending }))
  unfolding launch
  launch_id-RunInv id none r v waits deps e = record {
    phases = Inv-drop v.phases id;
    listed = v.listed;
  }
  launch_id-RunInv id (some step) r v waits deps e =
      launch-RunInv id step r v waits deps e
        (resolved lib plan step (record r { pending = remove id r.pending }))

  on_readiness-RunInv :
      (x : Readiness) (id : String) (r : Run F)
      → RunInv plan r
      → elem id r.pending ≡ true
      → dep_status r.state (deps_of plan.graph id) ≡ x
      → RunInv plan (on_readiness lib plan x id r)
  on_readiness-RunInv ready id r v waits e =
      launch_id-RunInv id (lookup id plan.steps) r v waits
        (λ d. dep_status-ready r.state (deps_of plan.graph id) d e) refl
  on_readiness-RunInv skip id r v waits e = record {
    phases = Inv-drop (Inv-skip v.phases id (v.phases.waiting id waits)) id;
    listed = v.listed;
  }
  on_readiness-RunInv blocked id r v waits e = v

  on_status-RunInv :
      (x : JobStatus) (id : String) (r : Run F)
      → RunInv plan r
      → elem id r.pending ≡ true
      → RunInv plan (on_status lib plan x id r)
  on_status-RunInv skipped id r v waits = record {
    phases = Inv-drop v.phases id;
    listed = v.listed;
  }
  on_status-RunInv _ id r v waits =
      on_readiness-RunInv (dep_status r.state (deps_of plan.graph id)) id r v waits refl

  admit_one-RunInv :
      (f : Option Error) (waits : Bool) (id : String) (r : Run F)
      → RunInv plan r
      → elem id r.pending ≡ waits
      → RunInv plan (admit_one lib plan f waits id r)
  unfolding consider
  admit_one-RunInv (some x) waits id r v h = v
  admit_one-RunInv none false id r v h = v
  admit_one-RunInv none true id r v h = on_status-RunInv (status_of r.state id) id r v h

  pub admit-RunInv :
      (ids : List String) (r : Run F) → RunInv plan r → RunInv plan (admit lib plan ids r)
  unfolding admit step_pass
  admit-RunInv [] r v = v
  admit-RunInv (id ∷ ids) r v =
      admit-RunInv ids (step_pass lib plan id r)
        (admit_one-RunInv r.failure (elem id r.pending) id r v refl)
