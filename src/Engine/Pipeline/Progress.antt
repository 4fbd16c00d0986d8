-- ===== src/Engine/Pipeline/Progress.antt =====
-- Declared in dependency order, a pipeline never stalls.
use j_harness.Base.{
  ℕ, suc, String, Bool, true, false, ◌||◌, Option, none, some, List, [], ◌∷◌, ◌++◌, ◌≡◌, ◌≢◌, refl,
  sym, subst, insert, lookup, elem, remove, elem-remove, ◌==◌, eq_iff, eq_refl, length, arith,
  Bool-cases, inl, inr, Result, ok, err, Map,
}
use j_harness.Json.{GoLib}
use j_harness.Model.{JobStatus, skipped, Step}
use j_harness.Pipeline.Graph.{Graph, deps_of}
use j_harness.Pipeline.Graph.Cycles.{IsDep}
use j_harness.Schema.Defs.{Error as SchemaError}
use j_harness.Engine.Defs.{Engine, State, Error}
use j_harness.Engine.Pipeline.Admit.{
  Plan, Run, Readiness, ready, skip, blocked, status_of, dep_status, launched, resolved, launch,
  launch_id, on_readiness, on_status, consider, admit_one, step_pass, admit,
}
use j_harness.Engine.Pipeline.Loop.{finished, stuck, stop, loop, start}
use j_harness.Engine.Pipeline.Terminates.{Rule, loop_rule}
use j_harness.Engine.Pipeline.Phases.{status_of-insert}
use j_harness.Engine.Pipeline.Order.{IsWired, flying}
use j_harness.Engine.Pipeline.Cover.{
  is_over, RunCover, IsTabled, step_pass-Cover, admit-Cover, receive-Cover,
}

-- Each step stands behind all of its dependencies; `seen` are the steps before.
abbrev pub IsDeclared : Graph → List String → List String → Type 0
IsDeclared g seen [] = Unit
IsDeclared g seen (id ∷ ids) =
    ((d : String) → IsDep g d id → elem d seen ≡ true) × IsDeclared g (id ∷ seen) ids

dep_status-ne-blocked :
    (st : Map JobStatus) (ds : List String)
    → ((d : String) → elem d ds ≡ true → is_over (status_of st d) ≡ true)
    → dep_status st ds ≢ blocked
unfolding dep_status elem
dep_status-ne-blocked st [] over h = cc
dep_status-ne-blocked st (d ∷ ds) over h =
    ground
      (arith, over d (rw (eq_refl d)), dep_status-ne-blocked st ds (λ j k. over j (ground arith)))

module _ {F : Type 0} (lib : GoLib F) (plan : Plan F) where
  -- Nothing is in flight and nothing has failed.
  record IsIdle (r : Run F) : Type 0 where
    grounded : r.inflight ≡ []
    unfailed : r.failure ≡ none

  -- A pass that ends idle was idle before each of its steps.
  IsIdle-launched :
      (step : Step F) (input : Result Error String) (r : Run F)
      → IsIdle (launched lib plan step input r)
      → ⊥
  IsIdle-launched step (ok decoded) r h = not-snoc r.inflight h.grounded
    where
      not-snoc : (l : List (Step F × String)) → l ++ (step, decoded) ∷ [] ≢ []
      not-snoc [] e = cc
      not-snoc (x ∷ l) e = cc
  IsIdle-launched step (err x) r h = ground (arith, h.unfailed)

  -- The steps of the list are over.
  AreOver : List String → Run F → Type 0
  AreOver ids r =
      (d : String)
      → elem d ids ≡ true
      → (elem d r.pending ≡ false) × (is_over (status_of r.state d) ≡ true)

  launch_id-IsIdle : (o : Option (Step F)) (r : Run F) → IsIdle (launch_id lib plan o r) → IsIdle r
  unfolding launch
  launch_id-IsIdle none r h = h
  launch_id-IsIdle (some step) r h = absurd (IsIdle-launched step (resolved lib plan step r) r h)

  on_readiness-IsIdle :
      (x : Readiness) (id : String) (r : Run F) → IsIdle (on_readiness lib plan x id r) → IsIdle r
  unfolding lookup
  on_readiness-IsIdle skip id r h = record { grounded = h.grounded; unfailed = h.unfailed }
  on_readiness-IsIdle blocked id r h = h
  on_readiness-IsIdle ready id r h =
      let k =
        launch_id-IsIdle (lookup id plan.steps) (record r { pending = remove id r.pending }) h in
      record { grounded = k.grounded; unfailed = k.unfailed }

  on_status-IsIdle :
      (x : JobStatus) (id : String) (r : Run F) → IsIdle (on_status lib plan x id r) → IsIdle r
  on_status-IsIdle skipped id r h = record { grounded = h.grounded; unfailed = h.unfailed }
  on_status-IsIdle _ id r h =
      on_readiness-IsIdle (dep_status r.state (deps_of plan.graph id)) id r h

  admit_one-IsIdle :
      (f : Option Error) (waits : Bool) (id : String) (r : Run F)
      → IsIdle (admit_one lib plan f waits id r)
      → IsIdle r
  unfolding consider
  admit_one-IsIdle (some x) waits id r h = h
  admit_one-IsIdle none false id r h = h
  admit_one-IsIdle none true id r h = on_status-IsIdle (status_of r.state id) id r h

  -- A pass that ends idle was idle from its start.
  admit-IsIdle : (ids : List String) (r : Run F) → IsIdle (admit lib plan ids r) → IsIdle r
  unfolding admit step_pass
  admit-IsIdle [] r h = h
  admit-IsIdle (id ∷ ids) r h =
      admit_one-IsIdle r.failure (elem id r.pending) id r
        (admit-IsIdle ids (step_pass lib plan id r) h)

  module _ (tabled : IsTabled plan) (seen : List String) (id : String)
      (listed : elem id plan.order ≡ true)
      (behind : (d : String) → IsDep plan.graph d id → elem d seen ≡ true) where
    dropped-AreOver :
        (r : Run F) (st : Map JobStatus)
        → AreOver seen r
        → ((d : String) → elem d seen ≡ true → is_over (status_of st d) ≡ true)
        → is_over (status_of st id) ≡ true
        → (d : String) → elem d (id ∷ seen) ≡ true
        → (elem d (remove id r.pending) ≡ false) × (is_over (status_of st d) ≡ true)
    unfolding elem AreOver
    dropped-AreOver r st over kept now d h = elim (Bool-cases (id == d)) [
      | inl same ↦ (
        ground (arith, elem-remove id d r.pending),
        subst (λ t. is_over (status_of st t) ≡ true) ((eq_iff id d).0 same) now,
      )
      | inr other ↦
          let old = over d (rw other at h) in
          (ground (arith, elem-remove id d r.pending, old.0), kept d (rw other at h))
    ]

    on_readiness-AreOver :
        (x : Readiness) (r : Run F)
        → AreOver seen r
        → dep_status r.state (deps_of plan.graph id) ≡ x
        → IsIdle (on_readiness lib plan x id r)
        → AreOver (id ∷ seen) (on_readiness lib plan x id r)
    unfolding launch AreOver
    on_readiness-AreOver ready r over e idle =
        let (step, found) = tabled id listed in
        absurd (
          IsIdle-launched step (resolved lib plan step (record r { pending = remove id r.pending }))
            (record r { pending = remove id r.pending }) (rw found at idle))
    on_readiness-AreOver skip r over e idle =
        dropped-AreOver r (insert id skipped r.state) over
          (λ d k. ground (arith, status_of-insert id d skipped r.state, over d k))
          (ground (arith, status_of-insert id id skipped r.state, eq_refl id))
    on_readiness-AreOver blocked r over e idle =
        absurd
          (dep_status-ne-blocked r.state (deps_of plan.graph id) (λ d k. (over d (behind d k)).1) e)

    on_status-AreOver :
        (x : JobStatus) (r : Run F)
        → AreOver seen r
        → status_of r.state id ≡ x
        → IsIdle (on_status lib plan x id r)
        → AreOver (id ∷ seen) (on_status lib plan x id r)
    unfolding AreOver
    on_status-AreOver skipped r over e idle =
        dropped-AreOver r r.state over (λ d k. (over d k).1) (ground arith)
    on_status-AreOver _ r over e idle =
        on_readiness-AreOver (dep_status r.state (deps_of plan.graph id)) r over refl idle

    admit_one-AreOver :
        (f : Option Error) (waits : Bool) (r : Run F)
        → r.failure ≡ f
        → elem id r.pending ≡ waits
        → RunCover plan r
        → AreOver seen r
        → IsIdle (admit_one lib plan f waits id r)
        → AreOver (id ∷ seen) (admit_one lib plan f waits id r)
    unfolding consider AreOver elem
    admit_one-AreOver (some x) waits r g h v over idle = absurd (ground (arith, idle.unfailed))
    admit_one-AreOver none true r g h v over idle =
        on_status-AreOver (status_of r.state id) r over refl idle
    admit_one-AreOver none false r g h v over idle =
        let free : elem id (flying r.inflight) ≡ false =
          subst (λ l. elem id (flying l) ≡ false) (sym idle.grounded) refl in
        λ d k. elim (Bool-cases (id == d)) [
          | inl same ↦
              subst (λ t. (elem t r.pending ≡ false) × (is_over (status_of r.state t) ≡ true))
                ((eq_iff id d).0 same) (h, ground (arith, v.covered id listed, free))
          | inr other ↦ over d (rw other at k)
        ]

  admit-AreOver :
      IsWired plan
      → IsTabled plan
      → (seen ids : List String) (r : Run F) → IsDeclared plan.graph seen ids
      → ((d : String) → elem d ids ≡ true → elem d plan.order ≡ true)
      → RunCover plan r
      → AreOver seen r
      → IsIdle (admit lib plan ids r)
      → (d : String) → (elem d seen || elem d ids) ≡ true
      → elem d (admit lib plan ids r).pending ≡ false
  unfolding admit step_pass AreOver elem
  admit-AreOver wired tabled seen [] r declared listed v over idle d h = (over d (ground arith)).0
  admit-AreOver wired tabled seen (id ∷ ids) r declared listed v over idle d h =
      let r' = step_pass lib plan id r in
      admit-AreOver wired tabled (id ∷ seen) ids r' declared.1 (λ j k. listed j (ground arith))
        (step_pass-Cover lib plan wired tabled id r v)
        (admit_one-AreOver tabled seen id (listed id (rw (eq_refl id))) declared.0 r.failure
          (elem id r.pending) r refl refl v over (admit-IsIdle ids r' idle))
        idle d (ground arith)

  -- The loop stops behind a pass that left nothing in flight.
  pub stop-ne-stuck :
      IsWired plan
      → IsTabled plan
      → IsDeclared plan.graph [] plan.order
      → (r : Run F) → RunCover plan r
      → (admit lib plan plan.order r).inflight ≡ []
      → stop (admit lib plan plan.order r).failure (admit lib plan plan.order r).pending ≢ stuck
  unfolding elem AreOver
  stop-ne-stuck wired tabled declared r v grounded = go r'.failure refl r'.pending refl
    where
      r' : Run F
      r' = admit lib plan plan.order r

      go :
          (f : Option Error)
          → r'.failure ≡ f
          → (pe : List String) → r'.pending ≡ pe
          → stop f pe ≢ stuck
      go (some x) e pe k = λ h. cc
      go none e [] k = λ h. cc
      go none e (id ∷ pe) k = λ h.
          let waits : elem id r'.pending ≡ true = rw k (rw (eq_refl id)) in
          let cover = admit-Cover lib plan wired tabled plan.order r v in
          let gone =
            admit-AreOver wired tabled [] plan.order r declared (λ d q. q) v (λ d q. absurd (cc))
              (record { grounded = grounded; unfailed = e }) id (cover.known id waits) in
          cc

start-Cover : {F : Type 0} (plan : Plan F) → RunCover plan (start {F = F} plan.order)
start-Cover plan = record { known = λ id h. h; covered = λ id h. ground arith }

-- A pipeline whose steps are declared behind their dependencies never stalls: whatever the backend
-- answers and in whatever order the steps complete, the loop ends by its first two tests.
pub loop-finishes :
    {F W : Type 0} (lib : GoLib F) (clock : W → ℕ) (render : SchemaError → String) (e : Engine F W)
    (plan : Plan F)
    → IsWired plan
    → IsTabled plan
    → IsDeclared plan.graph [] plan.order
    → (schedule : ℕ → ℕ) (s : State W)
    → (loop lib clock render e schedule plan (suc (length plan.order)) (start plan.order) s).0.0
      ≡ finished
loop-finishes lib clock render e plan wired tabled declared schedule s =
    loop_rule lib clock render e plan {P = RunCover plan} {Q = λ x r. x ≡ finished} rule schedule
      (suc (length plan.order)) (start plan.order) s (omega arith) (start-Cover plan)
  where
    stops : (f : Option Error) (pe : List String) → stop f pe ≢ stuck → stop f pe ≡ finished
    stops (some x) pe n = refl
    stops none [] n = refl
    stops none (id ∷ pe) n = absurd (n refl)

    rule : Rule lib clock render e plan (RunCover plan) (λ x r. x ≡ finished)
    rule = record {
      ended = λ r v h. refl;
      stopped = λ r v n h. stops _ _ (stop-ne-stuck lib plan wired tabled declared r v h);
      again = λ r i x xs s' v h.
          receive-Cover lib clock render e plan i x xs (admit lib plan plan.order r) s'
            (admit-Cover lib plan wired tabled plan.order r v) h;
    }
