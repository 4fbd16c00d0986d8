-- ===== src/Engine/Pipeline/Cover.antt =====
-- No step of a run is lost: each is pending, in flight or over.
use j_harness.Base.{
  ℕ, String, Bool, true, false, ◌||◌, Option, none, some, List, [], ◌∷◌, ◌++◌, ◌≡◌, refl, sym,
  subst, ap, ◌∙◌, Map, insert, lookup, elem, elem-append, remove, elem-remove, ◌==◌, eq_iff,
  eq_refl, if◌then◌else◌, is_empty, arith, Bool-cases, inl, inr, Result, ok, err,
}
use j_harness.Json.{GoLib}
use j_harness.Model.{JobStatus, completed, failed, skipped, Step, Route}
use j_harness.Pipeline.Graph.{deps_of}
use j_harness.Schema.Defs.{Error as SchemaError}
use j_harness.Engine.Defs.{Engine, State, Error}
use j_harness.Engine.Pipeline.Admit.{
  Plan, Run, Readiness, ready, skip, blocked, status_of, dep_status, launched, resolved, launch,
  launch_id, on_readiness, on_status, consider, admit_one, step_pass, admit,
}
use j_harness.Engine.Pipeline.Receive.{
  Completion, skip_others, take_at, on_outcome, record_completion, run_body, receive, routes_of,
}
use j_harness.Engine.Pipeline.Phases.{is_settled, status_of-insert}
use j_harness.Engine.Pipeline.Order.{IsWired, flying, flying-append}
use j_harness.Engine.Pipeline.Receipt.{run_body-IsEnd, elem-take_at}

abbrev pub is_over : JobStatus → Bool
is_over completed = true
is_over failed = true
is_over skipped = true
is_over _ = false

-- `ids` is the declared order; every step that waits is one of them.
pub record Cover (ids : List String) (st : Map JobStatus) (fl pe : List String) : Type 0 where
  pub known : (id : String) → elem id pe ≡ true → elem id ids ≡ true
  pub covered :
      (id : String)
      → elem id ids ≡ true
      → (elem id pe || elem id fl || is_over (status_of st id)) ≡ true

module _ {ids : List String} {st : Map JobStatus} {fl pe : List String}
    (v : Cover ids st fl pe) where
  Cover-mark : (t : String) (x : JobStatus) → is_over x ≡ true → Cover ids (insert t x st) fl pe
  Cover-mark t x o = record {
    known = v.known;
    covered = λ j h. ground (arith, status_of-insert t j x st, v.covered j);
  }

  Cover-drop : (t : String) → is_over (status_of st t) ≡ true → Cover ids st fl (remove t pe)
  Cover-drop t o = record {
    known = λ j h. v.known j (ground (arith, elem-remove t j pe));
    covered = λ j h. ground (arith, elem-remove t j pe, v.covered j, eq_iff t j);
  }

  Cover-fly : (t : String) → Cover ids st (fl ++ t ∷ []) (remove t pe)
  Cover-fly t = record {
    known = λ j h. v.known j (ground (arith, elem-remove t j pe));
    covered =
        λ j h. ground (arith, elem-remove t j pe, elem-append j t fl, v.covered j, eq_iff t j);
  }

  Cover-land :
      (t : String) (rest : List String)
      → ((j : String) → elem j fl ≡ (t == j || elem j rest))
      → (x : JobStatus) → is_over x ≡ true
      → Cover ids (insert t x st) rest pe
  Cover-land t rest same x o = record {
    known = v.known;
    covered = λ j h. ground (arith, status_of-insert t j x st, same j, v.covered j, eq_iff t j);
  }

Cover-mark_drop :
    {ids : List String} {st : Map JobStatus} {fl pe : List String}
    → Cover ids st fl pe
    → (t : String) (x : JobStatus) → is_over x ≡ true
    → Cover ids (insert t x st) fl (remove t pe)
Cover-mark_drop {st = st} v t x o =
    Cover-drop (Cover-mark v t x o) t (ground (arith, status_of-insert t t x st, eq_refl t))

abbrev pub RunCover : {F : Type 0} → Plan F → Run F → Type 0
RunCover plan r = Cover plan.order r.state (flying r.inflight) r.pending

-- The order lists only steps of the table.
abbrev pub IsTabled : {F : Type 0} → Plan F → Type 0
IsTabled {F} plan =
    (id : String) → elem id plan.order ≡ true → (s : Step F) × (lookup id plan.steps ≡ some s)

module _ {F : Type 0} (lib : GoLib F) (plan : Plan F) (wired : IsWired plan) where
  launch-Cover :
      (id : String) (step : Step F) (r : Run F)
      → RunCover plan r
      → lookup id plan.steps ≡ some step
      → (input : Result Error String)
      → RunCover plan (launched lib plan step input (record r { pending = remove id r.pending }))
  launch-Cover id step r v e (ok decoded) =
      rw (flying-append r.inflight (step, decoded)) (rw (wired.keyed id step e) (Cover-fly v id))
  launch-Cover id step r v e (err x) = rw (wired.keyed id step e) (Cover-mark_drop v id failed refl)

  module _ (tabled : IsTabled plan) where
    launch_id-Cover :
        (id : String) (r : Run F)
        → RunCover plan r
        → elem id r.pending ≡ true
        → RunCover plan
            (launch_id lib plan (lookup id plan.steps) (record r { pending = remove id r.pending }))
    unfolding launch
    launch_id-Cover id r v waits =
        let (step, e) = tabled id (v.known id waits) in
        rw e (
          launch-Cover id step r v e
            (resolved lib plan step (record r { pending = remove id r.pending })))

    on_readiness-Cover :
        (x : Readiness) (id : String) (r : Run F)
        → RunCover plan r
        → elem id r.pending ≡ true
        → RunCover plan (on_readiness lib plan x id r)
    on_readiness-Cover ready id r v waits = launch_id-Cover id r v waits
    on_readiness-Cover skip id r v waits = Cover-mark_drop v id skipped refl
    on_readiness-Cover blocked id r v waits = v

    on_status-Cover :
        (x : JobStatus) (id : String) (r : Run F)
        → RunCover plan r
        → elem id r.pending ≡ true
        → status_of r.state id ≡ x
        → RunCover plan (on_status lib plan x id r)
    on_status-Cover skipped id r v waits e = Cover-drop v id (ground arith)
    on_status-Cover _ id r v waits e =
        on_readiness-Cover (dep_status r.state (deps_of plan.graph id)) id r v waits

    admit_one-Cover :
        (f : Option Error) (waits : Bool) (id : String) (r : Run F)
        → RunCover plan r
        → elem id r.pending ≡ waits
        → RunCover plan (admit_one lib plan f waits id r)
    unfolding consider
    admit_one-Cover (some x) waits id r v h = v
    admit_one-Cover none false id r v h = v
    admit_one-Cover none true id r v h = on_status-Cover (status_of r.state id) id r v h refl

    pub step_pass-Cover :
        (id : String) (r : Run F) → RunCover plan r → RunCover plan (step_pass lib plan id r)
    unfolding step_pass
    step_pass-Cover id r v = admit_one-Cover r.failure (elem id r.pending) id r v refl

    pub admit-Cover :
        (ids : List String) (r : Run F) → RunCover plan r → RunCover plan (admit lib plan ids r)
    unfolding admit
    admit-Cover [] r v = v
    admit-Cover (id ∷ ids) r v = admit-Cover ids (step_pass lib plan id r) (step_pass-Cover id r v)

skip_others-Cover :
    {F : Type 0} (ids : List String) (routes : List (Route F)) (target : String)
    (st : Map JobStatus) (fl pe : List String)
    → Cover ids st fl pe
    → Cover ids (skip_others routes target st) fl pe
unfolding skip_others
skip_others-Cover ids [] target st fl pe v = v
skip_others-Cover ids (rt ∷ rts) target st fl pe v =
    skip_others-Cover ids rts target (if rt.goto == target then st else insert rt.goto skipped st)
      fl pe
      (elim (Bool-cases (rt.goto == target)) [
        | inl same ↦ rw same v
        | inr other ↦ rw other (Cover-mark v rt.goto skipped refl)
      ])

settled→over : (x : JobStatus) → is_settled x ≡ true → is_over x ≡ true
settled→over completed h = refl
settled→over failed h = refl
settled→over _ h = absurd (cc)

module _ {F W : Type 0} (lib : GoLib F) (clock : W → ℕ) (render : SchemaError → String)
    (e : Engine F W) (plan : Plan F) where
  on_outcome-Cover :
      (x : JobStatus) (c : Completion) (r : Run F)
      → RunCover plan r
      → RunCover plan (on_outcome x plan c r)
  unfolding lookup
  on_outcome-Cover completed c r v = elim (Bool-cases (is_empty c.goto_id)) [
    | inl h ↦ rw h v
    | inr h ↦ rw h (
        skip_others-Cover plan.order (routes_of (lookup c.step_id plan.steps)) c.goto_id r.state
          (flying r.inflight) r.pending v)
  ]
  on_outcome-Cover _ c r v = v

  pub receive-Cover :
      (i : ℕ) (x : Step F × String) (xs : List (Step F × String)) (r : Run F) (s : State W)
      → RunCover plan r
      → r.inflight ≡ x ∷ xs
      → RunCover plan (receive lib clock render e plan i x xs r s).0
  unfolding receive record_completion
  receive-Cover i x xs r s v h =
      let job = (take_at i x xs).0 in
      let rest = (take_at i x xs).1 in
      let c = (run_body lib clock render e plan job.0 job.1 s).0 in
      let ended = run_body-IsEnd lib clock render e plan job.0 job.1 s in
      on_outcome-Cover c.out.status c _ (
        subst (λ k. Cover plan.order (insert k c.out.status r.state) (flying rest) r.pending)
          (sym ended.own)
          (Cover-land v job.0.id (flying rest)
            (λ j. ap (λ l. elem j (flying l)) h ∙ elem-take_at i x xs j) c.out.status
            (settled→over c.out.status ended.settled)))
