-- ===== src/Engine/Pipeline/Phases.antt =====
-- The phases of the steps of a run: pending, in flight, settled. Which changes keep them in order,
-- whatever the code around them.
use j_harness.Base.{
  String, Bool, true, false, ◌||◌, List, [], ◌∷◌, ◌++◌, ◌≡◌, Map, insert, lookup-insert, elem,
  elem-append, remove, elem-remove, Distinct, Distinct-snoc, ◌==◌, eq_iff, eq_refl, if◌then◌else◌,
  arith,
}
use j_harness.Model.{JobStatus, completed, failed, skipped, is_completed}
use j_harness.Pipeline.Graph.{Graph}
use j_harness.Pipeline.Graph.Cycles.{IsDep}
use j_harness.Engine.Pipeline.Admit.{status_of}

abbrev pub is_settled : JobStatus → Bool
is_settled completed = true
is_settled failed = true
is_settled _ = false

-- The step is in flight, or it ended with a result or an error.
abbrev pub started : Map JobStatus → List String → String → Bool
started st fl id = elem id fl || is_settled (status_of st id)

pub status_of-insert :
    (k j : String) (x : JobStatus) (st : Map JobStatus)
    → status_of (insert k x st) j ≡ (if k == j then x else status_of st j)
status_of-insert k j x st = ground (arith, lookup-insert k j x st)

-- `st` is the status map, `fl` the steps in flight, `pe` the pending ones.
pub record Inv (g : Graph) (st : Map JobStatus) (fl pe : List String) : Type 0 where
  pub unsettled : (id : String) → elem id fl ≡ true → is_settled (status_of st id) ≡ false
  pub waiting : (id : String) → elem id pe ≡ true → started st fl id ≡ false
  pub backed :
      (id d : String)
      → started st fl id ≡ true
      → IsDep g d id
      → is_completed (status_of st d) ≡ true
  pub distinct : Distinct fl

module _ {g : Graph} {st : Map JobStatus} {fl pe : List String} (v : Inv g st fl pe) where
  pub Inv-drop : (id : String) → Inv g st fl (remove id pe)
  Inv-drop id = record {
    unsettled = v.unsettled;
    waiting = λ j h. v.waiting j (ground (arith, elem-remove id j pe));
    backed = v.backed;
    distinct = v.distinct;
  }

  -- A step that was not started is marked as skipped.
  pub Inv-skip : (t : String) → started st fl t ≡ false → Inv g (insert t skipped st) fl pe
  Inv-skip t n = record {
    unsettled = λ j h. ground (arith, status_of-insert t j skipped st, v.unsettled j);
    waiting = λ j h. ground (arith, status_of-insert t j skipped st, v.waiting j);
    backed = λ j d h e. ground (
      arith,
      status_of-insert t j skipped st,
      status_of-insert t d skipped st,
      v.backed j d,
      eq_iff t d,
      eq_iff t j,
    );
    distinct = v.distinct;
  }

  module _ (id : String) (waits : elem id pe ≡ true)
      (deps : (d : String) → IsDep g d id → is_completed (status_of st d) ≡ true) where
    -- A pending step whose dependencies have completed takes off.
    pub Inv-fly : Inv g st (fl ++ id ∷ []) (remove id pe)
    Inv-fly = record {
      unsettled = λ j h.
          ground (arith, elem-append j id fl, v.unsettled j, v.waiting id waits, eq_iff id j);
      waiting =
          λ j h. ground (arith, elem-append j id fl, elem-remove id j pe, v.waiting j, eq_iff id j);
      backed = λ j d h e. ground (arith, elem-append j id fl, v.backed j d, deps d, eq_iff id j);
      distinct = Distinct-snoc id fl v.distinct (ground (arith, v.waiting id waits));
    }

    -- Or it fails on the ground.
    pub Inv-fail : Inv g (insert id failed st) fl (remove id pe)
    Inv-fail = record {
      unsettled = λ j h.
          ground (
            arith,
            status_of-insert id j failed st,
            v.unsettled j,
            v.waiting id waits,
            eq_iff id j,
          );
      waiting =
          λ j h. ground (arith, status_of-insert id j failed st, elem-remove id j pe, v.waiting j);
      backed = λ j d h e. ground (
        arith,
        status_of-insert id j failed st,
        status_of-insert id d failed st,
        v.backed j d,
        deps d,
        v.waiting id waits,
        eq_iff id j,
        eq_iff id d,
      );
      distinct = v.distinct;
    }

pub Inv-land :
    {g : Graph} {st : Map JobStatus} {fl pe : List String}
    → Inv g st fl pe
    → (x : String) (rest : List String) → ((j : String) → elem j fl ≡ (x == j || elem j rest))
    → Distinct (x ∷ rest)
    → (s : JobStatus) → is_settled s ≡ true
    → Inv g (insert x s st) rest pe
Inv-land {g} {st} {fl} {pe} v x rest same dist s settled = record {
  unsettled =
      λ j h. ground (arith, status_of-insert x j s st, same j, v.unsettled j, eq_iff x j, dist.0);
  waiting = λ j h.
      ground (arith, status_of-insert x j s st, same j, v.waiting j, same x, eq_iff x j, eq_refl x);
  backed = λ j d h e. ground (
    arith,
    status_of-insert x j s st,
    status_of-insert x d s st,
    same j,
    same x,
    v.backed j d,
    v.unsettled x,
    eq_iff x j,
    eq_iff x d,
    eq_refl x,
  );
  distinct = dist.1;
}
