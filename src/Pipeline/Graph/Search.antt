-- ===== src/Pipeline/Graph/Search.antt =====
-- The depth-first search of `checkAcyclic`: it ends, and its verdict is right.
use j_harness.Base.{
  ℕ, zero, suc, ◌≤◌, String, true, List, [], ◌∷◌, ◌≡◌, ◌≢◌, refl, elem, length, subst, insert,
  lookup, ◌==◌, eq_iff, eq_refl, arith, Bool-cases, inl, inr, ◌⊎◌,
}
use j_harness.Pipeline.Graph.{
  Graph, deps_of, Color, white, gray, black, Colors, color_of, Visit, done, cycle, exhausted,
  then_visit, visit_deps, visit, visit_all, check_acyclic,
}
use j_harness.Pipeline.Graph.Colors.{
  color_of-insert, whites, Fades, whites-le, whites-gray_lt, whites-start,
}
use j_harness.Pipeline.Graph.Cycles.{IsDep, Reaches, here, snoc, OnCycle, Grounded, ground_on}

-- What a verdict means: new colors with a property, or a step on a cycle, and never a lack of fuel.
abbrev pub Verdict : Graph → (Colors → Type 0) → Visit → Type 0
Verdict g P (done c) = P c
Verdict g P (cycle d) = OnCycle g d
Verdict g P exhausted = ⊥

Verdict-then :
    (g : Graph) (P Q : Colors → Type 0) (v : Visit) (f : Colors → Visit)
    → Verdict g P v
    → ((c : Colors) → P c → Verdict g Q (f c))
    → Verdict g Q (then_visit v f)
Verdict-then g P Q (done c) f h k = k c h
Verdict-then g P Q (cycle d) f h k = h
Verdict-then g P Q exhausted f h k = absurd h

Verdict-map :
    (g : Graph) (P Q : Colors → Type 0) (v : Visit)
    → Verdict g P v
    → ((c : Colors) → P c → Q c)
    → Verdict g Q v
Verdict-map g P Q (done c) h k = k c h
Verdict-map g P Q (cycle d) h k = h
Verdict-map g P Q exhausted h k = absurd h

module _ (g : Graph) where
  -- Black steps are finished, together with all that they wait for.
  abbrev IsSound : Colors → Type 0
  IsSound c = (j : String) → color_of c j ≡ black → Grounded g j

  -- The gray steps lead to the one being visited.
  abbrev LeadsTo : Colors → String → Type 0
  LeadsTo c id = (j : String) → color_of c j ≡ gray → Reaches g j id

  record Progress (c c' : Colors) : Type 0 where
    sound : IsSound c'
    fades : Fades c c'
    stays : (j : String) → color_of c j ≡ black → color_of c' j ≡ black
    grays : (j : String) → color_of c' j ≡ gray → color_of c j ≡ gray

  Progress-refl : (c : Colors) → IsSound c → Progress c c
  Progress-refl c s = record { sound = s; fades = λ j h. h; stays = λ j h. h; grays = λ j h. h }

  Progress-trans : {a b c : Colors} → Progress a b → Progress b c → Progress a c
  Progress-trans p q = record {
    sound = q.sound;
    fades = λ j h. q.fades j (p.fades j h);
    stays = λ j h. q.stays j (p.stays j h);
    grays = λ j h. p.grays j (q.grays j h);
  }

  record Visited (id : String) (c c' : Colors) : Type 0 where
    progress : Progress c c'
    finished : color_of c' id ≡ black

  -- What a call of `visit` on a white step must guarantee.
  abbrev Enters : (String → Colors → Visit) → List String → ℕ → Type 0
  Enters enter ids fuel =
      (d : String) (c : Colors)
      → color_of c d ≡ white
      → elem d ids ≡ true
      → whites c ids ≤ fuel
      → IsSound c
      → LeadsTo c d
      → Verdict g (Visited d c) (enter d c)

  record Explored (ds : List String) (c c' : Colors) : Type 0 where
    progress : Progress c c'
    finished : (d : String) → elem d ds ≡ true → color_of c' d ≡ black

  Explored-cons :
      {d : String} {ds : List String} {a b c : Colors}
      → Progress a b
      → color_of b d ≡ black
      → Explored ds b c
      → Explored (d ∷ ds) a c
  unfolding elem
  Explored-cons {d} {ds} {a} {b} {c} p e x = record {
    progress = Progress-trans p x.progress;
    finished = finished;
  }
    where
      finished : (j : String) → elem j (d ∷ ds) ≡ true → color_of c j ≡ black
      finished j h = elim (Bool-cases (d == j)) [
        | inl same ↦ subst (λ t. color_of c t ≡ black) ((eq_iff d j).0 same) (x.progress.stays d e)
        | inr other ↦ x.finished j (rw other at h)
      ]

  Color-cases : (c : Color) → (c ≡ white) ⊎ ((c ≡ gray) ⊎ (c ≡ black))
  Color-cases white = inl refl
  Color-cases gray = inr (inl refl)
  Color-cases black = inr (inr refl)

  visit_deps-Explored :
      (enter : String → Colors → Visit) (ids : List String) (fuel : ℕ)
      → Enters enter ids fuel
      → (id : String) (ds : List String) (c : Colors)
      → ((d : String) → elem d ds ≡ true → IsDep g d id)
      → ((d : String) → elem d ds ≡ true → elem d ids ≡ true)
      → whites c ids ≤ fuel
      → IsSound c
      → LeadsTo c id
      → Verdict g (Explored ds c) (visit_deps enter ds c)
  unfolding visit_deps elem
  visit_deps-Explored enter ids fuel rule id [] c edge known enough s l = record {
    progress = Progress-refl c s;
    finished = λ d h. absurd (cc);
  }
  visit_deps-Explored enter ids fuel rule id (d ∷ ds) c edge known enough s l =
      elim (Color-cases (color_of c d)) [
        | inl w ↦ rw w (
            Verdict-then g (Visited d c) (Explored (d ∷ ds) c) (enter d c) (visit_deps enter ds)
              (rule d c w (known d first) enough s (λ j e. snoc (l j e) (edge d first)))
              (λ c' v. go c' v.progress v.finished (
                visit_deps-Explored enter ids fuel rule id ds c' (λ j h. edge j (later j h))
                  (λ j h. known j (later j h)) (omega (arith, whites-le c c' v.progress.fades ids))
                  v.progress.sound (λ j e. l j (v.progress.grays j e)))))
        | inr (inl e) ↦ rw e (record { last = id; reached = l d e; closes = edge d first })
        | inr (inr e) ↦ rw e (
            go c (Progress-refl c s) e (
              visit_deps-Explored enter ids fuel rule id ds c (λ j h. edge j (later j h))
                (λ j h. known j (later j h)) enough s l))
      ]
    where
      first : elem d (d ∷ ds) ≡ true
      first = rw (eq_refl d)

      later : (j : String) → elem j ds ≡ true → elem j (d ∷ ds) ≡ true
      later j h = ground arith

      go :
          (b : Colors)
          → Progress c b
          → color_of b d ≡ black
          → Verdict g (Explored ds b) (visit_deps enter ds b)
          → Verdict g (Explored (d ∷ ds) c) (visit_deps enter ds b)
      go b p e v =
          Verdict-map g (Explored ds b) (Explored (d ∷ ds) c) (visit_deps enter ds b) v
            (λ _ x. Explored-cons p e x)

  module _ (ids : List String) (closed : (id d : String) → IsDep g d id → elem d ids ≡ true) where
    paint_gray-IsSound :
        (id : String) (c : Colors) → IsSound c → color_of c id ≡ white → IsSound (insert id gray c)
    paint_gray-IsSound id c s w j e = s j (ground (arith, color_of-insert id j gray c))

    paint_gray-LeadsTo : (id : String) (c : Colors) → LeadsTo c id → LeadsTo (insert id gray c) id
    paint_gray-LeadsTo id c l j e = elim (Bool-cases (id == j)) [
      | inl same ↦ subst (λ t. Reaches g t id) ((eq_iff id j).0 same) here
      | inr other ↦ l j (ground (arith, color_of-insert id j gray c))
    ]

    blacken-Visited :
        (id : String) (c c' : Colors)
        → color_of c id ≡ white
        → Explored (deps_of g id) (insert id gray c) c'
        → Visited id c (insert id black c')
    blacken-Visited id c c' w x = record {
      progress = record {
        sound = λ j e. elim (Bool-cases (id == j)) [
          | inl same ↦
              subst (Grounded g) ((eq_iff id j).0 same)
                (ground_on id (λ d h. x.progress.sound d (x.finished d h)))
          | inr other ↦ x.progress.sound j (ground (arith, color_of-insert id j black c'))
        ];
        fades = λ j h.
            ground (
              arith,
              color_of-insert id j black c',
              color_of-insert id j gray c,
              x.progress.fades j,
            );
        stays = λ j h. ground (
          arith,
          color_of-insert id j black c',
          color_of-insert id j gray c,
          x.progress.stays j,
          eq_iff id j,
        );
        grays = λ j h.
            ground (
              arith,
              color_of-insert id j black c',
              color_of-insert id j gray c,
              x.progress.grays j,
            );
      };
      finished = ground (arith, color_of-insert id id black c', eq_refl id);
    }

    visit-Visited : (fuel : ℕ) → Enters (visit g fuel) ids fuel
    unfolding visit
    visit-Visited zero id c w known enough s l =
        absurd (omega (arith, whites-gray_lt id c ids w known))
    visit-Visited (suc fuel) id c w known enough s l =
        Verdict-then g (Explored (deps_of g id) (insert id gray c)) (Visited id c)
          (visit_deps (visit g fuel) (deps_of g id) (insert id gray c))
          (λ c'. done (insert id black c'))
          (visit_deps-Explored (visit g fuel) ids fuel (visit-Visited fuel) id (deps_of g id)
            (insert id gray c) (λ d h. h) (λ d h. closed id d h)
            (omega (arith, whites-gray_lt id c ids w known)) (paint_gray-IsSound id c s w)
            (paint_gray-LeadsTo id c l))
          (λ c' x. blacken-Visited id c c' w x)

    -- No step is gray between two calls from the outer loop.
    abbrev NoGray : Colors → Type 0
    NoGray c = (j : String) → color_of c j ≢ gray

    visit_all-Explored :
        (fuel : ℕ) (xs : List String) (c : Colors)
        → ((d : String) → elem d xs ≡ true → elem d ids ≡ true)
        → whites c ids ≤ fuel
        → IsSound c
        → NoGray c
        → Verdict g (Explored xs c) (visit_all g fuel xs c)
    unfolding visit_all elem
    visit_all-Explored fuel [] c known enough s n = record {
      progress = Progress-refl c s;
      finished = λ d h. absurd (cc);
    }
    visit_all-Explored fuel (x ∷ xs) c known enough s n = elim (Color-cases (color_of c x)) [
      | inl w ↦ rw w (
          Verdict-then g (Visited x c) (Explored (x ∷ xs) c) (visit g fuel x c)
            (visit_all g fuel xs)
            (visit-Visited fuel x c w (known x first) enough s (λ j e. absurd (n j e)))
            (λ c' v. go c' v.progress v.finished (
              visit_all-Explored fuel xs c' later
                (omega (arith, whites-le c c' v.progress.fades ids)) v.progress.sound
                (λ j e. n j (v.progress.grays j e)))))
      | inr (inl e) ↦ absurd (n x e)
      | inr (inr e) ↦
          rw e (go c (Progress-refl c s) e (visit_all-Explored fuel xs c later enough s n))
    ]
      where
        first : elem x (x ∷ xs) ≡ true
        first = rw (eq_refl x)

        later : (j : String) → elem j xs ≡ true → elem j ids ≡ true
        later j h = known j (ground arith)

        go :
            (b : Colors)
            → Progress c b
            → color_of b x ≡ black
            → Verdict g (Explored xs b) (visit_all g fuel xs b)
            → Verdict g (Explored (x ∷ xs) c) (visit_all g fuel xs b)
        go b p e v =
            Verdict-map g (Explored xs b) (Explored (x ∷ xs) c) (visit_all g fuel xs b) v
              (λ _ y. Explored-cons p e y)

-- The verdict of `checkAcyclic` on a graph whose edges join steps: without an error every step is
-- grounded, so the steps can be ordered; an error names a step that waits for itself; and the fuel,
-- one unit for each step, is enough.
pub check_acyclic-Verdict :
    (g : Graph) (ids : List String)
    → ((id d : String) → IsDep g d id → elem d ids ≡ true)
    → Verdict g (λ c. (id : String) → elem id ids ≡ true → Grounded g id) (check_acyclic ids g)
unfolding check_acyclic color_of lookup
check_acyclic-Verdict g ids closed =
    Verdict-map g (Explored g ids []) (λ c. (id : String) → elem id ids ≡ true → Grounded g id)
      (visit_all g (length ids) ids [])
      (visit_all-Explored g ids closed (length ids) ids [] (λ d h. h) (whites-start ids)
        (λ j e. absurd (cc)) (λ j e. cc))
      (λ c x id h. x.progress.sound id (x.finished id h))
