-- ===== src/Tools/Enabled.antt =====
-- internal/tools/tools.go: which tools a registry holds that `New` has built.
use j_harness.Base.{
  String, true, false, Option, none, some, List, [], ◌∷◌, ◌≡◌, refl, Result, ok, err, ◌>>=◌, eq_iff,
  eq_refl, elem, lookup, insert, lookup-insert, if◌then◌else◌, All, arith,
}
use j_harness.Engine.Defs.{Func, ToolRegistry}
use j_harness.Tools.{Env, builtin, enable, new_onto, new, is_builtin}

module _ {F W : Type 0} (env : Env F W) where
  builtin-is_builtin : (name : String) → builtin env name ≡ none → is_builtin name ≡ false
  unfolding builtin is_builtin
  builtin-is_builtin name h = ground arith

  is_builtin-builtin :
      (name : String) (fn : Func F W) → builtin env name ≡ some fn → is_builtin name ≡ true
  unfolding builtin is_builtin
  is_builtin-builtin name fn h = ground arith

  abbrev pub Holds : ToolRegistry F W → List String → ToolRegistry F W → Type 0
  Holds before names after =
      (j : String) → lookup j after ≡ (if elem j names then builtin env j else lookup j before)

  -- All of the names are built-in ones and are enabled, or one is not, and there is an error.
  abbrev pub Enables : ToolRegistry F W → List String → Result String (ToolRegistry F W) → Type 0
  Enables before names (ok after) =
      All (λ name. is_builtin name ≡ true) names × Holds before names after
  Enables before names (err name) = (elem name names ≡ true) × (is_builtin name ≡ false)

  -- One name in front of names that are settled.
  Enables-step :
      (fn : Func F W) (name : String) (names : List String) (before : ToolRegistry F W)
      (out : Result String (ToolRegistry F W))
      → builtin env name ≡ some fn
      → Enables (insert name fn before) names out
      → Enables before (name ∷ names) out
  unfolding elem
  Enables-step fn name names before (ok after) b v = (
    (is_builtin-builtin name fn b, v.0),
    λ j. ground (arith, v.1 j, lookup-insert name j fn before, eq_iff name j, b),
  )
  Enables-step fn name names before (err bad) b v = (ground (arith, v.0), v.1)

  enable-Enables :
      (o : Option (Func F W)) (name : String) (names : List String) (before : ToolRegistry F W)
      → builtin env name ≡ o
      → ((r : ToolRegistry F W) → Enables r names (new_onto env r names))
      → Enables before (name ∷ names) (enable env o name before >>= (λ r. new_onto env r names))
  unfolding elem
  enable-Enables none name names before b ih =
      (ground (arith, eq_refl name), builtin-is_builtin name b)
  enable-Enables (some fn) name names before b ih =
      Enables-step fn name names before (new_onto env (insert name fn before) names) b
        (ih (insert name fn before))

  new_onto-Enables :
      (before : ToolRegistry F W) (names : List String)
      → Enables before names (new_onto env before names)
  unfolding new_onto elem
  new_onto-Enables before [] = (tt, λ j. refl)
  new_onto-Enables before (name ∷ names) =
      enable-Enables (builtin env name) name names before refl (λ r. new_onto-Enables r names)

  new-Enables : (names : List String) → Enables [] names (new env names)
  unfolding new
  new-Enables names = new_onto-Enables [] names
