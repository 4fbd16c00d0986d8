-- ===== src/Pipeline/Graph/Cycles.antt =====
-- Cycles of a dependency graph: paths, well-founded steps, and why they exclude one another.
use j_harness.Base.{String, true, elem, ◌≡◌, ◌⊎◌, inl, inr, refl, subst}
use j_harness.Pipeline.Graph.{Graph, deps_of}

abbrev pub IsDep : Graph → String → String → Type 0
IsDep g d id = elem d (deps_of g id) ≡ true

-- `x` is `a`, or a dependency of something that `a` reaches.
pub data Reaches (g : Graph) (a : String) : String → Type 0 where
  here : Reaches g a a
  snoc : {x y : String} → Reaches g a x → IsDep g y x → Reaches g a y

-- `d` waits for itself: it reaches a step that it is a dependency of.
pub record OnCycle (g : Graph) (d : String) : Type 0 where
  pub last : String
  pub reached : Reaches g d last
  pub closes : IsDep g d last

-- The dependencies of a step, and theirs, and so on, come to an end.
pub data Grounded (g : Graph) : String → Type 0 where
  ground_on : (id : String) → ((d : String) → IsDep g d id → Grounded g d) → Grounded g id

module _ {g : Graph} where
  Reaches-cases :
      {a x : String} → Reaches g a x → (x ≡ a) ⊎ ((b : String) × IsDep g b a × Reaches g b x)
  Reaches-cases here = inl refl
  Reaches-cases {a} (snoc {x = x} {y = y} r e) = elim (Reaches-cases r) [
    | inl same ↦ inr (y, subst (λ t. IsDep g y t) same e, here)
    | inr (b, first, rest) ↦ inr (b, first, snoc rest e)
  ]

  Grounded→no_loop : {a : String} → Grounded g a → (x : String) → Reaches g a x → ¬ IsDep g a x
  Grounded→no_loop (ground_on a below) x r e = elim (Reaches-cases r) [
    | inl same ↦
        let self = subst (λ t. IsDep g a t) same e in Grounded→no_loop (below a self) a here self
    | inr (b, first, rest) ↦ Grounded→no_loop (below b first) a (snoc rest e) first
  ]

  pub Grounded→not-OnCycle : {a : String} → Grounded g a → ¬ OnCycle g a
  Grounded→not-OnCycle h loop = Grounded→no_loop h loop.last loop.reached loop.closes
