-- ===== src/Tools/Eval/Fuel.antt =====
-- internal/tools/eval.go: how much fuel the parser takes, and that each of its calls reads on.
use j_harness.Base.{
  ℕ, zero, suc, ◌+◌, ◌*◌, ◌≤◌, ◌<◌, Bool, true, false, none, some, List, [], ◌∷◌, ◌≡◌, ◌≢◌, refl,
  ok, err, ◌>>=◌, length, arith, Bool-cases, inl, inr,
}
use j_harness.Tools.Eval.{
  Floats, EvalError, out_of_fuel, Parsed, skip_space, span_number, number_of, on_digits,
  parse_number, negate, close_paren, after_expr, divide, factor_step, term_step, expr_step,
  parse_factor, term_loop, parse_term, expr_loop, parse_expr, at_end, eval,
}

abbrev is_fuel : EvalError → Bool
is_fuel out_of_fuel = true
is_fuel _ = false

-- Fewer bytes are left than `n`, or there is an error of the code.
abbrev Shorter : {F : Type 0} → ℕ → Parsed F → Type 0
Shorter n (ok (v, rest)) = length rest < n
Shorter n (err e) = is_fuel e ≡ false

length-skip_space : (s : List ℕ) → length (skip_space s) ≤ length s
unfolding skip_space
length-skip_space [] = omega arith
length-skip_space (c ∷ s) = ground (arith, length-skip_space s)

length-span_number : (s : List ℕ) → length (span_number s).0 + length (span_number s).1 ≡ length s
unfolding span_number
length-span_number [] = refl
length-span_number (c ∷ s) = ground (arith, length-span_number s)

module _ {F : Type 0} where
  Shorter-le : (a b : ℕ) (r : Parsed F) → a ≤ b → Shorter a r → Shorter b r
  Shorter-le a b (ok (v, rest)) h k = omega arith
  Shorter-le a b (err e) h k = k

  Shorter-bind :
      {G : Type 0} (a b : ℕ) (r : Parsed F) (then_ : F × List ℕ → Parsed G)
      → Shorter a r
      → ((v : F) (rest : List ℕ) → length rest < a → Shorter b (then_ (v, rest)))
      → Shorter b (r >>= then_)
  Shorter-bind a b (ok (v, rest)) then_ h k = k v rest h
  Shorter-bind a b (err e) then_ h k = h

  -- The recursive calls read on, on texts that are shorter.
  abbrev ReadsOn : ℕ → (List ℕ → Parsed F) → Type 0
  ReadsOn n parse = (t : List ℕ) → length t < n → Shorter (length t) (parse t)

  abbrev LoopsOn : ℕ → (F → List ℕ → Parsed F) → Type 0
  LoopsOn n loop = (v : F) (t : List ℕ) → length t < n → Shorter (suc (length t)) (loop v t)

module _ {F : Type 0} (floats : Floats F) where
  on_digits-Shorter :
      (n : ℕ) (digits rest : List ℕ)
      → length digits + length rest ≤ n
      → Shorter n (on_digits floats digits rest)
  on_digits-Shorter n [] rest h = refl
  on_digits-Shorter n (c ∷ digits) rest h =
      elim (floats.parse_float (c ∷ digits)) as (λ o. Shorter n (number_of floats o rest)) [
        | none ↦ refl
        | some v ↦ omega arith
      ]

  parse_number-Shorter : (s : List ℕ) → Shorter (length s) (parse_number floats s)
  unfolding parse_number
  parse_number-Shorter s = on_digits-Shorter (length s) _ _ (omega (arith, length-span_number s))

  close_paren-Shorter :
      (n : ℕ) (v : F) (rest : List ℕ) → length rest < n → Shorter n (close_paren floats v rest)
  close_paren-Shorter n v [] h = refl
  close_paren-Shorter n v (c ∷ rest) h = ground arith

  factor_step-Shorter :
      (n : ℕ) (pe pf : List ℕ → Parsed F) (s : List ℕ)
      → length s ≤ n
      → ReadsOn n pe
      → ReadsOn n pf
      → Shorter n (factor_step floats pe pf s)
  unfolding factor_step after_expr
  factor_step-Shorter n pe pf [] h e f = refl
  factor_step-Shorter n pe pf (c ∷ s) h e f =
      let minus =
        Shorter-bind (length s) n (pf s) (negate floats) (f s (omega arith))
          (λ v rest k. omega arith) in
      let plus = Shorter-le (length s) n (pf s) (omega arith) (f s (omega arith)) in
      let group =
        Shorter-bind (length s) n (pe s) (after_expr floats) (e s (omega arith)) (λ v rest k.
          close_paren-Shorter n v (skip_space rest) (omega (arith, length-skip_space rest))) in
      let number =
        Shorter-le (suc (length s)) n (parse_number floats (c ∷ s)) h
          (parse_number-Shorter (c ∷ s)) in
      ground (arith, minus, plus, group, number)

  divide-Shorter :
      (n : ℕ) (left right : F) (next_ : F → Parsed F)
      → ((v : F) → Shorter n (next_ v))
      → Shorter n (divide floats left right >>= next_)
  divide-Shorter n left right next_ h = elim (Bool-cases (floats.is_zero right)) [
    | inl z ↦ rw z refl
    | inr nz ↦ rw nz (h _)
  ]

  term_step-Shorter :
      (n : ℕ) (pf : List ℕ → Parsed F) (loop : F → List ℕ → Parsed F) (left : F) (s : List ℕ)
      → length s ≤ n
      → ReadsOn n pf
      → LoopsOn n loop
      → Shorter (suc n) (term_step floats pf loop left s)
  unfolding term_step
  term_step-Shorter n pf loop left [] h f l = omega arith
  term_step-Shorter n pf loop left (c ∷ s) h f l =
      let times =
        Shorter-bind (length s) (suc n) (pf s) (λ r. loop (floats.mul left r.0) r.1)
          (f s (omega arith))
          (λ v rest k.
            Shorter-le (suc (length rest)) (suc n) _ (omega arith) (l _ rest (omega arith))) in
      let over =
        Shorter-bind (length s) (suc n) (pf s) (λ r. divide floats left r.0 >>= (λ v. loop v r.1))
          (f s (omega arith))
          (λ v rest k.
            divide-Shorter (suc n) left v (λ u. loop u rest)
              (λ u.
                Shorter-le (suc (length rest)) (suc n) _ (omega arith) (l u rest (omega arith)))) in
      ground (arith, times, over)

  expr_step-Shorter :
      (n : ℕ) (pt : List ℕ → Parsed F) (loop : F → List ℕ → Parsed F) (left : F) (s : List ℕ)
      → length s ≤ n
      → ReadsOn n pt
      → LoopsOn n loop
      → Shorter (suc n) (expr_step floats pt loop left s)
  unfolding expr_step
  expr_step-Shorter n pt loop left [] h f l = omega arith
  expr_step-Shorter n pt loop left (c ∷ s) h f l =
      let after = λ (g : F → F) (v : F) (rest : List ℕ) (k : length rest < length s).
        Shorter-le (suc (length rest)) (suc n) (loop (g v) rest) (omega arith)
          (l (g v) rest (omega arith)) in
      let plus =
        Shorter-bind (length s) (suc n) (pt s) (λ r. loop (floats.add left r.0) r.1)
          (f s (omega arith)) (after (floats.add left)) in
      let minus =
        Shorter-bind (length s) (suc n) (pt s) (λ r. loop (floats.sub left r.0) r.1)
          (f s (omega arith)) (after (floats.sub left)) in
      ground (arith, plus, minus)

  -- Fuel for each of the five functions, where a call on a shorter text takes less.
  record Enough (fuel : ℕ) : Type 0 where
    factor :
        (s : List ℕ) → 4 * length s + 1 ≤ fuel → Shorter (length s) (parse_factor floats fuel s)
    terms :
        (v : F) (s : List ℕ)
        → 4 * length s + 1 ≤ fuel
        → Shorter (suc (length s)) (term_loop floats fuel v s)
    term : (s : List ℕ) → 4 * length s + 2 ≤ fuel → Shorter (length s) (parse_term floats fuel s)
    exprs :
        (v : F) (s : List ℕ)
        → 4 * length s + 1 ≤ fuel
        → Shorter (suc (length s)) (expr_loop floats fuel v s)
    expr : (s : List ℕ) → 4 * length s + 3 ≤ fuel → Shorter (length s) (parse_expr floats fuel s)

  all_Enough : (fuel : ℕ) → Enough fuel
  unfolding parse_expr
  all_Enough zero = record {
    factor = λ s h. absurd (omega arith);
    terms = λ v s h. absurd (omega arith);
    term = λ s h. absurd (omega arith);
    exprs = λ v s h. absurd (omega arith);
    expr = λ s h. absurd (omega arith);
  }
  all_Enough (suc fuel) =
      let e = all_Enough fuel in
      record {
        factor = λ s h.
            factor_step-Shorter (length s) (parse_expr floats fuel) (parse_factor floats fuel)
              (skip_space s) (length-skip_space s) (λ t k. e.expr t (omega arith))
              (λ t k. e.factor t (omega arith));
        terms = λ v s h.
            term_step-Shorter (length s) (parse_factor floats fuel) (term_loop floats fuel) v
              (skip_space s) (length-skip_space s) (λ t k. e.factor t (omega arith))
              (λ u t k. e.terms u t (omega arith));
        term = λ s h.
            Shorter-bind (length s) (length s) (parse_factor floats fuel s)
              (λ r. term_loop floats fuel r.0 r.1) (e.factor s (omega arith))
              (λ v rest k.
                Shorter-le (suc (length rest)) (length s) _ (omega arith)
                  (e.terms v rest (omega arith)));
        exprs = λ v s h.
            expr_step-Shorter (length s) (parse_term floats fuel) (expr_loop floats fuel) v
              (skip_space s) (length-skip_space s) (λ t k. e.term t (omega arith))
              (λ u t k. e.exprs u t (omega arith));
        expr = λ s h.
            Shorter-bind (length s) (length s) (parse_term floats fuel s)
              (λ r. expr_loop floats fuel r.0 r.1) (e.term s (omega arith))
              (λ v rest k.
                Shorter-le (suc (length rest)) (length s) _ (omega arith)
                  (e.exprs v rest (omega arith)));
      }

  at_end-fuel :
      (n : ℕ) (r : Parsed F)
      → Shorter n r
      → (r >>= (λ p. at_end floats p.0 (skip_space p.1))) ≢ err out_of_fuel
  at_end-fuel n (err e) h k = ground arith
  at_end-fuel n (ok (v, rest)) h k =
      elim (skip_space rest) as (λ t. at_end floats v t ≢ err out_of_fuel) [
        | [] ↦ λ q. cc
        | c ∷ t ↦ λ q. cc
      ]
        k

  -- On any bytes the parser of expressions ends with a value or with one of the errors of the code:
  -- the fuel, four times the length and three, is enough.
  pub eval-ne-out_of_fuel : (s : List ℕ) → eval floats s ≢ err out_of_fuel
  unfolding eval
  eval-ne-out_of_fuel s =
      at_end-fuel (length s) (parse_expr floats (4 * length s + 3) s)
        ((all_Enough (4 * length s + 3)).expr s (omega arith))
