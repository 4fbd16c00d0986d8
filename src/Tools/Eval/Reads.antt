-- ===== src/Tools/Eval/Reads.antt =====
-- internal/tools/eval.go: the parser gives each text of the grammar the value of its tree.
use j_harness.Base.{
  ℕ, zero, suc, ◌+◌, ◌*◌, ◌-◌, ◌≤◌, List, [], ◌∷◌, ◌++◌, ◌≡◌, refl, sym, ◌∙◌, ok, ◌>>=◌, length,
  length-append, arith,
}
use j_harness.Tools.Eval.{
  Floats, Parsed, skip_space, negate, after_expr, divide, expr_step, parse_factor, term_loop,
  parse_term, expr_loop, parse_expr, eval,
}
use j_harness.Tools.Eval.Grammar.{
  Gap, Factor, number, negative, positive, group, Product, single, times, over, Sum, only, plus,
  minus, put_factor, put_product, put_sum, IsGap, IsFactor, IsProduct, IsSum, factor_value,
  product_value, sum_value,
}
use j_harness.Tools.Eval.Tokens.{
  Breaks, skip-gap, skip-only, Breaks-gap, Breaks-only, >>=_assoc, >>=_cong, >>=_ok, >>=_nested,
  length-put_factor, length-put_product, EndsProduct, EndsProduct-gap, number-token, negative-token,
  positive-token, group-token, times-token, over-token, plus-token, minus-token, term-first,
  expr-first, term_loop-stops, expr_loop-skip,
}

module _ {F : Type 0} (floats : Floats F) where
  -- A value in front of a rest.
  abbrev with_rest : List ℕ → F → Parsed F
  with_rest rest v = ok (v, rest)

  abbrev FactorReads : Factor → Type 0
  FactorReads f =
      (rest : List ℕ) (n : ℕ)
      → IsFactor f
      → Breaks rest
      → 4 * length (put_factor f rest) + 1 ≤ n
      → parse_factor floats n (put_factor f rest) ≡ (factor_value floats f >>= with_rest rest)

  -- What the loop makes of the rest, given the value so far.
  abbrev TermGoesOn : List ℕ → (F → Parsed F) → Type 0
  TermGoesOn rest k = (v : F) (m : ℕ) → 4 * length rest + 1 ≤ m → term_loop floats m v rest ≡ k v

  abbrev ExprGoesOn : List ℕ → (F → Parsed F) → Type 0
  ExprGoesOn rest k = (v : F) (m : ℕ) → 4 * length rest + 1 ≤ m → expr_loop floats m v rest ≡ k v

  times-goes_on :
      (f : Factor) (gap : Gap) (rest : List ℕ) (k : F → Parsed F)
      → FactorReads f
      → IsGap gap
      → IsFactor f
      → Breaks rest
      → TermGoesOn rest k
      → TermGoesOn
          (gap ++ (b'*' ∷ put_factor f rest))
          (λ u. factor_value floats f >>= (λ v. k (floats.mul u v)))
  times-goes_on f gap rest k reads g w b goes u m h =
      let long = length-put_factor f rest in
      let whole = length-append gap (b'*' ∷ put_factor f rest) in
      times-token floats m u gap (put_factor f rest) (omega arith) g
      ∙ rw (reads rest (m - 1) w b (omega arith)) (
          >>=_assoc (factor_value floats f) (with_rest rest)
            (λ r. term_loop floats (m - 1) (floats.mul u r.0) r.1)
          ∙ >>=_cong (factor_value floats f) _ _ (λ v. goes (floats.mul u v) (m - 1) (omega arith)))

  over-goes_on :
      (f : Factor) (gap : Gap) (rest : List ℕ) (k : F → Parsed F)
      → FactorReads f
      → IsGap gap
      → IsFactor f
      → Breaks rest
      → TermGoesOn rest k
      → TermGoesOn
          (gap ++ (b'/' ∷ put_factor f rest))
          (λ u. factor_value floats f >>= (λ v. divide floats u v >>= k))
  over-goes_on f gap rest k reads g w b goes u m h =
      let long = length-put_factor f rest in
      let whole = length-append gap (b'/' ∷ put_factor f rest) in
      over-token floats m u gap (put_factor f rest) (omega arith) g
      ∙ rw (reads rest (m - 1) w b (omega arith)) (
          >>=_assoc (factor_value floats f) (with_rest rest)
            (λ r. divide floats u r.0 >>= (λ t. term_loop floats (m - 1) t r.1))
          ∙ >>=_cong (factor_value floats f) _ _
              (λ v. >>=_cong (divide floats u v) _ _ (λ t. goes t (m - 1) (omega arith))))

  abbrev ProductReads : Product → Type 0
  ProductReads p =
      (rest : List ℕ) (k : F → Parsed F) (n : ℕ)
      → IsProduct p
      → Breaks rest
      → TermGoesOn rest k
      → 4 * length (put_product p rest) + 2 ≤ n
      → parse_term floats n (put_product p rest) ≡ (product_value floats p >>= k)

  -- A product behind which no other factor comes.
  product-ends :
      (p : Product) (rest : List ℕ) (n : ℕ)
      → ProductReads p
      → IsProduct p
      → Breaks rest
      → EndsProduct (skip_space rest)
      → 4 * length (put_product p rest) + 2 ≤ n
      → parse_term floats n (put_product p rest)
        ≡ (product_value floats p >>= with_rest (skip_space rest))
  product-ends p rest n reads w b e h =
      reads rest (with_rest (skip_space rest)) n w b
        (λ v m l. term_loop-stops floats m v rest (omega arith) e) h

  -- The sum goes on with a product, at a loop whose next value is that of `op`.
  sum-goes_on :
      (p : Product) (rest : List ℕ) (k : F → Parsed F) (op : F → F) (m : ℕ)
      → ProductReads p
      → IsProduct p
      → Breaks rest
      → EndsProduct (skip_space rest)
      → ExprGoesOn rest k
      → 4 * length (put_product p rest) + 2 ≤ m
      → (parse_term floats m (put_product p rest) >>= (λ r. expr_loop floats m (op r.0) r.1))
        ≡ (product_value floats p >>= (λ v. k (op v)))
  sum-goes_on p rest k op m reads w b e goes h =
      let long = length-put_product p rest in
      rw (product-ends p rest m reads w b e h) (
        >>=_assoc (product_value floats p) (with_rest (skip_space rest))
          (λ r. expr_loop floats m (op r.0) r.1)
        ∙ >>=_cong (product_value floats p) _ _
            (λ v. expr_loop-skip floats m (op v) rest ∙ goes (op v) m (omega arith)))

  plus-goes_on :
      (p : Product) (gap : Gap) (rest : List ℕ) (k : F → Parsed F)
      → ProductReads p
      → IsGap gap
      → IsProduct p
      → Breaks rest
      → EndsProduct (skip_space rest)
      → ExprGoesOn rest k
      → ExprGoesOn
          (gap ++ (b'+' ∷ put_product p rest))
          (λ u. product_value floats p >>= (λ v. k (floats.add u v)))
  plus-goes_on p gap rest k reads g w b e goes u m h =
      let whole = length-append gap (b'+' ∷ put_product p rest) in
      plus-token floats m u gap (put_product p rest) (omega arith) g
      ∙ sum-goes_on p rest k (floats.add u) (m - 1) reads w b e goes (omega arith)

  minus-goes_on :
      (p : Product) (gap : Gap) (rest : List ℕ) (k : F → Parsed F)
      → ProductReads p
      → IsGap gap
      → IsProduct p
      → Breaks rest
      → EndsProduct (skip_space rest)
      → ExprGoesOn rest k
      → ExprGoesOn
          (gap ++ (b'-' ∷ put_product p rest))
          (λ u. product_value floats p >>= (λ v. k (floats.sub u v)))
  minus-goes_on p gap rest k reads g w b e goes u m h =
      let whole = length-append gap (b'-' ∷ put_product p rest) in
      minus-token floats m u gap (put_product p rest) (omega arith) g
      ∙ sum-goes_on p rest k (floats.sub u) (m - 1) reads w b e goes (omega arith)

  abbrev SumReads : Sum → Type 0
  SumReads s =
      (rest : List ℕ) (k : F → Parsed F) (n : ℕ)
      → IsSum s
      → Breaks rest
      → EndsProduct (skip_space rest)
      → ExprGoesOn rest k
      → 4 * length (put_sum s rest) + 3 ≤ n
      → parse_expr floats n (put_sum s rest) ≡ (sum_value floats s >>= k)

  -- At a closing parenthesis the loop over a sum ends.
  close-goes_on :
      (gap : Gap) (rest : List ℕ)
      → IsGap gap
      → ExprGoesOn (gap ++ (b')' ∷ rest)) (with_rest (b')' ∷ rest))
  unfolding parse_factor expr_step
  close-goes_on gap rest g v zero h = absurd (omega arith)
  close-goes_on gap rest g v (suc m) h = rw (skip-gap gap b')' rest g refl) refl

  group-reads : (gap : Gap) (s : Sum) (gap' : Gap) → SumReads s → FactorReads (group gap s gap')
  unfolding put_sum IsSum sum_value skip_space after_expr
  group-reads gap s gap' reads rest n w b h =
      let t = gap' ++ (b')' ∷ rest) in
      let whole = length-append gap (b'(' ∷ put_sum s t) in
      group-token floats n gap (put_sum s t) (omega arith) w.0
      ∙ rw
          (reads t (with_rest (b')' ∷ rest)) (n - 1) w.1 (Breaks-gap gap' b')' rest w.2 refl)
            (EndsProduct-gap gap' b')' rest w.2 refl refl) (close-goes_on gap' rest w.2)
            (omega arith))
          (>>=_assoc (sum_value floats s) (with_rest (b')' ∷ rest)) (after_expr floats))

  mutual
    unfolding put_sum IsSum sum_value

    factor-reads : (f : Factor) → FactorReads f
    factor-reads (number gap digits) rest n w b h =
        number-token floats n gap digits rest (omega arith) w.0 w.1 w.2 b
    factor-reads (negative gap f) rest n w b h =
        let whole = length-append gap (b'-' ∷ put_factor f rest) in
        negative-token floats n gap (put_factor f rest) (omega arith) w.0
        ∙ rw (factor-reads f rest (n - 1) w.1 b (omega arith)) (
            >>=_assoc (factor_value floats f) (with_rest rest) (negate floats)
            ∙ sym (>>=_assoc (factor_value floats f) (λ v. ok (floats.neg v)) (with_rest rest)))
    factor-reads (positive gap f) rest n w b h =
        let whole = length-append gap (b'+' ∷ put_factor f rest) in
        positive-token floats n gap (put_factor f rest) (omega arith) w.0
        ∙ factor-reads f rest (n - 1) w.1 b (omega arith)
    factor-reads (group gap s gap') rest n w b h = group-reads gap s gap' (sum-reads s) rest n w b h

    product-reads : (p : Product) → ProductReads p
    product-reads (single f) rest k n w b goes h =
        let long = length-put_factor f rest in
        term-first floats n (put_factor f rest) (omega arith)
        ∙ rw (factor-reads f rest (n - 1) w b (omega arith)) (
            >>=_assoc (factor_value floats f) (with_rest rest)
              (λ r. term_loop floats (n - 1) r.0 r.1)
            ∙ >>=_cong (factor_value floats f) _ _ (λ v. goes v (n - 1) (omega arith)))
    product-reads (times p gap f) rest k n w b goes h =
        product-reads p (gap ++ (b'*' ∷ put_factor f rest)) _ n w.0
          (Breaks-gap gap b'*' (put_factor f rest) w.1 refl)
          (times-goes_on f gap rest k (factor-reads f) w.1 w.2 b goes) h
        ∙ >>=_nested (product_value floats p) (factor_value floats f) (λ u v. ok (floats.mul u v)) k
    product-reads (over p gap f) rest k n w b goes h =
        product-reads p (gap ++ (b'/' ∷ put_factor f rest)) _ n w.0
          (Breaks-gap gap b'/' (put_factor f rest) w.1 refl)
          (over-goes_on f gap rest k (factor-reads f) w.1 w.2 b goes) h
        ∙ >>=_nested (product_value floats p) (factor_value floats f) (divide floats) k

    sum-reads : (s : Sum) → SumReads s
    sum-reads (only p) rest k n w b e goes h =
        expr-first floats n (put_product p rest) (omega arith)
        ∙ sum-goes_on p rest k (λ v. v) (n - 1) (product-reads p) w b e goes (omega arith)
    sum-reads (plus s gap p) rest k n w b e goes h =
        sum-reads s (gap ++ (b'+' ∷ put_product p rest)) _ n w.0
          (Breaks-gap gap b'+' (put_product p rest) w.1 refl)
          (EndsProduct-gap gap b'+' (put_product p rest) w.1 refl refl)
          (plus-goes_on p gap rest k (product-reads p) w.1 w.2 b e goes) h
        ∙ >>=_nested (sum_value floats s) (product_value floats p) (λ u v. ok (floats.add u v)) k
    sum-reads (minus s gap p) rest k n w b e goes h =
        sum-reads s (gap ++ (b'-' ∷ put_product p rest)) _ n w.0
          (Breaks-gap gap b'-' (put_product p rest) w.1 refl)
          (EndsProduct-gap gap b'-' (put_product p rest) w.1 refl refl)
          (minus-goes_on p gap rest k (product-reads p) w.1 w.2 b e goes) h
        ∙ >>=_nested (sum_value floats s) (product_value floats p) (λ u v. ok (floats.sub u v)) k

  expr_loop-stops : (gap : Gap) → IsGap gap → ExprGoesOn gap (with_rest [])
  unfolding parse_factor expr_step
  expr_loop-stops gap g v zero h = absurd (omega arith)
  expr_loop-stops gap g v (suc m) h = rw (skip-only gap g) refl

  -- For each tree of the grammar, with any white space in front of its tokens and at the end, eval
  -- of its text gives the value of the tree: products bind tighter than sums, both associate to the
  -- left, a sign binds tightest, and a division by zero and a number that does not parse are its
  -- errors, the first from the left.
  pub eval-put_sum :
      (s : Sum) (gap : Gap) → IsSum s → IsGap gap → eval floats (put_sum s gap) ≡ sum_value floats s
  unfolding eval skip_space
  eval-put_sum s gap w g =
      rw
        (sum-reads s gap (with_rest []) (4 * length (put_sum s gap) + 3) w (Breaks-only gap g)
          (rw (skip-only gap g) tt) (expr_loop-stops gap g) (omega arith))
        (>>=_assoc (sum_value floats s) (with_rest []) _ ∙ >>=_ok (sum_value floats s))
