-- ===== src/Tools/Eval/Tokens.antt =====
-- internal/tools/eval.go: what each call of the parser does at a token of the grammar.
use j_harness.Base.{
  ℕ, zero, suc, ◌-◌, ◌≤◌, true, false, ◌||◌, Option, none, some, List, [], ◌∷◌, ◌++◌, ◌≡◌, ◌≢◌,
  refl, Result, ok, err, ◌>>=◌, nat_eq, length, length-append, arith, All,
}
use j_harness.Tools.Eval.{
  Floats, EvalError, is_space_byte, in_number, skip_space, span_number, number_of, parse_number,
  negate, after_expr, divide, factor_step, term_step, expr_step, parse_factor, term_loop,
  parse_term, expr_loop, parse_expr,
}
use j_harness.Tools.Eval.Grammar.{
  Gap, Factor, number, negative, positive, group, Product, single, times, over, Sum, only, plus,
  minus, put_factor, put_product, put_sum, IsGap, of_number,
}

-- No number goes on into the text.
abbrev pub Breaks : List ℕ → Type 0
Breaks [] = Unit {0}
Breaks (c ∷ s) = in_number c ≡ false

pub skip-gap :
    (gap : Gap) (c : ℕ) (s : List ℕ)
    → IsGap gap
    → is_space_byte c ≡ false
    → skip_space (gap ++ (c ∷ s)) ≡ c ∷ s
unfolding skip_space
skip-gap [] c s g h = rw h refl
skip-gap (d ∷ gap) c s g h = rw g.0 (skip-gap gap c s g.1 h)

pub skip-only : (gap : Gap) → IsGap gap → skip_space gap ≡ []
unfolding skip_space
skip-only [] g = refl
skip-only (d ∷ gap) g = rw g.0 (skip-only gap g.1)

pub skip_twice : (s : List ℕ) → skip_space (skip_space s) ≡ skip_space s
unfolding skip_space
skip_twice [] = refl
skip_twice (c ∷ s) = ground (arith, skip_twice s)

pub Breaks-gap :
    (gap : Gap) (c : ℕ) (s : List ℕ) → IsGap gap → in_number c ≡ false → Breaks (gap ++ (c ∷ s))
Breaks-gap [] c s g h = h
Breaks-gap (d ∷ gap) c s g h = ground (arith, g.0)

pub Breaks-only : (gap : Gap) → IsGap gap → Breaks gap
Breaks-only [] g = tt
Breaks-only (d ∷ gap) g = ground (arith, g.0)

pub span-digits :
    (digits rest : List ℕ)
    → All (λ c. in_number c ≡ true) digits
    → Breaks rest
    → span_number (digits ++ rest) ≡ (digits, rest)
unfolding span_number
span-digits [] [] d b = refl
span-digits [] (c ∷ rest) d b = rw b refl
span-digits (c ∷ digits) rest d b = rw d.0 (rw (span-digits digits rest d.1 b) refl)

pub pred_suc : (n : ℕ) → suc n - 1 ≡ n
pred_suc n = omega arith

pub >>=_assoc :
    {A B C : Type 0} (r : Result EvalError A) (f : A → Result EvalError B)
    (g : B → Result EvalError C)
    → ((r >>= f) >>= g) ≡ (r >>= (λ a. f a >>= g))
>>=_assoc (ok a) f g = refl
>>=_assoc (err e) f g = refl

pub >>=_cong :
    {A B : Type 0} (r : Result EvalError A) (f g : A → Result EvalError B)
    → ((a : A) → f a ≡ g a)
    → (r >>= f) ≡ (r >>= g)
>>=_cong (ok a) f g h = h a
>>=_cong (err e) f g h = refl

pub >>=_nested :
    {A B C D : Type 0} (r : Result EvalError A) (q : Result EvalError B)
    (g : A → B → Result EvalError C) (k : C → Result EvalError D)
    → (r >>= (λ u. q >>= (λ v. g u v >>= k))) ≡ ((r >>= (λ u. q >>= (λ v. g u v))) >>= k)
>>=_nested (ok a) (ok b) g k = refl
>>=_nested (ok a) (err e) g k = refl
>>=_nested (err e) q g k = refl

pub >>=_ok : {A : Type 0} (r : Result EvalError A) → (r >>= (λ a. ok a)) ≡ r
>>=_ok (ok a) = refl
>>=_ok (err e) = refl

-- The text is in front of the rest.
mutual
  unfolding put_sum

  pub length-put_factor : (f : Factor) (rest : List ℕ) → length rest ≤ length (put_factor f rest)
  length-put_factor (number gap digits) rest =
      omega (arith, length-append gap (digits ++ rest), length-append digits rest)
  length-put_factor (negative gap f) rest =
      omega (arith, length-append gap (b'-' ∷ put_factor f rest), length-put_factor f rest)
  length-put_factor (positive gap f) rest =
      omega (arith, length-append gap (b'+' ∷ put_factor f rest), length-put_factor f rest)
  length-put_factor (group gap s gap') rest = omega (
    arith,
    length-append gap (b'(' ∷ put_sum s (gap' ++ (b')' ∷ rest))),
    length-append gap' (b')' ∷ rest),
    length-put_sum s (gap' ++ (b')' ∷ rest)),
  )

  pub length-put_product : (p : Product) (rest : List ℕ) → length rest ≤ length (put_product p rest)
  length-put_product (single f) rest = length-put_factor f rest
  length-put_product (times p gap f) rest = omega (
    arith,
    length-put_product p (gap ++ (b'*' ∷ put_factor f rest)),
    length-append gap (b'*' ∷ put_factor f rest),
    length-put_factor f rest,
  )
  length-put_product (over p gap f) rest = omega (
    arith,
    length-put_product p (gap ++ (b'/' ∷ put_factor f rest)),
    length-append gap (b'/' ∷ put_factor f rest),
    length-put_factor f rest,
  )

  pub length-put_sum : (s : Sum) (rest : List ℕ) → length rest ≤ length (put_sum s rest)
  length-put_sum (only p) rest = length-put_product p rest
  length-put_sum (plus s gap p) rest = omega (
    arith,
    length-put_sum s (gap ++ (b'+' ∷ put_product p rest)),
    length-append gap (b'+' ∷ put_product p rest),
    length-put_product p rest,
  )
  length-put_sum (minus s gap p) rest = omega (
    arith,
    length-put_sum s (gap ++ (b'-' ∷ put_product p rest)),
    length-append gap (b'-' ∷ put_product p rest),
    length-put_product p rest,
  )

-- Neither `*` nor `/` comes next.
abbrev pub EndsProduct : List ℕ → Type 0
EndsProduct [] = Unit {0}
EndsProduct (c ∷ s) = (nat_eq c b'*' || nat_eq c b'/') ≡ false

pub EndsProduct-gap :
    (gap : Gap) (c : ℕ) (s : List ℕ)
    → IsGap gap
    → is_space_byte c ≡ false
    → (nat_eq c b'*' || nat_eq c b'/') ≡ false
    → EndsProduct (skip_space (gap ++ (c ∷ s)))
EndsProduct-gap gap c s g h e = rw (skip-gap gap c s g h) e

module _ {F : Type 0} (floats : Floats F) where
  pub number_of-bind :
      (o : Option F) (rest : List ℕ)
      → number_of floats o rest ≡ (of_number floats o >>= (λ v. ok (v, rest)))
  number_of-bind none rest = refl
  number_of-bind (some v) rest = refl

  pub read_number :
      (digits rest : List ℕ)
      → digits ≢ []
      → All (λ c. in_number c ≡ true) digits
      → Breaks rest
      → parse_number floats (digits ++ rest)
        ≡ (of_number floats (floats.parse_float digits) >>= (λ v. ok (v, rest)))
  unfolding parse_number
  read_number [] rest full d b = absurd (full refl)
  read_number (c ∷ digits) rest full d b =
      rw (span-digits (c ∷ digits) rest d b) (number_of-bind (floats.parse_float (c ∷ digits)) rest)

  -- What a call does at a token that stands behind a gap.
  pub number-token :
      (n : ℕ) (gap : Gap) (digits rest : List ℕ)
      → 1 ≤ n
      → IsGap gap
      → digits ≢ []
      → All (λ c. in_number c ≡ true) digits
      → Breaks rest
      → parse_factor floats n (gap ++ (digits ++ rest))
        ≡ (of_number floats (floats.parse_float digits) >>= (λ v. ok (v, rest)))
  unfolding parse_factor factor_step parse_number
  number-token zero gap digits rest h g full d b = absurd (omega arith)
  number-token (suc n) gap [] rest h g full d b = absurd (full refl)
  number-token (suc n) gap (c ∷ digits) rest h g full d b =
      rw (skip-gap gap c (digits ++ rest) g (ground (arith, d.0)))
        (ground (arith, d.0, read_number (c ∷ digits) rest full d b))

  pub negative-token :
      (n : ℕ) (gap : Gap) (t : List ℕ)
      → 1 ≤ n
      → IsGap gap
      → parse_factor floats n (gap ++ (b'-' ∷ t))
        ≡ (parse_factor floats (n - 1) t >>= negate floats)
  unfolding parse_factor factor_step
  negative-token zero gap t h g = absurd (omega arith)
  negative-token (suc n) gap t h g = rw (skip-gap gap b'-' t g refl) (rw (pred_suc n) refl)

  pub positive-token :
      (n : ℕ) (gap : Gap) (t : List ℕ)
      → 1 ≤ n
      → IsGap gap
      → parse_factor floats n (gap ++ (b'+' ∷ t)) ≡ parse_factor floats (n - 1) t
  unfolding parse_factor factor_step
  positive-token zero gap t h g = absurd (omega arith)
  positive-token (suc n) gap t h g = rw (skip-gap gap b'+' t g refl) (rw (pred_suc n) refl)

  pub group-token :
      (n : ℕ) (gap : Gap) (t : List ℕ)
      → 1 ≤ n
      → IsGap gap
      → parse_factor floats n (gap ++ (b'(' ∷ t))
        ≡ (parse_expr floats (n - 1) t >>= after_expr floats)
  unfolding parse_factor factor_step
  group-token zero gap t h g = absurd (omega arith)
  group-token (suc n) gap t h g = rw (skip-gap gap b'(' t g refl) (rw (pred_suc n) refl)

  pub times-token :
      (n : ℕ) (v : F) (gap : Gap) (t : List ℕ)
      → 1 ≤ n
      → IsGap gap
      → term_loop floats n v (gap ++ (b'*' ∷ t))
        ≡ (parse_factor floats (n - 1) t >>= (λ r. term_loop floats (n - 1) (floats.mul v r.0) r.1))
  unfolding parse_factor term_step
  times-token zero v gap t h g = absurd (omega arith)
  times-token (suc n) v gap t h g = rw (skip-gap gap b'*' t g refl) (rw (pred_suc n) refl)

  pub over-token :
      (n : ℕ) (v : F) (gap : Gap) (t : List ℕ)
      → 1 ≤ n
      → IsGap gap
      → term_loop floats n v (gap ++ (b'/' ∷ t)) ≡ (
          parse_factor floats (n - 1) t
          >>= (λ r. divide floats v r.0 >>= (λ u. term_loop floats (n - 1) u r.1)))
  unfolding parse_factor term_step
  over-token zero v gap t h g = absurd (omega arith)
  over-token (suc n) v gap t h g = rw (skip-gap gap b'/' t g refl) (rw (pred_suc n) refl)

  pub plus-token :
      (n : ℕ) (v : F) (gap : Gap) (t : List ℕ)
      → 1 ≤ n
      → IsGap gap
      → expr_loop floats n v (gap ++ (b'+' ∷ t))
        ≡ (parse_term floats (n - 1) t >>= (λ r. expr_loop floats (n - 1) (floats.add v r.0) r.1))
  unfolding parse_factor expr_step
  plus-token zero v gap t h g = absurd (omega arith)
  plus-token (suc n) v gap t h g = rw (skip-gap gap b'+' t g refl) (rw (pred_suc n) refl)

  pub minus-token :
      (n : ℕ) (v : F) (gap : Gap) (t : List ℕ)
      → 1 ≤ n
      → IsGap gap
      → expr_loop floats n v (gap ++ (b'-' ∷ t))
        ≡ (parse_term floats (n - 1) t >>= (λ r. expr_loop floats (n - 1) (floats.sub v r.0) r.1))
  unfolding parse_factor expr_step
  minus-token zero v gap t h g = absurd (omega arith)
  minus-token (suc n) v gap t h g = rw (skip-gap gap b'-' t g refl) (rw (pred_suc n) refl)

  -- The calls that start with another one.
  pub term-first :
      (n : ℕ) (s : List ℕ)
      → 1 ≤ n
      → parse_term floats n s
        ≡ (parse_factor floats (n - 1) s >>= (λ r. term_loop floats (n - 1) r.0 r.1))
  unfolding parse_factor
  term-first zero s h = absurd (omega arith)
  term-first (suc n) s h = rw (pred_suc n) refl

  pub expr-first :
      (n : ℕ) (s : List ℕ)
      → 1 ≤ n
      → parse_expr floats n s
        ≡ (parse_term floats (n - 1) s >>= (λ r. expr_loop floats (n - 1) r.0 r.1))
  unfolding parse_factor
  expr-first zero s h = absurd (omega arith)
  expr-first (suc n) s h = rw (pred_suc n) refl

  pub term_loop-stops :
      (n : ℕ) (v : F) (s : List ℕ)
      → 1 ≤ n
      → EndsProduct (skip_space s)
      → term_loop floats n v s ≡ ok (v, skip_space s)
  unfolding parse_factor term_step
  term_loop-stops zero v s h e = absurd (omega arith)
  term_loop-stops (suc n) v s h e =
      elim (skip_space s)
          as (λ t.
            EndsProduct t
            → term_step floats (parse_factor floats n) (term_loop floats n) v t ≡ ok (v, t)) [
              | [] ↦ λ k. refl
              | c ∷ t ↦ λ k. ground arith
            ]
        e

  pub expr_loop-skip :
      (n : ℕ) (v : F) (s : List ℕ) → expr_loop floats n v (skip_space s) ≡ expr_loop floats n v s
  unfolding parse_factor
  expr_loop-skip zero v s = refl
  expr_loop-skip (suc n) v s = rw (skip_twice s) refl
