-- ===== src/Tools/Eval/Grammar.antt =====
-- internal/tools/eval.go: the grammar that the parser reads, with the value of each tree: products bind
-- tighter than sums, and both associate to the left. A gap is the white space in front of a token.
use j_harness.Base.{
  ℕ, List, [], ◌∷◌, ◌++◌, true, Option, none, some, Result, ok, err, ◌>>=◌, ◌≡◌, ◌≢◌, All,
}
use j_harness.Tools.Eval.{Floats, EvalError, bad_number, is_space_byte, in_number, divide}

abbrev pub Gap : Type 0
Gap = List ℕ

mutual
  pub data Factor : Type 0 where
    number : Gap → List ℕ → Factor
    negative positive : Gap → Factor → Factor
    group : Gap → Sum → Gap → Factor

  pub data Product : Type 0 where
    single : Factor → Product
    times over : Product → Gap → Factor → Product

  pub data Sum : Type 0 where
    only : Product → Sum
    plus minus : Sum → Gap → Product → Sum

-- The text of a tree, in front of what follows it.
unfoldable mutual
  pub put_factor : Factor → List ℕ → List ℕ
  put_factor (number gap digits) rest = gap ++ (digits ++ rest)
  put_factor (negative gap f) rest = gap ++ (b'-' ∷ put_factor f rest)
  put_factor (positive gap f) rest = gap ++ (b'+' ∷ put_factor f rest)
  put_factor (group gap s gap') rest = gap ++ (b'(' ∷ put_sum s (gap' ++ (b')' ∷ rest)))

  pub put_product : Product → List ℕ → List ℕ
  put_product (single f) rest = put_factor f rest
  put_product (times p gap f) rest = put_product p (gap ++ (b'*' ∷ put_factor f rest))
  put_product (over p gap f) rest = put_product p (gap ++ (b'/' ∷ put_factor f rest))

  pub put_sum : Sum → List ℕ → List ℕ
  put_sum (only p) rest = put_product p rest
  put_sum (plus s gap p) rest = put_sum s (gap ++ (b'+' ∷ put_product p rest))
  put_sum (minus s gap p) rest = put_sum s (gap ++ (b'-' ∷ put_product p rest))

abbrev pub IsGap : Gap → Type 0
IsGap gap = All (λ c. is_space_byte c ≡ true) gap

-- The gaps are white space, and the numbers are of digits and points.
unfoldable mutual
  pub IsFactor : Factor → Type 0
  IsFactor (number gap digits) = IsGap gap × (digits ≢ []) × All (λ c. in_number c ≡ true) digits
  IsFactor (negative gap f) = IsGap gap × IsFactor f
  IsFactor (positive gap f) = IsGap gap × IsFactor f
  IsFactor (group gap s gap') = IsGap gap × IsSum s × IsGap gap'

  pub IsProduct : Product → Type 0
  IsProduct (single f) = IsFactor f
  IsProduct (times p gap f) = IsProduct p × IsGap gap × IsFactor f
  IsProduct (over p gap f) = IsProduct p × IsGap gap × IsFactor f

  pub IsSum : Sum → Type 0
  IsSum (only p) = IsProduct p
  IsSum (plus s gap p) = IsSum s × IsGap gap × IsProduct p
  IsSum (minus s gap p) = IsSum s × IsGap gap × IsProduct p

module _ {F : Type 0} (floats : Floats F) where
  open floats use {add, sub, mul, neg, parse_float}

  abbrev pub of_number : Option F → Result EvalError F
  of_number none = err bad_number
  of_number (some v) = ok v

  unfoldable mutual
    pub factor_value : Factor → Result EvalError F
    factor_value (number gap digits) = of_number (parse_float digits)
    factor_value (negative gap f) = factor_value f >>= (λ v. ok (neg v))
    factor_value (positive gap f) = factor_value f
    factor_value (group gap s gap') = sum_value s

    pub product_value : Product → Result EvalError F
    product_value (single f) = factor_value f
    product_value (times p gap f) =
        product_value p >>= (λ u. factor_value f >>= (λ v. ok (mul u v)))
    product_value (over p gap f) =
        product_value p >>= (λ u. factor_value f >>= (λ v. divide floats u v))

    pub sum_value : Sum → Result EvalError F
    sum_value (only p) = product_value p
    sum_value (plus s gap p) = sum_value s >>= (λ u. product_value p >>= (λ v. ok (add u v)))
    sum_value (minus s gap p) = sum_value s >>= (λ u. product_value p >>= (λ v. ok (sub u v)))
