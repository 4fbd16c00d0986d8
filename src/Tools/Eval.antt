-- ===== src/Tools/Eval.antt =====
-- internal/tools/eval.go: the parser that evaluates an arithmetic expression. A text is its bytes, and
-- the parser's position is what is left of them. float64 and strconv are parameters.
pub mod Fuel
pub mod Grammar
pub mod Tokens
pub mod Reads
use j_harness.Base.{
  ℕ, zero, suc, ◌+◌, ◌*◌, String, Bool, true, false, ◌&&◌, ◌||◌, Option, none, some, List, [], ◌∷◌,
  Result, ok, err, ◌>>=◌, nat_eq, leb, if◌then◌else◌, length, is_digit,
}

-- The operations of float64, `strconv.ParseFloat`, and what `formatFloat` asks and prints.
pub record Floats (F : Type 0) : Type 0 where
  pub add : F → F → F
  pub sub : F → F → F
  pub mul : F → F → F
  pub quot : F → F → F
  pub neg : F → F
  pub is_zero : F → Bool
  pub parse_float : List ℕ → Option F
  -- `v == math.Trunc(v) && math.Abs(v) < 1e15`
  pub is_short_whole : F → Bool
  pub format_int : F → String
  pub format_general : F → String

-- The position that two of the messages name is that of the bytes that are left.
pub data EvalError : Type 0 where
  unexpected expected_number : List ℕ → EvalError
  unexpected_end missing_paren division_by_zero bad_number : EvalError
  out_of_fuel : EvalError

-- `unicode.IsSpace` of a byte
abbrev pub is_space_byte : ℕ → Bool
is_space_byte c = (leb 9 c && leb c 13) || nat_eq c 32 || nat_eq c 0x85 || nat_eq c 0xa0

abbrev pub in_number : ℕ → Bool
in_number c = is_digit c || nat_eq c b'.'

unfoldable pub skip_space : List ℕ → List ℕ
skip_space [] = []
skip_space (c ∷ s) = let rest = skip_space s in if is_space_byte c then rest else c ∷ s

-- The bytes of a number, and those behind it.
unfoldable pub span_number : List ℕ → List ℕ × List ℕ
span_number [] = ([], [])
span_number (c ∷ s) =
    let (digits, rest) = span_number s in if in_number c then (c ∷ digits, rest) else ([], c ∷ s)

-- What a parse gives: a value, and the bytes that are left.
abbrev pub Parsed : Type 0 → Type 0
Parsed F = Result EvalError (F × List ℕ)

module _ {F : Type 0} (floats : Floats F) where
  open floats use {add, sub, mul, quot, neg, is_zero, parse_float}

  abbrev pub number_of : Option F → List ℕ → Parsed F
  number_of none rest = err bad_number
  number_of (some v) rest = ok (v, rest)

  abbrev pub on_digits : List ℕ → List ℕ → Parsed F
  on_digits [] rest = err (expected_number rest)
  on_digits (c ∷ digits) rest = number_of (parse_float (c ∷ digits)) rest

  unfoldable pub parse_number : List ℕ → Parsed F
  unfolding span_number
  parse_number s = on_digits (span_number s).0 (span_number s).1

  -- The division of parseTerm
  abbrev pub divide : F → F → Result EvalError F
  divide left right = if is_zero right then err division_by_zero else ok (quot left right)

  abbrev pub negate : F × List ℕ → Parsed F
  negate (v, rest) = ok (neg v, rest)

  -- `)` behind an expression in parentheses
  abbrev pub close_paren : F → List ℕ → Parsed F
  close_paren v [] = err missing_paren
  close_paren v (c ∷ rest) = if nat_eq c b')' then ok (v, rest) else err missing_paren

  unfoldable pub after_expr : F × List ℕ → Parsed F
  unfolding skip_space
  after_expr (v, rest) = close_paren v (skip_space rest)

  -- The switch of parseFactor, with its recursive calls as arguments.
  unfoldable pub factor_step : (parse_expr parse_factor : List ℕ → Parsed F) → List ℕ → Parsed F
  unfolding parse_number skip_space after_expr
  factor_step parse_expr parse_factor [] = err unexpected_end
  factor_step parse_expr parse_factor (c ∷ s) =
      if nat_eq c b'-'
      then parse_factor s >>= negate
      else if nat_eq c b'+'
      then parse_factor s
      else if nat_eq c b'('
      then parse_expr s >>= after_expr
      else parse_number (c ∷ s)

  -- One round of the loop of parseTerm: `loop` is the next round.
  unfoldable pub term_step :
      (parse_factor : List ℕ → Parsed F) (loop : F → List ℕ → Parsed F) → F → List ℕ → Parsed F
  term_step parse_factor loop left [] = ok (left, [])
  term_step parse_factor loop left (c ∷ s) =
      if nat_eq c b'*'
      then parse_factor s >>= (λ r. loop (mul left r.0) r.1)
      else if nat_eq c b'/'
      then parse_factor s >>= (λ r. divide left r.0 >>= (λ v. loop v r.1))
      else ok (left, c ∷ s)

  -- One round of the loop of parseExpr
  unfoldable pub expr_step :
      (parse_term : List ℕ → Parsed F) (loop : F → List ℕ → Parsed F) → F → List ℕ → Parsed F
  expr_step parse_term loop left [] = ok (left, [])
  expr_step parse_term loop left (c ∷ s) =
      if nat_eq c b'+'
      then parse_term s >>= (λ r. loop (add left r.0) r.1)
      else if nat_eq c b'-'
      then parse_term s >>= (λ r. loop (sub left r.0) r.1)
      else ok (left, c ∷ s)

  unfoldable mutual
    unfolding factor_step term_step expr_step skip_space

    pub parse_factor : ℕ → List ℕ → Parsed F
    parse_factor zero s = err out_of_fuel
    parse_factor (suc fuel) s = factor_step (parse_expr fuel) (parse_factor fuel) (skip_space s)

    pub term_loop : ℕ → F → List ℕ → Parsed F
    term_loop zero left s = err out_of_fuel
    term_loop (suc fuel) left s = term_step (parse_factor fuel) (term_loop fuel) left (skip_space s)

    pub parse_term : ℕ → List ℕ → Parsed F
    parse_term zero s = err out_of_fuel
    parse_term (suc fuel) s = parse_factor fuel s >>= (λ r. term_loop fuel r.0 r.1)

    pub expr_loop : ℕ → F → List ℕ → Parsed F
    expr_loop zero left s = err out_of_fuel
    expr_loop (suc fuel) left s = expr_step (parse_term fuel) (expr_loop fuel) left (skip_space s)

    pub parse_expr : ℕ → List ℕ → Parsed F
    parse_expr zero s = err out_of_fuel
    parse_expr (suc fuel) s = parse_term fuel s >>= (λ r. expr_loop fuel r.0 r.1)

  -- Each byte is read by calls on at most four levels.
  abbrev pub enough : List ℕ → ℕ
  enough s = 4 * length s + 3

  abbrev pub at_end : F → List ℕ → Result EvalError F
  at_end v [] = ok v
  at_end v (c ∷ rest) = err (unexpected (c ∷ rest))

  unfoldable pub eval : List ℕ → Result EvalError F
  unfolding parse_expr skip_space
  eval s = parse_expr (enough s) s >>= (λ r. at_end r.0 (skip_space r.1))

  unfoldable pub format_float : F → String
  format_float v = if floats.is_short_whole v then floats.format_int v else floats.format_general v
