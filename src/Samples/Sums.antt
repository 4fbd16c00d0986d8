-- ===== src/Samples/Sums.antt =====
-- Tests of the built-in tools.
use j_harness.Base.{
  ℕ, ◌+◌, ◌*◌, ◌-◌, ◌/◌, Bool, some, List, [], ◌∷◌, ◌≡◌, ◌≢◌, refl, ok, err, nat_eq,
}
use j_harness.Tools.{bytes, Env, count_words}
use j_harness.Tools.Eval.Grammar.{
  Sum, only, plus, single, times, number, group, put_sum, sum_value, IsSum,
}
use j_harness.Tools.Eval.Reads.{eval-put_sum}
use j_harness.Tools.Eval.Fuel.{eval-ne-out_of_fuel}
use j_harness.Tools.Eval.{Floats, eval, missing_paren, division_by_zero, out_of_fuel}

abbrev digits : ℕ → List ℕ → ℕ
digits n [] = n
digits n (c ∷ s) = digits (n * 10 + (c - 48)) s

-- Naturals in the place of float64.
abbrev floats : Floats ℕ
floats = record {
  add = λ a b. a + b;
  sub = λ a b. a - b;
  mul = λ a b. a * b;
  quot = λ a b. a / b;
  neg = λ a. 0 - a;
  is_zero = λ a. nat_eq a 0;
  parse_float = λ s. some (digits 0 s);
  is_short_whole = λ a. Bool.true;
  format_int = λ a. "";
  format_general = λ a. "";
}

eval-precedence : eval floats (bytes " 2 + 3*(7 - 1) - 8/2/2") ≡ ok 18
unfolding eval bytes
eval-precedence = refl

eval-open : eval floats (bytes "(1 + 2") ≡ err missing_paren
unfolding eval bytes
eval-open = refl

eval-zero : eval floats (bytes "1/(2-2)") ≡ err division_by_zero
unfolding eval bytes
eval-zero = refl

-- ` 2+3 *(7)`
abbrev tree : Sum
tree = plus (only (single (number (b' ' ∷ []) (b'2' ∷ [])))) [] (
    times (single (number [] (b'3' ∷ []))) (b' ' ∷ [])
      (group [] (only (single (number [] (b'7' ∷ [])))) []))

tree-IsSum : IsSum tree
unfolding IsSum
tree-IsSum = (
  ((refl, tt), (λ e. cc), (refl, tt)),
  tt,
  ((tt, (λ e. cc), (refl, tt)), (refl, tt), (tt, (tt, (λ e. cc), (refl, tt)), tt)),
)

tree-text : put_sum tree (b' ' ∷ []) ≡ bytes " 2+3 *(7) "
unfolding put_sum bytes
tree-text = refl

eval-put_sum_example : eval floats (put_sum tree (b' ' ∷ [])) ≡ sum_value floats tree
eval-put_sum_example = eval-put_sum floats tree (b' ' ∷ []) tree-IsSum (refl, tt)

eval-ne-out_of_fuel_example : eval floats (bytes "((1 +") ≢ err out_of_fuel
eval-ne-out_of_fuel_example = eval-ne-out_of_fuel floats (bytes "((1 +")

abbrev env : Env ℕ ℕ
env = record {
  floats = floats;
  now = λ w. "noon";
  text_field = λ name s. some s;
  decimal = λ n. "3";
  decode_error = λ s. "bad";
  eval_error = λ e. "bad";
}

count_words-example : count_words Bool.false " one  two three " ≡ 3
unfolding count_words
count_words-example = refl
