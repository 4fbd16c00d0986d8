-- ===== src/Store/Redis/Wire/Numbers.antt =====
-- Go's strconv on the numbers of the protocol: `Itoa`, and `ParseInt` and `Atoi` in 64 bits.
use j_harness.Base.{
  ℕ, zero, suc, ◌+◌, ◌-◌, ◌*◌, ◌/◌, ◌%◌, ◌^◌, ◌≤◌, ◌<◌, true, Option, none, some, List, [], ◌∷◌,
  ◌≡◌, refl, sym, ap, ◌∙◌, if◌then◌else◌, is_digit, ltb, nat_eq, All, arith, Bool-cases, inl, inr,
  ltb→lt, ltb→le,
}

pub data Integer : Type 0 where
  plus minus : ℕ → Integer

-- The value of digits behind a number, none for another byte
unfoldable pub digits_onto : ℕ → List ℕ → Option ℕ
digits_onto n [] = some n
digits_onto n (c ∷ s) =
    let rest = digits_onto (n * 10 + (c - b'0')) s in if is_digit c then rest else none

unfoldable pub digits_value : List ℕ → Option ℕ
unfolding digits_onto
digits_value [] = none
digits_value (c ∷ s) = digits_onto 0 (c ∷ s)

abbrev pub in_range : ℕ → (ℕ → Integer) → Option ℕ → Option Integer
in_range limit sign none = none
in_range limit sign (some n) = if ltb n limit then some (sign n) else none

-- A negative zero is zero.
abbrev pub negated : ℕ → Integer
negated zero = plus 0
negated (suc n) = minus (suc n)

unfoldable pub parse_int : List ℕ → Option Integer
unfolding digits_value
parse_int [] = none
parse_int (c ∷ s) =
    if nat_eq c b'-'
    then in_range (suc (2 ^ 63)) negated (digits_value s)
    else if nat_eq c b'+'
    then in_range (2 ^ 63) plus (digits_value s)
    else in_range (2 ^ 63) plus (digits_value (c ∷ s))

-- The digits in front of others; the fuel is the number itself, which is more than it has digits.
unfoldable pub decimal_onto : ℕ → ℕ → List ℕ → List ℕ
decimal_onto zero n rest = (b'0' + n % 10) ∷ rest
decimal_onto (suc fuel) n rest =
    let more = decimal_onto fuel (n / 10) ((b'0' + n % 10) ∷ rest) in
    if ltb n 10 then (b'0' + n % 10) ∷ rest else more

unfoldable pub decimal : ℕ → List ℕ
unfolding decimal_onto
decimal n = decimal_onto n n []

digits_onto-digit :
    (m n : ℕ) (rest : List ℕ)
    → digits_onto m ((b'0' + n % 10) ∷ rest) ≡ digits_onto (m * 10 + n % 10) rest
unfolding digits_onto
digits_onto-digit m n rest =
    let digit : is_digit (b'0' + n % 10) ≡ true = ground arith in
    let same : b'0' + n % 10 - b'0' ≡ n % 10 = omega arith in rw digit (rw same refl)

digits_onto-decimal :
    (fuel n : ℕ) (rest : List ℕ)
    → n ≤ fuel
    → digits_onto 0 (decimal_onto fuel n rest) ≡ digits_onto n rest
unfolding decimal_onto
digits_onto-decimal zero n rest h =
    digits_onto-digit 0 n rest ∙ ap (λ t. digits_onto t rest) (omega arith)
digits_onto-decimal (suc fuel) n rest h = elim (Bool-cases (ltb n 10)) [
  | inl small ↦
      let below = ltb→lt n 10 small in
      rw small (digits_onto-digit 0 n rest ∙ ap (λ t. digits_onto t rest) (omega arith))
  | inr large ↦
      let above = ltb→le n 10 large in
      rw large (
        digits_onto-decimal fuel (n / 10) ((b'0' + n % 10) ∷ rest) (omega arith)
        ∙ digits_onto-digit (n / 10) n rest
        ∙ ap (λ t. digits_onto t rest) (omega arith))
]

-- What `decimal` writes are digits in front of the rest, at least one of them.
pub decimal_onto-digits :
    (fuel n : ℕ) (rest : List ℕ)
    → (c : ℕ) × (s : List ℕ) × (decimal_onto fuel n rest ≡ c ∷ s) × (is_digit c ≡ true)
unfolding decimal_onto
decimal_onto-digits zero n rest = (b'0' + n % 10, rest, refl, ground arith)
decimal_onto-digits (suc fuel) n rest = elim (Bool-cases (ltb n 10)) [
  | inl small ↦ rw small (b'0' + n % 10, rest, refl, ground arith)
  | inr large ↦ rw large (decimal_onto-digits fuel (n / 10) ((b'0' + n % 10) ∷ rest))
]

All-digits :
    (fuel n : ℕ) (rest : List ℕ)
    → All (λ c. is_digit c ≡ true) rest
    → All (λ c. is_digit c ≡ true) (decimal_onto fuel n rest)
unfolding decimal_onto
All-digits zero n rest h = (ground arith, h)
All-digits (suc fuel) n rest h = elim (Bool-cases (ltb n 10)) [
  | inl small ↦ rw small (ground arith, h)
  | inr large ↦ rw large (All-digits fuel (n / 10) ((b'0' + n % 10) ∷ rest) (ground arith, h))
]

pub All-decimal : (n : ℕ) → All (λ c. is_digit c ≡ true) (decimal n)
unfolding decimal
All-decimal n = All-digits n n [] tt

parse_int-digits :
    (c : ℕ) (s : List ℕ) (n : ℕ)
    → is_digit c ≡ true
    → digits_onto 0 (c ∷ s) ≡ some n
    → n < 2 ^ 63
    → parse_int (c ∷ s) ≡ some (plus n)
unfolding parse_int digits_value
parse_int-digits c s n digit v h = ground (arith, digit, v)

pub parse_int-decimal : (n : ℕ) → n < 2 ^ 63 → parse_int (decimal n) ≡ some (plus n)
unfolding decimal digits_onto
parse_int-decimal n h =
    let (c, s, e, digit) = decimal_onto-digits n n [] in
    let v : digits_onto 0 (decimal_onto n n []) ≡ some n =
      digits_onto-decimal n n [] (omega arith) in
    ap parse_int e ∙ parse_int-digits c s n digit (ap (digits_onto 0) (sym e) ∙ v) h

digits_value-decimal : (n : ℕ) → digits_value (decimal n) ≡ some n
unfolding decimal digits_value digits_onto
digits_value-decimal n =
    let (c, s, e, digit) = decimal_onto-digits n n [] in
    let v : digits_onto 0 (decimal_onto n n []) ≡ some n =
      digits_onto-decimal n n [] (omega arith) in
    ap digits_value e ∙ ap (digits_onto 0) (sym e) ∙ v

-- A minus sign in front of a number that is not zero.
pub parse_int-minus :
    (n : ℕ) → suc n < 2 ^ 63 → parse_int (b'-' ∷ decimal (suc n)) ≡ some (minus (suc n))
unfolding parse_int
parse_int-minus n h = rw (digits_value-decimal (suc n)) (ground arith)
