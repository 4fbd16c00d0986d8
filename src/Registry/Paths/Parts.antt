-- ===== src/Registry/Paths/Parts.antt =====
-- Paths as their parts: how `join_onto` and `split` undo each other.
use Prim.Native.String.{◌++◌ as str_append}
use text.Mathlib.TextEquality.{Char-path}
use text.Mathlib.TextLemmas.{nil-append, cons-append, append-nil, append_assoc}
use j_harness.Base.{
  ℕ, String, Char, code, Bool, true, false, not, ◌||◌, List, [], ◌∷◌, ◌≡◌, ◌≢◌, refl, sym, ap,
  subst, ◌==◌, eq_iff, nat_eq, nat_eq→eq, is_empty, push_char, split, all_chars, has_prefix,
  drop_chars, All, arith, Bool-cases, inl, inr, ◌∙◌,
}
use j_harness.Registry.Paths.{join_onto}

abbrev pub no_slash : ℕ → Bool
no_slash c = not (nat_eq c b'/')

-- A part of a path that leads one level down.
abbrev pub IsName : String → Type 0
IsName x =
    (all_chars no_slash x ≡ true)
    × (is_empty x ≡ false)
    × ((x == ".") ≡ false)
    × ((x == "..") ≡ false)

-- A native text computes at literals only, so these two laws step through the append.
pub has_prefix-append : (s t : String) → has_prefix s t ≡ true → s ≡ str_append t (drop_chars s t)
unfolding has_prefix drop_chars
has_prefix-append s String.[] h = sym (nil-append s)
has_prefix-append String.[] (String.◌∷◌ d t) h = cc
has_prefix-append (String.◌∷◌ c s) (String.◌∷◌ d t) h =
    let e = Char-path c d (nat_eq→eq (code c) (code d) (ground arith)) in
    let rest = has_prefix-append s t (ground arith) in
    ap (λ x. String.◌∷◌ x s) e ∙ ap (String.◌∷◌ d) rest ∙ sym (cons-append d t (drop_chars s t))

pub split-plain : (x : String) → all_chars no_slash x ≡ true → split b'/' x ≡ x ∷ []
unfolding split all_chars
split-plain String.[] h = refl
split-plain (String.◌∷◌ c x) h = ground (arith, split-plain x)

pub split-slash : (t : String) → split b'/' (str_append "/" t) ≡ "" ∷ split b'/' t
unfolding split
split-slash t = rw (cons-append) (rw (nil-append) refl)

pub split-append :
    (x t : String)
    → all_chars no_slash x ≡ true
    → split b'/' (str_append x (str_append "/" t)) ≡ x ∷ split b'/' t
unfolding split all_chars
split-append String.[] t h = rw (nil-append (str_append "/" t)) (split-slash t)
split-append (String.◌∷◌ c x) t h =
    rw (cons-append c x (str_append "/" t)) (ground (arith, split-append x t))

pub push_char-no_slash :
    (c : Char) (words : List String)
    → no_slash (code c) ≡ true
    → All (λ x. all_chars no_slash x ≡ true) words
    → All (λ x. all_chars no_slash x ≡ true) (push_char c words)
unfolding all_chars
push_char-no_slash c [] h v = (ground arith, tt)
push_char-no_slash c (x ∷ xs) h v = (ground (arith, v.0), v.1)

pub split-no_slash : (s : String) → All (λ x. all_chars no_slash x ≡ true) (split b'/' s)
unfolding split all_chars
split-no_slash String.[] = (refl, tt)
split-no_slash (String.◌∷◌ c s) = elim (Bool-cases (nat_eq (code c) b'/')) [
  | inl slash ↦ rw slash (refl, split-no_slash s)
  | inr other ↦ rw other (push_char-no_slash c (split b'/' s) (rw other refl) (split-no_slash s))
]

pub join-slash :
    (x t : String) → is_empty t ≡ false → join_onto t (x ∷ []) ≡ str_append x (str_append "/" t)
unfolding join_onto
join-slash x t h = rw h refl

-- The parts that are walked back to front.
abbrev pub back_onto : List String → List String → List String
back_onto words [] = words
back_onto words (x ∷ xs) = back_onto (x ∷ words) xs

pub append-full : (x t : String) → is_empty x ≡ false → is_empty (str_append x t) ≡ false
append-full String.[] t h = cc
append-full (String.◌∷◌ c x) t h = rw (cons-append c x t) refl

pub split-join_onto :
    (tail : String) (parts : List String)
    → is_empty tail ≡ false
    → All IsName parts
    → split b'/' (join_onto tail parts) ≡ back_onto (split b'/' tail) parts
unfolding join_onto
split-join_onto tail [] full v = refl
split-join_onto tail (x ∷ xs) full v = rw full (
    rw (sym (split-append x tail v.0.0))
      (split-join_onto (str_append x (str_append "/" tail)) xs (append-full x _ v.0.1) v.1))

pub All-back_onto :
    (words parts : List String)
    → All IsName words
    → All IsName parts
    → All IsName (back_onto words parts)
All-back_onto words [] v w = v
All-back_onto words (x ∷ xs) v w = All-back_onto (x ∷ words) xs (w.0, v) w.1

-- A path of names, at least one of them.
pub join-names :
    (x : String) (xs : List String)
    → All IsName (x ∷ xs)
    → All IsName (split b'/' (join_onto "" (x ∷ xs)))
unfolding join_onto
join-names x xs v = rw (append-nil x) (
    rw (split-join_onto x xs v.0.1 v.1)
      (rw (split-plain x v.0.0) (All-back_onto (x ∷ []) xs (v.0, tt) v.1)))

-- What `safeRel` asks of a clean path.
abbrev pub escapes : String → Bool
escapes q = q == ".." || has_prefix q "../"

pub escapes-first :
    (q : String) → escapes q ≡ true → (rest : List String) × (split b'/' q ≡ ".." ∷ rest)
unfolding all_chars
escapes-first q h = elim (Bool-cases (q == "..")) [
  | inl same ↦ ([], ap (split b'/') ((eq_iff q "..").0 same) ∙ split-plain ".." refl)
  | inr other ↦
      let r = drop_chars q "../" in
      let e = has_prefix-append q "../" (ground arith) ∙ append_assoc ".." "/" r in
      (split b'/' r, ap (split b'/') e ∙ split-append ".." r refl)
]

pub names-ne-up : (words rest : List String) → All IsName words → words ≢ ".." ∷ rest
names-ne-up words rest v e = let w : All IsName (".." ∷ rest) = subst (All IsName) e v in cc w.0.3

pub names-stay : (q : String) → All IsName (split b'/' q) → escapes q ≡ false
names-stay q v = elim (Bool-cases (escapes q)) [
  | inr inside ↦ inside
  | inl out ↦ let (rest, e) = escapes-first q out in absurd (names-ne-up (split b'/' q) rest v e)
]
