-- ===== src/Registry/Paths/Inside.antt =====
-- Where the paths lead that `safeRel` accepts.
use Prim.Native.String.{◌++◌ as str_append}
use text.Mathlib.TextLemmas.{cons-append, append_assoc}
use j_harness.Base.{
  ℕ, suc, ◌-◌, String, Bool, true, false, not, ◌&&◌, ◌||◌, List, [], ◌∷◌, ◌≡◌, refl, sym, subst, ok,
  err, ◌==◌, eq_iff, nat_eq, if◌then◌else◌, is_empty, split, all_chars, has_prefix, All, length,
  arith, Bool-cases, inl, inr, ◌⊎◌,
}
use j_harness.Registry.Paths.{
  safe_rel, absolute_path, escapes_root, is_abs, go_up, put_part, before_slash, clean_parts,
  join_onto, clean,
}
use j_harness.Registry.Paths.Parts.{
  no_slash, IsName, split-no_slash, join-names, escapes, names-stay,
}

-- A walk along the parts of a path, from a depth below the root, never leaves the root.
unfoldable pub stays : ℕ → List String → Bool
stays depth [] = true
stays depth (x ∷ xs) =
    let level = stays depth xs in
    let up = stays (depth - 1) xs in
    let down = stays (suc depth) xs in
    if is_empty x || x == "." then level else if x == ".." then not (nat_eq depth 0) && up else down

-- The parts end with a `..`, which is the first of the path.
abbrev bottom_up : List String → Bool
bottom_up [] = false
bottom_up (x ∷ []) = x == ".."
bottom_up (x ∷ y ∷ xs) = bottom_up (y ∷ xs)

empty-eq : (s : String) → is_empty s ≡ true → s ≡ ""
empty-eq String.[] h = refl
empty-eq (String.◌∷◌ c s) h = cc

append-has_prefix : (t s : String) → has_prefix (str_append t s) t ≡ true
unfolding has_prefix
append-has_prefix String.[] s = refl
append-has_prefix (String.◌∷◌ c t) s =
    rw (cons-append c t s) (ground (arith, append-has_prefix t s))

has_prefix-up : (t : String) → escapes (str_append "../" t) ≡ true
has_prefix-up t = ground (arith, append-has_prefix "../" t)

join-bottom_up :
    (tail : String) (parts : List String)
    → bottom_up parts ≡ true
    → escapes (join_onto tail parts) ≡ true
unfolding join_onto has_prefix
join-bottom_up tail [] h = cc
join-bottom_up tail (x ∷ []) h = rw ((eq_iff x "..").0 h) (elim (Bool-cases (is_empty tail)) [
  | inl last ↦ rw last (rw (empty-eq tail last) refl)
  | inr more ↦ rw more (rw (sym (append_assoc ".." "/" tail)) (has_prefix-up tail))
])
join-bottom_up tail (x ∷ y ∷ xs) h = join-bottom_up (str_append x (before_slash tail)) (y ∷ xs) h

go_up-bottom_up : (parts : List String) → bottom_up parts ≡ true → bottom_up (go_up parts) ≡ true
go_up-bottom_up [] h = cc
go_up-bottom_up (x ∷ []) h = ground arith
go_up-bottom_up (x ∷ y ∷ xs) h = ground arith

push-bottom_up :
    (x : String) (parts : List String) → bottom_up parts ≡ true → bottom_up (x ∷ parts) ≡ true
push-bottom_up x [] h = cc
push-bottom_up x (y ∷ xs) h = h

clean-bottom_up :
    (parts xs : List String) → bottom_up parts ≡ true → bottom_up (clean_parts parts xs) ≡ true
unfolding clean_parts
clean-bottom_up parts [] h = h
clean-bottom_up parts (x ∷ xs) h =
    clean-bottom_up (put_part x parts) xs
      (ground (arith, go_up-bottom_up parts h, push-bottom_up x parts h))

-- A walk that stays below the root ends in names, and another one in a path that starts with `..`.
abbrev Ends : Bool → List String → Type 0
Ends inside parts = if inside then All IsName parts else (bottom_up parts ≡ true)

up-Ends :
    (parts xs : List String)
    → All IsName parts
    → ((ps : List String) → All IsName ps → Ends (stays (length ps) xs) (clean_parts ps xs))
    → Ends
        (not (nat_eq (length parts) 0) && stays (length parts - 1) xs)
        (clean_parts (go_up parts) xs)
up-Ends [] xs v ih = clean-bottom_up (".." ∷ []) xs refl
up-Ends (p ∷ ps) xs v ih =
    let some_part : nat_eq (suc (length ps)) 0 ≡ false = ground arith in
    let rest : suc (length ps) - 1 ≡ length ps = omega arith in
    rw v.0.3 (rw some_part (rw rest (ih ps v.1)))

clean_parts-Ends :
    (parts xs : List String)
    → All IsName parts
    → All (λ x. all_chars no_slash x ≡ true) xs
    → Ends (stays (length parts) xs) (clean_parts parts xs)
unfolding clean_parts stays
clean_parts-Ends parts [] v w = v
clean_parts-Ends parts (x ∷ xs) v w = elim (Bool-cases (is_empty x || x == ".")) [
  | inl skip ↦ rw skip (clean_parts-Ends parts xs v w.1)
  | inr part ↦ rw part (elim (Bool-cases (x == "..")) [
    | inl up ↦ rw up (up-Ends parts xs v (λ ps k. clean_parts-Ends ps xs k w.1))
    | inr name ↦
        rw name (clean_parts-Ends (x ∷ parts) xs ((w.0, ground arith, ground arith, name), v) w.1)
  ])
]

-- A path that leads to the root itself, or down from it by names.
abbrev pub IsInside : String → Type 0
IsInside q = (q ≡ ".") ⊎ All IsName (split b'/' q)

clean-Ends : (p : String) → Ends (stays 0 (split b'/' p)) (clean_parts [] (split b'/' p))
clean-Ends p = clean_parts-Ends [] (split b'/' p) tt (split-no_slash p)

if_empty-IsInside :
    (parts : List String)
    → All IsName parts
    → IsInside (if is_empty (join_onto "" parts) then "." else join_onto "" parts)
unfolding join_onto
if_empty-IsInside [] v = inl refl
if_empty-IsInside (x ∷ xs) v = elim (Bool-cases (is_empty (join_onto "" (x ∷ xs)))) [
  | inl none ↦ rw none (inl refl)
  | inr some ↦ rw some (inr (join-names x xs v))
]

IsInside-stays : (q : String) → IsInside q → escapes q ≡ false
unfolding has_prefix
IsInside-stays q (inl e) = rw e refl
IsInside-stays q (inr v) = names-stay q v

clean-IsInside : (p : String) → stays 0 (split b'/' p) ≡ true → IsInside (clean p)
unfolding clean
clean-IsInside p h = if_empty-IsInside (clean_parts [] (split b'/' p)) (rw h at (clean-Ends p))

escapes-full : (q : String) → escapes q ≡ true → is_empty q ≡ false
unfolding has_prefix
escapes-full String.[] h = cc
escapes-full (String.◌∷◌ c q) h = refl

clean-escapes : (p : String) → stays 0 (split b'/' p) ≡ false → escapes (clean p) ≡ true
unfolding clean
clean-escapes p h =
    let out = join-bottom_up "" (clean_parts [] (split b'/' p)) (rw h at (clean-Ends p)) in
    rw (escapes-full (join_onto "" (clean_parts [] (split b'/' p))) out) out

-- safeRel, which judges the text of the cleaned path, refuses a path exactly when it is absolute or
-- when a walk along its parts, which counts the levels below the root, goes above the root at some
-- point; otherwise it returns the cleaned path.
pub safe_rel-stays :
    (p : String)
    → safe_rel p ≡ (
        if is_abs p
        then err absolute_path
        else if stays 0 (split b'/' p)
        then ok (clean p)
        else err escapes_root)
unfolding safe_rel
safe_rel-stays p = elim (Bool-cases (stays 0 (split b'/' p))) [
  | inl inside ↦ rw inside (rw (IsInside-stays (clean p) (clean-IsInside p inside)) refl)
  | inr out ↦ rw out (rw (clean-escapes p out) refl)
]

pub safe_rel-IsInside : (p q : String) → safe_rel p ≡ ok q → IsInside q
safe_rel-IsInside p q h = elim (Bool-cases (is_abs p)) [
  | inl abs ↦ cc (rw (safe_rel-stays p, abs) at h)
  | inr rel ↦ elim (Bool-cases (stays 0 (split b'/' p))) [
    | inl inside ↦
        let e : clean p ≡ q = cc (rw (safe_rel-stays p, rel, inside) at h) in
        subst IsInside e (clean-IsInside p inside)
    | inr out ↦ cc (rw (safe_rel-stays p, rel, out) at h)
  ]
]
