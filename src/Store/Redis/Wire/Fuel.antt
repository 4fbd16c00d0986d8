-- ===== src/Store/Redis/Wire/Fuel.antt =====
-- internal/store/redis/client.go: the fuel of the reader on any bytes.
use j_harness.Base.{
  ℕ, zero, suc, ◌≤◌, ◌<◌, Bool, true, false, Option, none, some, List, [], ◌∷◌, ◌≡◌, ◌≢◌, refl, ok,
  err, ◌>>=◌, length, nat_eq, Bool-cases, inl, inr, arith, ltb, ◌+◌, ◌^◌,
}
use j_harness.Store.Redis.Wire.Numbers.{Integer, plus, minus, parse_int}
use j_harness.Store.Redis.Wire.{
  Reply, WireError, out_of_fuel, before_line, take_line, read_line, trim_return, take_bytes,
  read_bulk, read_items, read_array, read_integer, by_kind, read_reply, Read,
}

abbrev is_fuel : WireError → Bool
is_fuel out_of_fuel = true
is_fuel _ = false

-- At most `n` bytes are left, or there is an error of the code.
abbrev Left : {A : Type 0} → ℕ → Read A → Type 0
Left n (ok (a, rest)) = length rest ≤ n
Left n (err e) = is_fuel e ≡ false

Left-bind :
    {A B : Type 0} (a b : ℕ) (r : Read A) (go_on : A × List ℕ → Read B)
    → Left a r
    → ((v : A) (rest : List ℕ) → length rest ≤ a → Left b (go_on (v, rest)))
    → Left b (r >>= go_on)
Left-bind a b (ok (v, rest)) go_on h k = k v rest h
Left-bind a b (err e) go_on h k = h

before_line-Left : (n c : ℕ) (r : Read (List ℕ)) → Left n r → Left n (before_line c r)
before_line-Left n c (ok (l, rest)) h = h
before_line-Left n c (err e) h = h

Left-le : {A : Type 0} (a b : ℕ) (r : Read A) → a ≤ b → Left a r → Left b r
Left-le a b (ok (v, rest)) h k = omega arith
Left-le a b (err e) h k = k

-- A line takes at least its line feed.
take_line-Left : (c : ℕ) (s : List ℕ) → Left (length s) (take_line (c ∷ s))
unfolding take_line
take_line-Left c [] = elim (Bool-cases (nat_eq c 10)) [
  | inl feed ↦ rw feed (omega arith)
  | inr other ↦ rw other refl
]
take_line-Left c (d ∷ s) = elim (Bool-cases (nat_eq c 10)) [
  | inl feed ↦ rw feed (omega arith)
  | inr other ↦ rw other (
      before_line-Left (suc (length s)) c (take_line (d ∷ s)) (
        Left-le (length s) (suc (length s)) (take_line (d ∷ s)) (omega arith) (take_line-Left d s)))
]

read_line-Left : (c : ℕ) (s : List ℕ) → Left (length s) (read_line (c ∷ s))
unfolding read_line
read_line-Left c s =
    Left-bind (length s) (length s) (take_line (c ∷ s)) (λ l. ok (trim_return l.0, l.1))
      (take_line-Left c s) (λ v rest h. h)

take_bytes-Left : (n : ℕ) (s : List ℕ) → Left (length s) (take_bytes n s)
unfolding take_bytes
take_bytes-Left zero s = omega arith
take_bytes-Left (suc n) [] = refl
take_bytes-Left (suc n) (c ∷ s) =
    before_line-Left (suc (length s)) c (take_bytes n s)
      (Left-le (length s) (suc (length s)) (take_bytes n s) (omega arith) (take_bytes-Left n s))

read_bulk-Left : (o : Option Integer) (s : List ℕ) → Left (length s) (read_bulk o s)
unfolding read_bulk
read_bulk-Left none s = refl
read_bulk-Left (some (minus n)) s = omega arith
read_bulk-Left (some (plus n)) s = elim (Bool-cases (ltb (n + 2) (2 ^ 63))) [
  | inr large ↦ rw large refl
  | inl small ↦ rw small (
      Left-bind (length s) (length s) (take_bytes n s) _ (take_bytes-Left n s) (λ t rest h.
        Left-bind (length rest) (length s) (take_bytes 2 rest) _ (take_bytes-Left 2 rest)
          (λ u rest' k. omega arith)))
]

read_integer-Left : (o : Option Integer) (s : List ℕ) → Left (length s) (read_integer o s)
unfolding read_integer
read_integer-Left none s = refl
read_integer-Left (some n) s = omega arith

module _ (read : List ℕ → Read Reply) where
  -- The reader of an array's elements is good on texts of at most `n` bytes.
  abbrev GoodTo : ℕ → Type 0
  GoodTo n = (t : List ℕ) → length t ≤ n → Left (length t) (read t)

  read_items-Left :
      (n : ℕ) (s : List ℕ) (bound : ℕ)
      → GoodTo bound
      → length s ≤ bound
      → Left (length s) (read_items read n s)
  unfolding read_items
  read_items-Left zero s bound g h = omega arith
  read_items-Left (suc n) s bound g h =
      Left-bind (length s) (length s) (read s) _ (g s h) (λ r rest k.
        Left-bind (length rest) (length s) (read_items read n rest) _
          (read_items-Left n rest bound g (omega arith)) (λ rs rest' l. omega arith))

  read_array-Left :
      (o : Option Integer) (s : List ℕ) → GoodTo (length s) → Left (length s) (read_array read o s)
  unfolding read_array
  read_array-Left none s g = refl
  read_array-Left (some (minus n)) s g = omega arith
  read_array-Left (some (plus n)) s g =
      Left-bind (length s) (length s) (read_items read n s) _
        (read_items-Left n s (length s) g (omega arith)) (λ rs rest h. h)

  by_kind-Left : (line s : List ℕ) → GoodTo (length s) → Left (length s) (by_kind read line s)
  unfolding by_kind
  by_kind-Left [] s g = refl
  by_kind-Left (kind ∷ body) s g =
      let number = read_integer-Left (parse_int body) s in
      let text = read_bulk-Left (parse_int body) s in
      let items = read_array-Left (parse_int body) s g in ground (arith, number, text, items)

-- One more than there are bytes is enough.
read_reply-Left : (fuel : ℕ) (s : List ℕ) → length s < fuel → Left (length s) (read_reply fuel s)
unfolding read_reply
read_reply-Left zero s h = absurd (omega arith)
read_reply-Left (suc fuel) [] h = refl
read_reply-Left (suc fuel) (c ∷ s) h =
    Left-bind (length s) (suc (length s)) (read_line (c ∷ s))
      (λ l. by_kind (read_reply fuel) l.0 l.1) (read_line-Left c s)
      (λ line rest k.
        Left-le (length rest) (suc (length s)) (by_kind (read_reply fuel) line rest) (omega arith)
          (by_kind-Left (read_reply fuel) line rest (λ t l. read_reply-Left fuel t (omega arith))))

ne-fuel : {A : Type 0} (n : ℕ) (r : Read A) → Left n r → r ≢ err out_of_fuel
ne-fuel n (ok (v, rest)) h k = cc
ne-fuel n (err e) h k = ground (arith, h)

pub read_reply-ne-out_of_fuel : (s : List ℕ) → read_reply (suc (length s)) s ≢ err out_of_fuel
read_reply-ne-out_of_fuel s =
    ne-fuel (length s) (read_reply (suc (length s)) s)
      (read_reply-Left (suc (length s)) s (omega arith))
