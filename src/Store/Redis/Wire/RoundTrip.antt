-- ===== src/Store/Redis/Wire/RoundTrip.antt =====
-- internal/store/redis/client.go: what the reader makes of replies that are written as the protocol says.
use j_harness.Base.{
  ℕ, zero, suc, ◌+◌, ◌≤◌, ◌<◌, ◌^◌, Bool, true, not, ◌||◌, List, [], ◌∷◌, ◌++◌, ◌≡◌, refl, ap, ◌∙◌,
  ok, length, length-append, is_digit, nat_eq, All, arith, ltb,
}
use j_harness.Store.Redis.Wire.Numbers.{
  Integer, plus, minus, decimal, All-decimal, parse_int-decimal, parse_int-minus,
}
use j_harness.Store.Redis.Wire.{
  Reply, simple, failure, bulk, integer, array, nil_bulk, nil_array, Replies, no_more, more, crlf,
  trim_return, take_line, read_line, take_bytes, read_bulk, read_items, read_array, read_integer,
  by_kind, read_reply,
}

abbrev pub count : Replies → ℕ
count no_more = 0
count (more r rs) = suc (count rs)

abbrev pub put_integer : Integer → List ℕ → List ℕ
put_integer (plus n) rest = decimal n ++ crlf rest
put_integer (minus n) rest = b'-' ∷ (decimal n ++ crlf rest)

-- A reply as the protocol writes it, in front of what follows on the connection.
unfoldable mutual
  pub put_reply : Reply → List ℕ → List ℕ
  put_reply (simple t) rest = b'+' ∷ (t ++ crlf rest)
  put_reply (failure t) rest = b'-' ∷ (t ++ crlf rest)
  put_reply (integer n) rest = b':' ∷ put_integer n rest
  put_reply (bulk t) rest = b'$' ∷ (decimal (length t) ++ crlf (t ++ crlf rest))
  put_reply nil_bulk rest = b'$' ∷ b'-' ∷ b'1' ∷ crlf rest
  put_reply nil_array rest = b'*' ∷ b'-' ∷ b'1' ∷ crlf rest
  put_reply (array rs) rest = b'*' ∷ (decimal (count rs) ++ crlf (put_replies rs rest))

  pub put_replies : Replies → List ℕ → List ℕ
  put_replies no_more rest = rest
  put_replies (more r rs) rest = put_reply r (put_replies rs rest)

abbrev pub no_break : ℕ → Bool
no_break c = not (nat_eq c 10 || nat_eq c 13)

abbrev pub Fits : Integer → Type 0
Fits (plus n) = n < 2 ^ 63
Fits (minus zero) = Unit {0} × (1 ≤ 0)
Fits (minus (suc n)) = Unit {0} × (suc n < 2 ^ 63)

-- Lines have no line break in them, and numbers fit 64 bits.
unfoldable mutual
  pub IsReply : Reply → Type 0
  IsReply (simple t) = All (λ c. no_break c ≡ true) t
  IsReply (failure t) = All (λ c. no_break c ≡ true) t
  IsReply (integer n) = Fits n
  IsReply (bulk t) = length t + 2 < 2 ^ 63
  IsReply nil_bulk = Unit {0}
  IsReply nil_array = Unit {0}
  IsReply (array rs) = (count rs < 2 ^ 63) × IsReplies rs

  pub IsReplies : Replies → Type 0
  IsReplies no_more = Unit {0}
  IsReplies (more r rs) = IsReply r × IsReplies rs

-- How many arrays a reply has, a bound on how deep they nest.
unfoldable mutual
  pub size : Reply → ℕ
  size (array rs) = suc (sizes rs)
  size _ = 0

  pub sizes : Replies → ℕ
  sizes no_more = 0
  sizes (more r rs) = size r + sizes rs

trim_return-snoc : (t : List ℕ) → trim_return (t ++ 13 ∷ []) ≡ t
unfolding trim_return
trim_return-snoc [] = refl
trim_return-snoc (c ∷ []) = refl
trim_return-snoc (c ∷ d ∷ t) = ap (λ s. c ∷ s) (trim_return-snoc (d ∷ t))

take_line-crlf :
    (t rest : List ℕ)
    → All (λ c. no_break c ≡ true) t
    → take_line (t ++ crlf rest) ≡ ok (t ++ 13 ∷ [], rest)
unfolding take_line
take_line-crlf [] rest h = refl
take_line-crlf (c ∷ t) rest h = ground (arith, h.0, take_line-crlf t rest h.1)

read_line-crlf :
    (t rest : List ℕ) → All (λ c. no_break c ≡ true) t → read_line (t ++ crlf rest) ≡ ok (t, rest)
unfolding read_line
read_line-crlf t rest h = rw (take_line-crlf t rest h) (rw (trim_return-snoc t) refl)

take_bytes-append : (t s : List ℕ) → take_bytes (length t) (t ++ s) ≡ ok (t, s)
unfolding take_bytes
take_bytes-append [] s = refl
take_bytes-append (c ∷ t) s = rw (take_bytes-append t s) refl

digits-no_break : (t : List ℕ) → All (λ c. is_digit c ≡ true) t → All (λ c. no_break c ≡ true) t
digits-no_break [] h = tt
digits-no_break (c ∷ t) h = (ground (arith, h.0), digits-no_break t h.1)

decimal-no_break : (n : ℕ) → All (λ c. no_break c ≡ true) (decimal n)
decimal-no_break n = digits-no_break (decimal n) (All-decimal n)

-- The first line of a reply, with its kind in front.
read-line :
    (fuel kind : ℕ) (t rest : List ℕ)
    → no_break kind ≡ true
    → All (λ c. no_break c ≡ true) t
    → read_reply (suc fuel) (kind ∷ (t ++ crlf rest)) ≡ by_kind (read_reply fuel) (kind ∷ t) rest
unfolding read_reply
read-line fuel kind t rest k h = rw (read_line-crlf (kind ∷ t) rest (k, h)) refl

read-integer :
    (fuel : ℕ) (n : Integer) (rest : List ℕ)
    → Fits n
    → read_reply (suc fuel) (b':' ∷ put_integer n rest) ≡ ok (integer n, rest)
unfolding by_kind read_integer
read-integer fuel (plus n) rest h =
    read-line fuel b':' (decimal n) rest refl (decimal-no_break n) ∙ rw (parse_int-decimal n h) refl
read-integer fuel (minus zero) rest h = absurd (omega (arith, h.1))
read-integer fuel (minus (suc n)) rest h =
    read-line fuel b':' (b'-' ∷ decimal (suc n)) rest refl (refl, decimal-no_break (suc n))
    ∙ rw (parse_int-minus n h.1) refl

read-bulk :
    (fuel : ℕ) (t rest : List ℕ)
    → length t + 2 < 2 ^ 63
    → read_reply (suc fuel) (b'$' ∷ (decimal (length t) ++ crlf (t ++ crlf rest)))
      ≡ ok (bulk t, rest)
unfolding by_kind read_bulk take_bytes
read-bulk fuel t rest h =
    read-line fuel b'$' (decimal (length t)) (t ++ crlf rest) refl (decimal-no_break (length t))
    ∙ rw (parse_int-decimal (length t) (omega (arith, h))) (
        rw (let low : ltb (length t + 2) (2 ^ 63) ≡ true = ground (arith, h) in low)
          (rw (take_bytes-append t (crlf rest)) refl))

mutual
  unfolding put_reply IsReply size by_kind read_bulk read_array read_items

  pub read-reply :
      (r : Reply) (rest : List ℕ) (fuel : ℕ)
      → IsReply r
      → size r ≤ fuel
      → read_reply (suc fuel) (put_reply r rest) ≡ ok (r, rest)
  read-reply (simple t) rest fuel w h = read-line fuel b'+' t rest refl w
  read-reply (failure t) rest fuel w h = read-line fuel b'-' t rest refl w
  read-reply (integer n) rest fuel w h = read-integer fuel n rest w
  read-reply (bulk t) rest fuel w h = read-bulk fuel t rest w
  read-reply nil_bulk rest fuel w h =
      read-line fuel b'$' (b'-' ∷ b'1' ∷ []) rest refl (refl, (refl, tt))
  read-reply nil_array rest fuel w h =
      read-line fuel b'*' (b'-' ∷ b'1' ∷ []) rest refl (refl, (refl, tt))
  read-reply (array rs) rest zero w h = absurd (omega arith)
  read-reply (array rs) rest (suc fuel) w h =
      read-line (suc fuel) b'*' (decimal (count rs)) (put_replies rs rest) refl
        (decimal-no_break (count rs))
      ∙ rw (parse_int-decimal (count rs) w.0)
          (rw (read-replies rs rest fuel w.1 (omega arith)) refl)

  read-replies :
      (rs : Replies) (rest : List ℕ) (fuel : ℕ)
      → IsReplies rs
      → sizes rs ≤ fuel
      → read_items (read_reply (suc fuel)) (count rs) (put_replies rs rest) ≡ ok (rs, rest)
  read-replies no_more rest fuel w h = refl
  read-replies (more r rs) rest fuel w h =
      rw (read-reply r (put_replies rs rest) fuel w.0 (omega arith))
        (rw (read-replies rs rest fuel w.1 (omega arith)) refl)

mutual
  unfolding put_reply size

  pub size-le : (r : Reply) (rest : List ℕ) → size r + length rest ≤ length (put_reply r rest)
  size-le (simple t) rest = omega (arith, length-append t (crlf rest))
  size-le (failure t) rest = omega (arith, length-append t (crlf rest))
  size-le (integer (plus n)) rest = omega (arith, length-append (decimal n) (crlf rest))
  size-le (integer (minus n)) rest = omega (arith, length-append (decimal n) (crlf rest))
  size-le (bulk t) rest = omega (
    arith,
    length-append (decimal (length t)) (crlf (t ++ crlf rest)),
    length-append t (crlf rest),
  )
  size-le nil_bulk rest = omega arith
  size-le nil_array rest = omega arith
  size-le (array rs) rest =
      omega
        (arith, length-append (decimal (count rs)) (crlf (put_replies rs rest)), sizes-le rs rest)

  sizes-le : (rs : Replies) (rest : List ℕ) → sizes rs + length rest ≤ length (put_replies rs rest)
  sizes-le no_more rest = omega arith
  sizes-le (more r rs) rest = omega (arith, size-le r (put_replies rs rest), sizes-le rs rest)

-- The reader's own fuel, one more than there are bytes, is enough.
pub read-put_reply :
    (r : Reply) (rest : List ℕ)
    → IsReply r
    → read_reply (suc (length (put_reply r rest))) (put_reply r rest) ≡ ok (r, rest)
read-put_reply r rest w =
    read-reply r rest (length (put_reply r rest)) w (omega (arith, size-le r rest))
