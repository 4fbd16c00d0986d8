-- ===== src/Store/Redis/Wire.antt =====
-- internal/store/redis/client.go: commands and replies on the wire. A connection is the bytes that are
-- still to be read from it; its end stands for each failure of the transport.
pub mod Numbers
pub mod RoundTrip
pub mod Fuel
use j_harness.Base.{
  ℕ, zero, suc, ◌+◌, ◌-◌, ◌*◌, ◌^◌, Bool, true, false, ◌&&◌, Option, none, some, List, [], ◌∷◌,
  ◌++◌, Result, ok, err, ◌>>=◌, if◌then◌else◌, length, is_digit, leb, ltb, nat_eq,
}
use j_harness.Store.Redis.Wire.Numbers.{Integer, plus, minus, parse_int, decimal}

-- `reply`, over the type of its texts: the nil replies are those of a negative length.
mutual
  pub data ReplyOf (T : Type 0) : Type 0 where
    simple failure bulk : T → ReplyOf T
    integer : Integer → ReplyOf T
    array : RepliesOf T → ReplyOf T
    nil_bulk nil_array : ReplyOf T

  pub data RepliesOf (T : Type 0) : Type 0 where
    no_more : RepliesOf T
    more : ReplyOf T → RepliesOf T → RepliesOf T

-- As they are read, with bytes for texts
abbrev pub Reply : Type 0
Reply = ReplyOf (List ℕ)

abbrev pub Replies : Type 0
Replies = RepliesOf (List ℕ)

pub data WireError : Type 0 where
  end_of_stream empty_line bad_integer bad_bulk_length bad_array_length unexpected_type : WireError
  make_panics out_of_fuel : WireError

-- Carriage return and line feed
abbrev pub crlf : List ℕ → List ℕ
crlf rest = 13 ∷ 10 ∷ rest

-- `strings.TrimSuffix(line, "\r")`
unfoldable pub trim_return : List ℕ → List ℕ
trim_return [] = []
trim_return (c ∷ []) = if nat_eq c 13 then [] else c ∷ []
trim_return (c ∷ d ∷ s) = c ∷ trim_return (d ∷ s)

abbrev pub before_line : ℕ → Result WireError (List ℕ × List ℕ) → Result WireError (List ℕ × List ℕ)
before_line c (ok (line, rest)) = ok (c ∷ line, rest)
before_line c (err e) = err e

-- `br.ReadString('\n')`, without the line feed
unfoldable pub take_line : List ℕ → Result WireError (List ℕ × List ℕ)
take_line [] = err end_of_stream
take_line (c ∷ s) = let tail = take_line s in if nat_eq c 10 then ok ([], s) else before_line c tail

unfoldable pub read_line : List ℕ → Result WireError (List ℕ × List ℕ)
unfolding take_line trim_return
read_line s = take_line s >>= (λ l. ok (trim_return l.0, l.1))

-- `io.ReadFull` of a number of bytes
unfoldable pub take_bytes : ℕ → List ℕ → Result WireError (List ℕ × List ℕ)
take_bytes zero s = ok ([], s)
take_bytes (suc n) [] = err end_of_stream
take_bytes (suc n) (c ∷ s) = before_line c (take_bytes n s)

abbrev pub Read : Type 0 → Type 0
Read A = Result WireError (A × List ℕ)

-- `$`: the two bytes behind the text are not looked at. Where n + 2 wraps to a negative number, `make`
-- panics.
unfoldable pub read_bulk : Option Integer → List ℕ → Read Reply
unfolding take_bytes
read_bulk none s = err bad_bulk_length
read_bulk (some (minus n)) s = ok (nil_bulk, s)
read_bulk (some (plus n)) s =
    let text = take_bytes n s >>= (λ t. take_bytes 2 t.1 >>= (λ u. ok (bulk t.0, u.1))) in
    if ltb (n + 2) (2 ^ 63) then text else err make_panics

unfoldable pub read_items : (List ℕ → Read Reply) → ℕ → List ℕ → Read Replies
read_items read zero s = ok (no_more, s)
read_items read (suc n) s =
    read s >>= (λ r. read_items read n r.1 >>= (λ rs. ok (more r.0 rs.0, rs.1)))

unfoldable pub read_array : (List ℕ → Read Reply) → Option Integer → List ℕ → Read Reply
unfolding read_items
read_array read none s = err bad_array_length
read_array read (some (minus n)) s = ok (nil_array, s)
read_array read (some (plus n)) s = read_items read n s >>= (λ rs. ok (array rs.0, rs.1))

unfoldable pub read_integer : Option Integer → List ℕ → Read Reply
read_integer none s = err bad_integer
read_integer (some n) s = ok (integer n, s)

-- The switch over the first byte of the line
unfoldable pub by_kind : (List ℕ → Read Reply) → List ℕ → List ℕ → Read Reply
unfolding read_bulk read_array read_integer parse_int
by_kind read [] s = err empty_line
by_kind read (kind ∷ body) s =
    if nat_eq kind b'+'
    then ok (simple body, s)
    else if nat_eq kind b'-'
    then ok (failure body, s)
    else if nat_eq kind b':'
    then read_integer (parse_int body) s
    else if nat_eq kind b'$'
    then read_bulk (parse_int body) s
    else if nat_eq kind b'*'
    then read_array read (parse_int body) s
    else err unexpected_type

-- `readReply`; the fuel bounds how deep arrays nest.
unfoldable pub read_reply : ℕ → List ℕ → Read Reply
unfolding read_line by_kind
read_reply zero s = err out_of_fuel
read_reply (suc fuel) s = read_line s >>= (λ l. by_kind (read_reply fuel) l.0 l.1)

-- `writeCommand`
unfoldable pub write_args : List (List ℕ) → List ℕ
unfolding decimal
write_args [] = []
write_args (a ∷ args) = b'$' ∷ (decimal (length a) ++ crlf (a ++ crlf (write_args args)))

unfoldable pub write_command : List (List ℕ) → List ℕ
unfolding decimal write_args
write_command args = b'*' ∷ (decimal (length args) ++ crlf (write_args args))
