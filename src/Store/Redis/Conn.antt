-- ===== src/Store/Redis/Conn.antt =====
-- internal/store/redis/client.go: one command, and one transaction, on a connection; and the pool of
-- connections. What the peer sends is the stream of bytes that are read.
pub mod Exchange
use j_harness.Base.{
  ℕ, zero, suc, ◌+◌, Bool, true, false, Option, none, some, List, [], ◌∷◌, ◌++◌, Result, ok, err,
  if◌then◌else◌, length, ltb,
}
use j_harness.Store.Redis.Wire.{
  Reply, ReplyOf, RepliesOf, simple, failure, bulk, integer, array, nil_bulk, nil_array, Replies,
  no_more, more, WireError, Read, read_reply, write_command,
}
use j_harness.Store.Redis.Wire.Numbers.{Integer, plus, minus, parse_int}

-- What the caller gets: the connection is broken, and is to be closed; or the result of the server with
-- what is left on the connection. `aborted` is a nil reply of EXEC, which closes the connection too.
pub data Answer (A : Type 0) : Type 0 where
  broken : WireError → Answer A
  aborted : Answer A
  answered : Result (List ℕ) A → (rest : List ℕ) → Answer A

unfoldable pub read_one : List ℕ → Read Reply
unfolding read_reply
read_one s = read_reply (suc (length s)) s

abbrev pub judge : Read Reply → Answer Reply
judge (err e) = broken e
judge (ok (failure m, rest)) = answered (err m) rest
judge (ok (r, rest)) = answered (ok r) rest

-- `do`: the bytes that are sent, and the answer
unfoldable pub do_command : List (List ℕ) → List ℕ → List ℕ × Answer Reply
unfolding read_one write_command
do_command args s = (write_command args, judge (read_one s))

-- The first error among the replies of a transaction
unfoldable pub first_failure : Replies → Option (List ℕ)
first_failure no_more = none
first_failure (more (failure m) rs) = some m
first_failure (more _ rs) = first_failure rs

abbrev pub all_good : Replies → Option (List ℕ) → List ℕ → Answer Replies
all_good rs none rest = answered (ok rs) rest
all_good rs (some m) rest = answered (err m) rest

-- The reply of EXEC; one that is no array has no replies in it.
unfoldable pub judge_exec : Read Reply → Answer Replies
unfolding first_failure
judge_exec (err e) = broken e
judge_exec (ok (failure m, rest)) = answered (err m) rest
judge_exec (ok (nil_bulk, rest)) = aborted
judge_exec (ok (nil_array, rest)) = aborted
judge_exec (ok (array rs, rest)) = all_good rs (first_failure rs) rest
judge_exec (ok (_, rest)) = answered (ok no_more) rest

abbrev pub skip_one : Read Reply → (List ℕ → Answer Replies) → Answer Replies
skip_one (err e) go_on = broken e
skip_one (ok (r, rest)) go_on = go_on rest

-- The replies of MULTI and of the queued commands are read and dropped.
unfoldable pub skip_replies : ℕ → List ℕ → Answer Replies
unfolding read_one judge_exec
skip_replies zero s = judge_exec (read_one s)
skip_replies (suc n) s = skip_one (read_one s) (skip_replies n)

unfoldable pub write_all : List (List (List ℕ)) → List ℕ → List ℕ
unfolding write_command
write_all [] rest = rest
write_all (cmd ∷ cmds) rest = write_command cmd ++ write_all cmds rest

-- `doMulti`; the two words are MULTI and EXEC.
unfoldable pub do_multi : List (List (List ℕ)) → List ℕ → List ℕ × Answer Replies
unfolding skip_replies write_all write_command
do_multi [] s = ([], answered (ok no_more) s)
do_multi (cmd ∷ cmds) s = (
  write_command ((b'M' ∷ b'U' ∷ b'L' ∷ b'T' ∷ b'I' ∷ []) ∷ [])
      ++ write_all (cmd ∷ cmds) (write_command ((b'E' ∷ b'X' ∷ b'E' ∷ b'C' ∷ []) ∷ [])),
  skip_replies (suc (length (cmd ∷ cmds))) s,
)

module _ {T : Type 0} (empty : T) where
  -- `reply.strings`: an element that is nil, or is not a text, counts as the empty text.
  abbrev pub text_of : ReplyOf T → T
  text_of (simple t) = t
  text_of (failure t) = t
  text_of (bulk t) = t
  text_of _ = empty

  unfoldable pub texts_of : RepliesOf T → List T
  texts_of no_more = []
  texts_of (more r rs) = text_of r ∷ texts_of rs

  unfoldable pub strings : ReplyOf T → List T
  unfolding texts_of
  strings (array rs) = texts_of rs
  strings (bulk t) = t ∷ []
  strings (simple t) = t ∷ []
  strings _ = []

-- The pool's connections, the one that was put back last in front. `get` takes it, or says to dial.
module _ {A : Type 0} where
  unfoldable pub get : List A → Option A × List A
  get [] = (none, [])
  get (c ∷ conns) = (some c, conns)

  -- `put`, and the connection that is closed in place of it, if the pool is full
  unfoldable pub put : A → List A → List A × Option A
  put c conns = if ltb (length conns) 8 then (c ∷ conns, none) else (conns, some c)
