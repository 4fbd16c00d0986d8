-- ===== src/Samples/Wires.antt =====
-- Tests of the protocol of the Redis store.
use j_harness.Base.{ℕ, ◌≡◌, ◌≢◌, refl, List, [], ◌∷◌, ok, err, arith, some, subst}
use j_harness.Tools.{bytes}
use j_harness.Store.Redis.Wire.{
  Reply, simple, failure, integer, array, nil_bulk, no_more, more, write_command, read_reply,
  out_of_fuel, end_of_stream, bad_bulk_length, make_panics,
}
use j_harness.Store.Redis.Wire.Numbers.{plus, minus}
use j_harness.Store.Redis.Wire.RoundTrip.{put_reply, IsReply}
use j_harness.Store.Redis.Conn.{
  do_command, do_multi, read_one, get, put, judge, judge_exec, answered, broken, write_all,
}
use j_harness.Store.Redis.Conn.Exchange.{bulks, put_all, exchange}
use j_harness.Store.Redis.Pool.{
  Login, cmd, multi, take_conn, finish, dial, authenticate, select_db, auth_failed, server_error,
  Conn, put_back,
}
use j_harness.Store.Redis.Pool.Even.{InSync}
use j_harness.Store.Redis.Pool.Synced.{Usable, calls-Usable}

write_command-ping : write_command (bytes "PING" ∷ []) ≡ bytes "*1\r\n$4\r\nPING\r\n"
unfolding write_command bytes
write_command-ping = refl

read_reply-nested :
    read_reply 9 (bytes "*2\r\n:-12\r\n*1\r\n$-1\r\nrest")
    ≡ ok (
      array (more (integer (minus 12)) (more (array (more nil_bulk no_more)) no_more)),
      bytes "rest",
    )
unfolding read_reply bytes
read_reply-nested = refl

read_reply-short : read_reply 9 (bytes "$5\r\nabc") ≡ err end_of_stream
unfolding read_reply bytes
read_reply-short = refl

read_reply-length : read_reply 9 (bytes "$x\r\nabc") ≡ err bad_bulk_length
unfolding read_reply bytes
read_reply-length = refl

abbrev ok_line : Reply
ok_line = simple (b'O' ∷ b'K' ∷ [])

abbrev results : Reply
results = array (more (integer (plus 1)) (more (failure (b'E' ∷ [])) no_more))

abbrev ping : List (List ℕ)
ping = (b'P' ∷ []) ∷ []

results-IsReply : IsReply results
unfolding IsReply
results-IsReply = (omega arith, (omega arith, ((refl, tt), tt)))

ok-IsReply : IsReply ok_line
unfolding IsReply
ok-IsReply = (refl, (refl, tt))

judge_exec-failure : judge_exec (ok (results, [])) ≡ answered (err (b'E' ∷ [])) []
unfolding judge_exec
judge_exec-failure = refl

exchange_example :
    (do_command ping (put_reply results [])
      ≡ (put_reply (array (bulks ping)) [], judge (ok (results, []))))
    × ((do_multi (ping ∷ []) (put_all (ok_line ∷ ok_line ∷ []) (put_reply results []))).1
        ≡ judge_exec (ok (results, [])))
    × ((do_command ping (bytes "*9")).1 ≢ broken out_of_fuel)
    × ((do_multi (ping ∷ []) (bytes "*9")).1 ≢ broken out_of_fuel)
exchange_example =
    exchange ping ping [] (ok_line ∷ ok_line ∷ []) results [] (bytes "*9")
      (ok-IsReply, (ok-IsReply, tt)) results-IsReply refl

abbrev login : Login
login = record { password = b'p' ∷ []; db = plus 2 }

abbrev auth : List (List ℕ)
auth = (b'A' ∷ b'U' ∷ b'T' ∷ b'H' ∷ []) ∷ (b'p' ∷ []) ∷ []

abbrev select : List (List ℕ)
select = (b'S' ∷ b'E' ∷ b'L' ∷ b'E' ∷ b'C' ∷ b'T' ∷ []) ∷ (b'2' ∷ []) ∷ []

-- The replies to AUTH, to SELECT, and to two commands
abbrev replies : List ℕ
replies = put_all (ok_line ∷ ok_line ∷ ok_line ∷ ok_line ∷ []) []

cmd-dials : cmd login (some replies) ping [] ≡ (
  ok ok_line,
  record {
    sent = write_all (auth ∷ select ∷ ping ∷ []) [];
    stream = replies;
    unread = put_all (ok_line ∷ []) [];
  }
      ∷ [],
)
unfolding cmd take_conn dial authenticate select_db do_command read_one read_reply get put finish
    put_all put_reply write_all write_command put_back
cmd-dials = refl

cmd-refused :
    cmd login (some (put_all (failure (b'E' ∷ []) ∷ []) [])) ping []
    ≡ (err (auth_failed (server_error (b'E' ∷ []))), [])
unfolding cmd take_conn dial authenticate select_db do_command read_one read_reply get put finish
    put_all put_reply write_all write_command put_back
cmd-refused = refl

replies-InSync : (s : List ℕ) → some replies ≡ some s → InSync s
unfolding read_one read_reply
replies-InSync s h =
    let w = ok-IsReply in
    subst InSync (cc h) (
      ok_line ∷ ok_line ∷ ok_line ∷ ok_line ∷ [],
      [],
      end_of_stream,
      (w, (w, (w, (w, tt)))),
      refl,
      refl,
    )

calls-Usable_example :
    Usable (cmd login (some replies) ping []).1
    × Usable (multi login (some replies) (ping ∷ []) []).1
    × Usable (take_conn login (some replies) []).1
    × ((c : Conn)
        → (take_conn login (some replies) []).0 ≡ ok c
        → Usable (finish c (do_command ping c.unread) []).1
          × Usable (finish c (do_multi (ping ∷ []) c.unread) []).1)
calls-Usable_example =
    calls-Usable login (some replies) [] [] ping (ping ∷ []) replies-InSync (tt, omega arith)
      (tt, omega arith)

-- A length of 2 ^ 63 - 2
read_reply-panics : read_reply 9 (bytes "$9223372036854775806\r\n") ≡ err make_panics
unfolding read_reply bytes
read_reply-panics = refl
