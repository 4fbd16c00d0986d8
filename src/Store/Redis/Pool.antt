-- ===== src/Store/Redis/Pool.antt =====
-- internal/store/redis/client.go and redis.go: dialing, and the calls `cmd` and `multi` on the pool of
-- connections. `dialed` is what the dialer gives, none for its failure.
pub mod Even
pub mod Synced
use j_harness.Base.{ℕ, zero, suc, Option, none, some, List, [], ◌∷◌, ◌++◌, Result, ok, err, ◌>>=◌}
use j_harness.Store.Redis.Wire.{Reply, Replies, WireError}
use j_harness.Store.Redis.Wire.Numbers.{Integer, plus, minus, decimal}
use j_harness.Store.Redis.Conn.{Answer, broken, aborted, answered, do_command, do_multi, get, put}

pub record Login : Type 0 where
  pub password : List ℕ
  pub db : Integer

-- A connection: the bytes written to it so far, all that the peer sends on it from the start, and what
-- of that is still to be read.
pub record Conn : Type 0 where
  pub sent : List ℕ
  pub stream : List ℕ
  pub unread : List ℕ

abbrev pub opened : List ℕ → Conn
opened s = record { sent = []; stream = s; unread = s }

-- The connection behind a call that wrote some bytes
abbrev pub moved : Conn → List ℕ → List ℕ → Conn
moved c written rest = record c { sent = c.sent ++ written; unread = rest }

pub data CallError : Type 0 where
  dial_failed transaction_aborted : CallError
  transport : WireError → CallError
  server_error : List ℕ → CallError
  auth_failed select_failed : CallError → CallError

abbrev pub outcome : {A : Type 0} → Answer A → Result CallError A
outcome (broken e) = err (transport e)
outcome aborted = err transaction_aborted
outcome (answered (ok r) rest) = ok r
outcome (answered (err m) rest) = err (server_error m)

-- The connection behind a call, none if it is to be closed
abbrev pub left : {A : Type 0} → Conn → List ℕ × Answer A → Option Conn
left c (written, broken e) = none
left c (written, aborted) = none
left c (written, answered r rest) = some (moved c written rest)

-- While dialing, an error of the server closes the connection too.
abbrev pub greet : (CallError → CallError) → Conn → List ℕ × Answer Reply → Result CallError Conn
greet wrap c (written, broken e) = err (wrap (transport e))
greet wrap c (written, aborted) = err (wrap transaction_aborted)
greet wrap c (written, answered (ok r) rest) = ok (moved c written rest)
greet wrap c (written, answered (err m) rest) = err (wrap (server_error m))

unfoldable pub authenticate : List ℕ → Conn → Result CallError Conn
unfolding do_command
authenticate [] c = ok c
authenticate (b ∷ password) c =
    greet auth_failed c
      (do_command ((b'A' ∷ b'U' ∷ b'T' ∷ b'H' ∷ []) ∷ (b ∷ password) ∷ []) c.unread)

abbrev pub itoa : Integer → List ℕ
itoa (plus n) = decimal n
itoa (minus n) = b'-' ∷ decimal n

unfoldable pub select_db : Integer → Conn → Result CallError Conn
unfolding do_command
select_db (plus zero) c = ok c
select_db db c =
    greet select_failed c
      (do_command ((b'S' ∷ b'E' ∷ b'L' ∷ b'E' ∷ b'C' ∷ b'T' ∷ []) ∷ itoa db ∷ []) c.unread)

unfoldable pub dial : Login → Option (List ℕ) → Result CallError Conn
unfolding authenticate select_db
dial login none = err dial_failed
dial login (some s) = authenticate login.password (opened s) >>= select_db login.db

abbrev pub or_dial : Result CallError Conn → Option Conn → Result CallError Conn
or_dial new none = new
or_dial new (some c) = ok c

-- `pool.get`: a connection, and the pool without it
unfoldable pub take_conn : Login → Option (List ℕ) → List Conn → Result CallError Conn × List Conn
unfolding dial get
take_conn login dialed conns =
    let taken = get conns in (or_dial (dial login dialed) taken.0, taken.1)

unfoldable pub put_back : Option Conn → List Conn → List Conn
unfolding put
put_back none conns = conns
put_back (some c) conns = (put c conns).0

-- The rest of a call, once its answer is there; the pool is the one of that time.
unfoldable pub finish :
    {A : Type 0} → Conn → List ℕ × Answer A → List Conn → Result CallError A × List Conn
unfolding put_back
finish c exchanged conns = (outcome exchanged.1, put_back (left c exchanged) conns)

abbrev pub on_conn :
    {A : Type 0}
    → (List ℕ → List ℕ × Answer A)
    → Result CallError Conn × List Conn
    → Result CallError A × List Conn
unfolding finish
on_conn ask (err e, conns) = (err e, conns)
on_conn ask (ok c, conns) = finish c (ask c.unread) conns

-- `RedisStore.cmd`
unfoldable pub cmd :
    Login → Option (List ℕ) → List (List ℕ) → List Conn → Result CallError Reply × List Conn
unfolding take_conn do_command finish
cmd login dialed args conns = on_conn (do_command args) (take_conn login dialed conns)

-- `RedisStore.multi`
unfoldable pub multi :
    Login
    → Option (List ℕ)
    → List (List (List ℕ))
    → List Conn
    → Result CallError Replies × List Conn
unfolding take_conn do_multi finish
multi login dialed cmds conns = on_conn (do_multi cmds) (take_conn login dialed conns)
