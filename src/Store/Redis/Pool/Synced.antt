-- ===== src/Store/Redis/Pool/Synced.antt =====
-- internal/store/redis: the pool keeps connections that are even.
use j_harness.Base.{
  ℕ, zero, suc, ◌≤◌, Option, none, some, List, [], ◌∷◌, ◌≡◌, inl, inr, refl, subst, Result, ok, err,
  length, All, ltb, Bool-cases, Result-cases, ltb→lt, arith,
}
use j_harness.Store.Redis.Wire.Numbers.{Integer, plus, minus, decimal}
use j_harness.Store.Redis.Conn.{Answer, do_command, do_multi, get, put}
use j_harness.Store.Redis.Pool.{
  Login, Conn, opened, CallError, left, greet, auth_failed, select_failed, authenticate, select_db,
  dial, take_conn, put_back, finish, on_conn, cmd, multi,
}
use j_harness.Store.Redis.Pool.Even.{
  InSync, IsEven, asked-IsEven, ran-IsEven, greet-left, opened-IsEven,
}

abbrev pub Usable : List Conn → Type 0
Usable conns = All IsEven conns × (length conns ≤ 8)

greet-IsEven :
    (wrap : CallError → CallError) (args : List (List ℕ)) (c d : Conn)
    → IsEven c
    → greet wrap c (do_command args c.unread) ≡ ok d
    → IsEven d
greet-IsEven wrap args c d even h =
    asked-IsEven args c even d (greet-left wrap c d (do_command args c.unread) h)

authenticate-IsEven :
    (password : List ℕ) (c d : Conn) → IsEven c → authenticate password c ≡ ok d → IsEven d
unfolding authenticate
authenticate-IsEven [] c d w h = subst IsEven (cc h) w
authenticate-IsEven (b ∷ password) c d w h =
    greet-IsEven auth_failed ((b'A' ∷ b'U' ∷ b'T' ∷ b'H' ∷ []) ∷ (b ∷ password) ∷ []) c d w h

select_db-IsEven : (db : Integer) (c d : Conn) → IsEven c → select_db db c ≡ ok d → IsEven d
unfolding select_db
select_db-IsEven (plus zero) c d w h = subst IsEven (cc h) w
select_db-IsEven (plus (suc n)) c d w h =
    greet-IsEven select_failed
      ((b'S' ∷ b'E' ∷ b'L' ∷ b'E' ∷ b'C' ∷ b'T' ∷ []) ∷ decimal (suc n) ∷ []) c d w h
select_db-IsEven (minus n) c d w h =
    greet-IsEven select_failed
      ((b'S' ∷ b'E' ∷ b'L' ∷ b'E' ∷ b'C' ∷ b'T' ∷ []) ∷ (b'-' ∷ decimal n) ∷ []) c d w h

dial-IsEven :
    (login : Login) (dialed : Option (List ℕ)) (c : Conn)
    → ((s : List ℕ) → dialed ≡ some s → InSync s)
    → dial login dialed ≡ ok c
    → IsEven c
unfolding dial
dial-IsEven login none c w h = ground (arith, h)
dial-IsEven login (some s) c w h = elim (Result-cases (authenticate login.password (opened s))) [
  | inl (d, v) ↦
      select_db-IsEven login.db d c
        (authenticate-IsEven login.password (opened s) d (opened-IsEven s (w s refl)) v) (rw v at h)
  | inr (e, v) ↦ ground (arith, rw v at h)
]

put-Usable : (c : Conn) (conns : List Conn) → IsEven c → Usable conns → Usable (put c conns).0
unfolding put
put-Usable c conns w u = elim (Bool-cases (ltb (length conns) 8)) [
  | inl small ↦ rw small ((w, u.0), ltb→lt (length conns) 8 small)
  | inr large ↦ rw large u
]

put_back-Usable :
    (o : Option Conn) (conns : List Conn)
    → ((d : Conn) → o ≡ some d → IsEven d)
    → Usable conns
    → Usable (put_back o conns)
unfolding put_back
put_back-Usable none conns w u = u
put_back-Usable (some c) conns w u = put-Usable c conns (w c refl) u

take_conn-Usable :
    (login : Login) (dialed : Option (List ℕ)) (conns : List Conn)
    → ((s : List ℕ) → dialed ≡ some s → InSync s)
    → Usable conns
    → Usable (take_conn login dialed conns).1
      × ((c : Conn) → (take_conn login dialed conns).0 ≡ ok c → IsEven c)
unfolding take_conn get
take_conn-Usable login dialed [] w u = (u, λ c h. dial-IsEven login dialed c w h)
take_conn-Usable login dialed (s ∷ conns) w u =
    ((u.0.1, omega (arith, u.1)), λ c h. subst IsEven (cc h) u.0.0)

on_conn-Usable :
    {A : Type 0} (ask : List ℕ → List ℕ × Answer A) (r : Result CallError Conn) (conns : List Conn)
    → ((c : Conn) → IsEven c → (d : Conn) → left c (ask c.unread) ≡ some d → IsEven d)
    → Usable conns
    → ((c : Conn) → r ≡ ok c → IsEven c)
    → Usable (on_conn ask (r, conns)).1
unfolding finish put_back
on_conn-Usable ask (err e) conns k u w = u
on_conn-Usable ask (ok c) conns k u w =
    put_back-Usable (left c (ask c.unread)) conns (k c (w c refl)) u

-- A connection is even if whole replies are still to be read on it, up to where no reply can be
-- read any more, and as many replies have been read on it since it was opened as whole commands
-- have been written to it; a pool is usable if it has at most eight connections, all even. Where
-- the dialer gives only streams of whole replies, cmd and multi take a usable pool to a usable
-- pool, whatever the replies are, errors of queued commands included: so the next reply on a pooled
-- connection is the one to the next command. This holds too if other calls change the pool between
-- the taking of a connection and the end of the call, as long as the pool is usable then.
pub calls-Usable :
    (login : Login) (dialed : Option (List ℕ)) (conns others : List Conn) (args : List (List ℕ))
    (cmds : List (List (List ℕ)))
    → ((s : List ℕ) → dialed ≡ some s → InSync s)
    → Usable conns
    → Usable others
    → Usable (cmd login dialed args conns).1
      × Usable (multi login dialed cmds conns).1
      × Usable (take_conn login dialed conns).1
      × ((c : Conn)
          → (take_conn login dialed conns).0 ≡ ok c
          → Usable (finish c (do_command args c.unread) others).1
            × Usable (finish c (do_multi cmds c.unread) others).1)
unfolding cmd multi finish put_back
calls-Usable login dialed conns others args cmds w u v =
    let (kept, taken) = take_conn-Usable login dialed conns w u in
    let r = take_conn login dialed conns in
    (
      on_conn-Usable (do_command args) r.0 r.1 (asked-IsEven args) kept taken,
      on_conn-Usable (do_multi cmds) r.0 r.1 (ran-IsEven cmds) kept taken,
      kept,
      λ c h. (
        put_back-Usable (left c (do_command args c.unread)) others (asked-IsEven args c (taken c h))
            v,
        put_back-Usable (left c (do_multi cmds c.unread)) others (ran-IsEven cmds c (taken c h)) v,
      ),
    )
