-- ===== src/Store/Redis/Pool/Even.antt =====
-- internal/store/redis: on each connection in the pool, the replies that were read are as many as the
-- commands that were written.
use mathlib.Core.List.{append-nil, append_assoc}
use j_harness.Base.{
  ℕ, zero, suc, ◌+◌, Option, none, some, List, [], ◌∷◌, ◌++◌, ◌≡◌, ◌⊎◌, inl, inr, refl, sym, subst,
  ap, ◌∙◌, ok, err, length, length-append, All, arith,
}
use j_harness.Store.Redis.Wire.{Reply, WireError, write_command}
use j_harness.Store.Redis.Wire.RoundTrip.{put_reply, IsReply, read-put_reply}
use j_harness.Store.Redis.Conn.{
  Answer, answered, broken, aborted, read_one, judge, do_command, judge_exec, skip_replies,
  write_all, do_multi,
}
use j_harness.Store.Redis.Conn.Exchange.{put_all}
use j_harness.Store.Redis.Pool.{Conn, opened, moved, CallError, left, greet}

-- Whole replies, and then bytes that no reply can be read from, as where the connection was cut.
abbrev pub InSync : List ℕ → Type 0
InSync s =
    (replies : List Reply) × (tail : List ℕ) × (e : WireError) × All IsReply replies
    × (read_one tail ≡ err e)
    × (s ≡ put_all replies tail)

-- Between two places of a stream there are that many replies.
abbrev pub Replied : ℕ → List ℕ → List ℕ → Type 0
Replied n s rest =
    (replies : List Reply) × All IsReply replies × (length replies ≡ n) × (s ≡ put_all replies rest)

-- The bytes are that many commands.
abbrev pub Sent : ℕ → List ℕ → Type 0
Sent n written = (cmds : List (List (List ℕ))) × (length cmds ≡ n) × (written ≡ write_all cmds [])

-- As many replies were read as commands were written, so the next reply answers the next command.
abbrev pub IsEven : Conn → Type 0
IsEven c = InSync c.unread × ((n : ℕ) × Sent n c.sent × Replied n c.stream c.unread)

-- What an answer leaves on the stream, none if the connection is to be closed
abbrev unread_of : {A : Type 0} → Answer A → Option (List ℕ)
unread_of (broken e) = none
unread_of aborted = none
unread_of (answered r rest) = some rest

-- An answer took that many replies from the stream.
abbrev Takes : {A : Type 0} → ℕ → List ℕ → Answer A → Type 0
Takes n s a = (rest : List ℕ) → unread_of a ≡ some rest → InSync rest × Replied n s rest

read_one-InSync :
    (s : List ℕ)
    → InSync s
    → ((e : WireError) × (read_one s ≡ err e))
      ⊎ ((r : Reply) × (rest : List ℕ) × InSync rest
          × IsReply r
          × (s ≡ put_reply r rest)
          × (read_one s ≡ ok (r, rest)))
unfolding read_one put_all
read_one-InSync s ([], tail, e, w, cut, same) = inl (e, ap read_one same ∙ cut)
read_one-InSync s (r ∷ rs, tail, e, w, cut, same) = inr (
  r,
  put_all rs tail,
  (rs, tail, e, w.1, cut, refl),
  w.0,
  same,
  ap read_one same ∙ read-put_reply r (put_all rs tail) w.0,
)

one-Replied : (r : Reply) (s rest : List ℕ) → IsReply r → s ≡ put_reply r rest → Replied 1 s rest
unfolding put_all
one-Replied r s rest w e = (r ∷ [], (w, tt), refl, e)

unread-judge : (r : Reply) (rest x : List ℕ) → unread_of (judge (ok (r, rest))) ≡ some x → rest ≡ x
unread-judge r rest x h = ground (arith, h)

unread-judge_exec :
    (r : Reply) (rest x : List ℕ) → unread_of (judge_exec (ok (r, rest))) ≡ some x → rest ≡ x
unfolding judge_exec
unread-judge_exec r rest x h = ground (arith, h)

judge-Takes : (s : List ℕ) → InSync s → Takes 1 s (judge (read_one s))
judge-Takes s w rest h = elim (read_one-InSync s w) [
  | inl (e, v) ↦ ground (arith, rw v at h)
  | inr (r, t, u, i, same, v) ↦
      subst (λ x. InSync x × Replied 1 s x) (unread-judge r t rest (rw v at h))
        (u, one-Replied r s t i same)
]

judge_exec-Takes : (s : List ℕ) → InSync s → Takes 1 s (judge_exec (read_one s))
unfolding judge_exec
judge_exec-Takes s w rest h = elim (read_one-InSync s w) [
  | inl (e, v) ↦ ground (arith, rw v at h)
  | inr (r, t, u, i, same, v) ↦
      subst (λ x. InSync x × Replied 1 s x) (unread-judge_exec r t rest (rw v at h))
        (u, one-Replied r s t i same)
]

do_command-Takes : (args : List (List ℕ)) (s : List ℕ) → InSync s → Takes 1 s (do_command args s).1
unfolding do_command
do_command-Takes args = judge-Takes

skip_replies-Takes : (n : ℕ) (s : List ℕ) → InSync s → Takes (suc n) s (skip_replies n s)
unfolding skip_replies put_all
skip_replies-Takes zero s w rest h = judge_exec-Takes s w rest h
skip_replies-Takes (suc n) s w rest h = elim (read_one-InSync s w) [
  | inl (e, v) ↦ ground (arith, rw v at h)
  | inr (r, t, u, i, same, v) ↦
      let (sync, (rs, all, count, e)) = skip_replies-Takes n t u rest (rw v at h) in
      (sync, (r ∷ rs, (i, all), ap suc count, same ∙ ap (put_reply r) e))
]

-- How many commands a transaction writes: with MULTI and EXEC, or none.
abbrev written_by : List (List (List ℕ)) → ℕ
written_by [] = 0
written_by (cmd ∷ cmds) = suc (suc (length (cmd ∷ cmds)))

do_multi-Takes :
    (cmds : List (List (List ℕ))) (s : List ℕ)
    → InSync s
    → Takes (written_by cmds) s (do_multi cmds s).1
unfolding do_multi put_all
do_multi-Takes [] s w rest h =
    subst (λ x. InSync x × Replied 0 s x) (cc h) (w, ([], tt, refl, refl))
do_multi-Takes (c ∷ cmds) s w rest h = skip_replies-Takes (suc (length (c ∷ cmds))) s w rest h

write_all-append :
    (xs ys : List (List (List ℕ))) (rest : List ℕ)
    → write_all (xs ++ ys) rest ≡ write_all xs (write_all ys rest)
unfolding write_all
write_all-append [] ys rest = refl
write_all-append (x ∷ xs) ys rest = ap (λ t. write_command x ++ t) (write_all-append xs ys rest)

write_all-rest :
    (xs : List (List (List ℕ))) (rest : List ℕ) → write_all xs [] ++ rest ≡ write_all xs rest
unfolding write_all
write_all-rest [] rest = refl
write_all-rest (x ∷ xs) rest =
    append_assoc (write_command x) (write_all xs []) rest
    ∙ ap (λ t. write_command x ++ t) (write_all-rest xs rest)

put_all-append :
    (rs qs : List Reply) (rest : List ℕ) → put_all (rs ++ qs) rest ≡ put_all rs (put_all qs rest)
unfolding put_all
put_all-append [] qs rest = refl
put_all-append (r ∷ rs) qs rest = ap (put_reply r) (put_all-append rs qs rest)

All-append : {A : Type 0} (P : A → Type 0) (xs ys : List A) → All P xs → All P ys → All P (xs ++ ys)
All-append P [] ys a b = b
All-append P (x ∷ xs) ys a b = (a.0, All-append P xs ys a.1 b)

-- An exchange of as many replies as commands keeps a connection even.
moved-IsEven :
    (c : Conn) (n : ℕ) (written rest : List ℕ)
    → IsEven c
    → Sent n written
    → InSync rest × Replied n c.unread rest
    → IsEven (moved c written rest)
moved-IsEven c n written rest even (cmds, m, e) (sync, (rs, all, k, f)) =
    let (_, (n', (cmds', m', e'), (rs', all', k', f'))) = even in
    (
      sync,
      (
        n' + n,
        (
          cmds' ++ cmds,
          omega (arith, length-append cmds' cmds, m, m'),
          rw e (ap (λ t. t ++ write_all cmds []) e')
              ∙ write_all-rest cmds' (write_all cmds [])
              ∙ sym (write_all-append cmds' cmds []),
        ),
        (
          rs' ++ rs,
          All-append IsReply rs' rs all' all,
          omega (arith, length-append rs' rs, k, k'),
          f' ∙ ap (put_all rs') f ∙ sym (put_all-append rs' rs rest),
        ),
      ),
    )

-- What a call leaves is even.
left-IsEven :
    {A : Type 0} (c : Conn) (n : ℕ) (exchanged : List ℕ × Answer A)
    → IsEven c
    → Sent n exchanged.0
    → Takes n c.unread exchanged.1
    → (d : Conn) → left c exchanged ≡ some d
    → IsEven d
left-IsEven c n (written, broken e) even s t d h = ground (arith, h)
left-IsEven c n (written, aborted) even s t d h = ground (arith, h)
left-IsEven c n (written, answered r rest) even s t d h =
    subst IsEven (cc h) (moved-IsEven c n written rest even s (t rest refl))

pub greet-left :
    (wrap : CallError → CallError) (c d : Conn) (exchanged : List ℕ × Answer Reply)
    → greet wrap c exchanged ≡ ok d
    → left c exchanged ≡ some d
greet-left wrap c d (written, broken e) h = ground (arith, h)
greet-left wrap c d (written, aborted) h = ground (arith, h)
greet-left wrap c d (written, answered (err m) rest) h = ground (arith, h)
greet-left wrap c d (written, answered (ok r) rest) h = ap some (cc h)

do_command-Sent : (args : List (List ℕ)) (s : List ℕ) → Sent 1 (do_command args s).0
unfolding do_command write_all
do_command-Sent args s = (args ∷ [], refl, sym (append-nil (write_command args)))

do_multi-Sent :
    (cmds : List (List (List ℕ))) (s : List ℕ) → Sent (written_by cmds) (do_multi cmds s).0
unfolding do_multi write_all
do_multi-Sent [] s = ([], refl, refl)
do_multi-Sent (c ∷ cmds) s =
    let first = (b'M' ∷ b'U' ∷ b'L' ∷ b'T' ∷ b'I' ∷ []) ∷ [] in
    let last = (b'E' ∷ b'X' ∷ b'E' ∷ b'C' ∷ []) ∷ [] in
    (
      first ∷ ((c ∷ cmds) ++ last ∷ []),
      omega (arith, length-append (c ∷ cmds) (last ∷ [])),
      ap (λ t. write_command first ++ t)
          (ap (write_all (c ∷ cmds)) (sym (append-nil (write_command last)))
            ∙ sym (write_all-append (c ∷ cmds) (last ∷ []) [])),
    )

-- A single command, and a transaction
pub asked-IsEven :
    (args : List (List ℕ)) (c : Conn)
    → IsEven c
    → (d : Conn) → left c (do_command args c.unread) ≡ some d
    → IsEven d
asked-IsEven args c even =
    left-IsEven c 1 (do_command args c.unread) even (do_command-Sent args c.unread)
      (do_command-Takes args c.unread even.0)

pub ran-IsEven :
    (cmds : List (List (List ℕ))) (c : Conn)
    → IsEven c
    → (d : Conn) → left c (do_multi cmds c.unread) ≡ some d
    → IsEven d
ran-IsEven cmds c even =
    left-IsEven c (written_by cmds) (do_multi cmds c.unread) even (do_multi-Sent cmds c.unread)
      (do_multi-Takes cmds c.unread even.0)

pub opened-IsEven : (s : List ℕ) → InSync s → IsEven (opened s)
unfolding write_all put_all
opened-IsEven s w = (w, (0, ([], refl, refl), ([], tt, refl, refl)))
