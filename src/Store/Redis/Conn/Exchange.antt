-- ===== src/Store/Redis/Conn/Exchange.antt =====
-- internal/store/redis/client.go: what a command and a transaction make of what the server sends.
use j_harness.Base.{
  ℕ, zero, suc, List, [], ◌∷◌, ◌≡◌, ◌≢◌, refl, sym, ap, ◌∙◌, ok, err, length, All, arith,
}
use j_harness.Store.Redis.Wire.{
  Reply, bulk, array, Replies, no_more, more, write_args, write_command, Read, out_of_fuel,
}
use j_harness.Store.Redis.Wire.RoundTrip.{put_reply, put_replies, IsReply, count, read-put_reply}
use j_harness.Store.Redis.Wire.Fuel.{read_reply-ne-out_of_fuel}
use j_harness.Store.Redis.Conn.{
  Answer, broken, read_one, judge, do_command, judge_exec, skip_one, skip_replies, do_multi,
}

-- A command as the array of bulk texts that the server reads.
unfoldable pub bulks : List (List ℕ) → Replies
bulks [] = no_more
bulks (a ∷ args) = more (bulk a) (bulks args)

count-bulks : (args : List (List ℕ)) → count (bulks args) ≡ length args
unfolding bulks
count-bulks [] = refl
count-bulks (a ∷ args) = ap suc (count-bulks args)

write_args-bulks : (args : List (List ℕ)) → write_args args ≡ put_replies (bulks args) []
unfolding write_args bulks put_replies
write_args-bulks [] = refl
write_args-bulks (a ∷ args) = rw (write_args-bulks args) refl

write_command-bulks :
    (args : List (List ℕ)) → write_command args ≡ put_reply (array (bulks args)) []
unfolding write_command put_replies
write_command-bulks args = rw (write_args-bulks args) (rw (count-bulks args) refl)

-- Replies one behind the other, in front of what follows.
unfoldable pub put_all : List Reply → List ℕ → List ℕ
unfolding put_reply
put_all [] rest = rest
put_all (r ∷ rs) rest = put_reply r (put_all rs rest)

skip_replies-put :
    (rs : List Reply) (last : Reply) (rest : List ℕ)
    → All IsReply rs
    → IsReply last
    → skip_replies (length rs) (put_all rs (put_reply last rest)) ≡ judge_exec (ok (last, rest))
unfolding skip_replies read_one put_all judge_exec
skip_replies-put [] last rest w l = rw (read-put_reply last rest l) refl
skip_replies-put (r ∷ rs) last rest w l =
    rw (read-put_reply r (put_all rs (put_reply last rest)) w.0)
      (skip_replies-put rs last rest w.1 l)

judge-ne : (r : Read Reply) → r ≢ err out_of_fuel → judge r ≢ broken out_of_fuel
judge-ne (err e) h k = h (cc k)
judge-ne (ok (r, rest)) h k = ground (arith, k)

judge_exec-ne : (r : Read Reply) → r ≢ err out_of_fuel → judge_exec r ≢ broken out_of_fuel
unfolding judge_exec
judge_exec-ne (err e) h k = h (cc k)
judge_exec-ne (ok (r, rest)) h k = ground (arith, k)

skip_one-ne :
    (r : Read Reply) (go_on : List ℕ → Answer Replies)
    → r ≢ err out_of_fuel
    → ((rest : List ℕ) → go_on rest ≢ broken out_of_fuel)
    → skip_one r go_on ≢ broken out_of_fuel
skip_one-ne (err e) go_on h k q = h (cc q)
skip_one-ne (ok (r, rest)) go_on h k q = k rest q

skip_replies-ne : (n : ℕ) (s : List ℕ) → skip_replies n s ≢ broken out_of_fuel
unfolding skip_replies read_one
skip_replies-ne zero s = judge_exec-ne (read_one s) (read_reply-ne-out_of_fuel s)
skip_replies-ne (suc n) s =
    skip_one-ne (read_one s) (skip_replies n) (read_reply-ne-out_of_fuel s) (skip_replies-ne n)

do_multi-ne : (cmds : List (List (List ℕ))) (s : List ℕ) → (do_multi cmds s).1 ≢ broken out_of_fuel
unfolding do_multi
do_multi-ne [] s h = cc
do_multi-ne (cmd ∷ cmds) s h = skip_replies-ne (suc (length (cmd ∷ cmds))) s h

-- For well-formed replies (lines without a line break, numbers and lengths within 64 bits, for a
-- text with its line break): do sends its command as the array of bulk texts of the protocol, and
-- gives the judgement of exactly the reply that the server sent, with what follows it left on the
-- connection; doMulti, on one or more commands, drops one reply for MULTI and one for each command
-- and judges the reply of EXEC. On any bytes whatever, neither of the two runs out of the fuel of
-- the reader.
pub exchange :
    (args : List (List ℕ)) (cmd : List (List ℕ)) (cmds : List (List (List ℕ)))
    (replies : List Reply) (last : Reply) (rest any : List ℕ)
    → All IsReply replies
    → IsReply last
    → length replies ≡ suc (length (cmd ∷ cmds))
    → (do_command args (put_reply last rest)
        ≡ (put_reply (array (bulks args)) [], judge (ok (last, rest))))
      × ((do_multi (cmd ∷ cmds) (put_all replies (put_reply last rest))).1
          ≡ judge_exec (ok (last, rest)))
      × ((do_command args any).1 ≢ broken out_of_fuel)
      × ((do_multi (cmd ∷ cmds) any).1 ≢ broken out_of_fuel)
unfolding do_command read_one do_multi
exchange args cmd cmds replies last rest any w l n = (
  rw (write_command-bulks args) (rw (read-put_reply last rest l) refl),
  ap (λ k. skip_replies k (put_all replies (put_reply last rest))) (sym n)
      ∙ skip_replies-put replies last rest w l,
  judge-ne (read_one any) (read_reply-ne-out_of_fuel any),
  do_multi-ne (cmd ∷ cmds) any,
)
