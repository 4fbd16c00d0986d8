-- ===== src/Store/Redis/Jobs/Contract.antt =====
-- internal/store/redis/redis.go: what RedisStore relies on, the documented behaviour of the server's
-- commands on hashes. A call may fail; what a failed call leaves is not said.
use j_harness.Base.{
  String, true, false, ◌&&◌, ◌||◌, All, Option, none, some, List, [], ◌∷◌, ◌≡◌, ◌⊎◌, ok,
  if◌then◌else◌, ◌==◌, Map, lookup, insert,
}
use j_harness.Store.Redis.Wire.{ReplyOf, bulk, integer, array, nil_bulk, RepliesOf, no_more, more}
use j_harness.Store.Redis.Wire.Numbers.{plus}
use j_harness.Store.Redis.Jobs.{Server}

-- HGETALL: the fields, each in front of its value.
unfoldable pub flat : Map String → RepliesOf String
flat [] = no_more
flat ((name, val) ∷ m) = more (bulk name) (more (bulk val) (flat m))

-- Each field is there once.
unfoldable pub IsHash : Map String → Type 0
unfolding lookup
IsHash [] = Unit
IsHash ((name, val) ∷ m) = (lookup name m ≡ none) × IsHash m

abbrev pub or_nil : Option String → ReplyOf String
or_nil none = nil_bulk
or_nil (some t) = bulk t

-- HSET: the fields and values of the command
unfoldable pub set_all : List String → Map String → Map String
unfolding insert
set_all (name ∷ val ∷ args) m = set_all args (insert name val m)
set_all _ m = m

-- What a command of a transaction does to the hash at a key
unfoldable pub effect : List String → String → Map String → Map String
unfolding set_all
effect (name ∷ at ∷ args) key m = if name == "HSET" && at == key then set_all args m else m
effect _ key m = m

unfoldable pub effects : List (List String) → String → Map String → Map String
unfolding effect
effects [] key m = m
effects (cmd ∷ cmds) key m = effects cmds key (effect cmd key m)

-- The commands that the transactions of the store are made of
abbrev pub IsWrite : List String → Type 0
IsWrite [] = false ≡ true
IsWrite (name ∷ args) = (name == "HSET" || name == "ZADD" || name == "ZREM") ≡ true

-- The hash at a key has the fields of another one.
abbrev pub Same : Map String → Map String → Type 0
Same m m' = (name : String) → lookup name m ≡ lookup name m'

pub record ServerLaws {S : Type 0} (srv : Server S) (hash : S → String → Map String) : Type 0 where
  pub is_hash : (s : S) (key : String) → IsHash (hash s key)
  pub hgetall :
      (s : S) (key : String) → srv.query ("HGETALL" ∷ key ∷ []) s ≡ ok (array (flat (hash s key)))
  pub hmget :
      (s : S) (key a b : String) (r : ReplyOf String)
      → srv.query ("HMGET" ∷ key ∷ a ∷ b ∷ []) s ≡ ok r
      → r
        ≡ array
            (more (or_nil (lookup a (hash s key))) (more (or_nil (lookup b (hash s key))) no_more))
  pub incr :
      (s : S) (key : String) (r : ReplyOf String)
      → (srv.command ("INCR" ∷ key ∷ []) s).0 ≡ ok r
      → (k : String) → Same (hash (srv.command ("INCR" ∷ key ∷ []) s).1 k) (hash s k)
  pub hsetnx :
      (s : S) (key name val : String) (r : ReplyOf String)
      → (srv.command ("HSETNX" ∷ key ∷ name ∷ val ∷ []) s).0 ≡ ok r
      → ((lookup name (hash s key) ≡ none)
          × (r ≡ integer (plus 1))
          × ((k : String)
              → Same
                  (hash (srv.command ("HSETNX" ∷ key ∷ name ∷ val ∷ []) s).1 k)
                  (if key == k then insert name val (hash s k) else hash s k)))
        ⊎ (r ≡ integer (plus 0))
  pub rpush :
      (s : S) (key val k : String)
      → Same (hash (srv.command ("RPUSH" ∷ key ∷ val ∷ []) s).1 k) (hash s k)
  pub exec :
      (s : S) (cmds : List (List String)) (rs : RepliesOf String)
      → All IsWrite cmds
      → (srv.transact cmds s).0 ≡ ok rs
      → (k : String) → Same (hash (srv.transact cmds s).1 k) (effects cmds k (hash s k))
