-- ===== src/Redis.antt =====
-- src/redis.c: the calls of hiredis, which is a parameter. Each %s of a command is one argument.
pub mod Strings
mod Tests
use Prim.Native.String.{String}
use multi_client_chat_server.Prelude.{
  ℕ, suc, zero, ◌-◌, ℤ, pos, negsuc, Bool, true, false, Option, none, some, List, [], ◌∷◌, map,
  Text, codes, ltb, if◌then◌else◌, take,
}
use multi_client_chat_server.Protocol.Format.{decimal}

-- The types of redisReply that the code tells apart.
pub data Reply : Type 0 where
  error : Reply
  string : Text → Reply
  array : List Text → Reply
  other : Reply

-- hiredis: a connection, or none where it fails; a command, whose reply may be NULL.
pub record Hiredis : Type 1 where
  pub Context : Type 0
  pub connect : Text → ℕ → Option Context
  pub command : List Text → Context → Context × Option Reply

-- `redis_config_t`
pub record RedisConfig : Type 0 where
  pub host : Text
  pub port : ℕ
  pub enabled : Bool

-- `redis_enabled` and `redis_ctx`.
pub data Link (Context : Type 0) : Type 0 where
  off : Link Context
  on : Context → Link Context

abbrev success : ℤ
success = pos 0

abbrev failure : ℤ
failure = negsuc 0

-- The arguments, if none of them is NULL.
abbrev all_given : List (Option Text) → Option (List Text)
all_given [] = some []
all_given (none ∷ args) = none
all_given (some a ∷ args) = elim (all_given args) [ none ↦ none | some rest ↦ some (a ∷ rest) ]

-- 0 for a reply that is no error.
abbrev accepted : Option Reply → ℤ
accepted none = failure
accepted (some error) = failure
accepted (some r) = success

-- 0 for any reply.
abbrev replied : Option Reply → ℤ
replied none = failure
replied (some r) = success

abbrev text_reply : Option Reply → Option Text
text_reply (some (string s)) = some s
text_reply r = none

abbrev members : Option Reply → List Text
members (some (array xs)) = xs
members r = []

-- The buffer of a read: no result for a size of 0, and the text cut to the buffer.
abbrev copied : ℕ → Option Text → Option Text
copied zero s = none
copied (suc n) none = none
copied (suc n) (some s) = some (take n s)

module _ (h : Hiredis) where
  open h use {Context, connect, command}

  -- redis_init; `compiled` is USE_HIREDIS.
  pub redis_init : Bool → Option RedisConfig → Link Context × ℤ
  redis_init compiled none = (off, success)
  redis_init compiled (some cfg) =
      let linked : Link Context × ℤ = elim (connect cfg.host cfg.port) [
        | none ↦ (off, failure)
        | some c ↦ (on c, success)
      ] in
      if cfg.enabled then if compiled then linked else (off, success) else (off, success)

  pub redis_close : Link Context → Link Context
  redis_close link = off

  pub redis_is_connected : Link Context → Bool
  redis_is_connected off = false
  redis_is_connected (on c) = true

  -- The guard and the command: no reply where redis is off or an argument is NULL.
  pub ask : Link Context → String → List (Option Text) → Link Context × Option Reply
  ask off verb args = (off, none)
  ask (on c) verb args = elim (all_given args) [
    | none ↦ (on c, none)
    | some texts ↦ let (c', r) = command (codes verb ∷ texts) c in (on c', r)
  ]

  pub redis_publish : Link Context → Option Text → Option Text → Link Context × ℤ
  unfolding ask
  redis_publish link channel msg =
      let (link', r) = ask link "PUBLISH" (channel ∷ msg ∷ []) in (link', accepted r)

  pub redis_set : Link Context → Option Text → Option Text → ℕ → Link Context × ℤ
  unfolding ask
  redis_set link key value expire_sec =
      let (link', r) =
        if ltb 0 expire_sec
        then ask link "SETEX" (key ∷ some (decimal expire_sec) ∷ value ∷ [])
        else ask link "SET" (key ∷ value ∷ []) in
      (link', accepted r)

  pub redis_get : Link Context → Option Text → ℕ → Link Context × Option Text
  unfolding ask
  redis_get link key zero = (link, none)
  redis_get link key (suc n) =
      let (link', r) = ask link "GET" (key ∷ []) in (link', copied (suc n) (text_reply r))

  pub redis_del : Link Context → Option Text → Link Context × ℤ
  unfolding ask
  redis_del link key = let (link', r) = ask link "DEL" (key ∷ []) in (link', replied r)

  pub redis_hset : Link Context → Option Text → Option Text → Option Text → Link Context × ℤ
  unfolding ask
  redis_hset link key field value =
      let (link', r) = ask link "HSET" (key ∷ field ∷ value ∷ []) in (link', accepted r)

  pub redis_hget : Link Context → Option Text → Option Text → ℕ → Link Context × Option Text
  unfolding ask
  redis_hget link key field zero = (link, none)
  redis_hget link key field (suc n) =
      let (link', r) = ask link "HGET" (key ∷ field ∷ []) in (link', copied (suc n) (text_reply r))

  pub redis_hdel : Link Context → Option Text → Option Text → Link Context × ℤ
  unfolding ask
  redis_hdel link key field =
      let (link', r) = ask link "HDEL" (key ∷ field ∷ []) in (link', replied r)

  pub redis_sadd : Link Context → Option Text → Option Text → Link Context × ℤ
  unfolding ask
  redis_sadd link key member =
      let (link', r) = ask link "SADD" (key ∷ member ∷ []) in (link', replied r)

  pub redis_srem : Link Context → Option Text → Option Text → Link Context × ℤ
  unfolding ask
  redis_srem link key member =
      let (link', r) = ask link "SREM" (key ∷ member ∷ []) in (link', replied r)

  -- At most `max_out` members, of at most 63 bytes each.
  pub redis_smembers : Link Context → Option Text → ℕ → Link Context × List Text
  unfolding ask
  redis_smembers link key zero = (link, [])
  redis_smembers link key (suc n) =
      let (link', r) = ask link "SMEMBERS" (key ∷ []) in
      (link', map (λ s. take 63 s) (take (suc n) (members r)))
