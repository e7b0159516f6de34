-- ===== src/Redis.antt =====
-- What the servers use of Redis: the calls of Server/SessionServer/RedisManager.cpp, which the other
-- servers repeat, over an interface of commands. A call that gets no reply, or no connection, fails.
pub mod Lock
pub mod Counts
use my_music.Base.{
  ℕ, ◌<◌, ◌≡◌, ℤ, pos, eq_int, Bool, true, false, ◌&&◌, ◌==◌, Option, none, some, Text, text_eq, [],
  if◌then◌else◌,
}

-- A key: one of the prefixes of the servers' global.h, and a uid or an e-mail address.
pub data Key : Type 0 where
  user_token user_ip user_session user_base_info : ℤ → Key
  code reset_code : Text → Key
  -- A server's field of the hash LOGINCOUNT.
  login_count : Text → Key

abbrev pub tag : Key → ℕ
tag (user_token i) = 0
tag (user_ip i) = 1
tag (user_session i) = 2
tag (user_base_info i) = 3
tag (code t) = 4
tag (reset_code t) = 5
tag (login_count t) = 6

abbrev pub key_uid : Key → ℤ
key_uid (user_token i) = i
key_uid (user_ip i) = i
key_uid (user_session i) = i
key_uid (user_base_info i) = i
key_uid _ = pos 0

abbrev pub key_text : Key → Text
key_text (code t) = t
key_text (reset_code t) = t
key_text (login_count t) = t
key_text _ = []

abbrev pub eq_key : Key → Key → Bool
eq_key a b = tag a == tag b && (eq_int (key_uid a) (key_uid b) && text_eq (key_text a) (key_text b))

-- `elapse n` lets n seconds go by; `replies` says whether the next command gets its reply.
pub record Redis (S : Type 0) : Type 0 where
  pub replies : S → Bool
  pub get : Key → S → Option Text
  pub set : Key → Text → S → S
  pub del : Key → S → S
  pub expire : Key → ℕ → S → S
  pub elapse : ℕ → S → S
  pub set_lem : (k : Key) (v : Text) (s : S) → get k (set k v s) ≡ some v
  pub del_lem : (k : Key) (s : S) → get k (del k s) ≡ none
  pub set_other :
      (k k' : Key) (v : Text) (s : S) → eq_key k' k ≡ false → get k' (set k v s) ≡ get k' s
  pub del_other : (k k' : Key) (s : S) → eq_key k' k ≡ false → get k' (del k s) ≡ get k' s
  pub expire_other :
      (k k' : Key) (ttl : ℕ) (s : S) → eq_key k' k ≡ false → get k' (expire k ttl s) ≡ get k' s
  -- A key that is given a time to live stays until that time is up.
  pub expire_lem :
      (k : Key) (v : Text) (ttl n : ℕ) (s : S)
      → get k s ≡ some v
      → n < ttl
      → get k (elapse n (expire k ttl s)) ≡ some v

abbrev pub is_some : {A : Type 0} → Option A → Bool
is_some none = false
is_some (some a) = true

module _ {S : Type 0} (redis : Redis S) where
  -- Every command gets its reply.
  abbrev pub IsUp : Type 0
  IsUp = (s : S) → redis.replies s ≡ true

  abbrev pub redis_get : Key → S → Option Text
  redis_get k s = if redis.replies s then redis.get k s else none

  abbrev pub redis_set : Key → Text → S → Bool × S
  redis_set k v s = if redis.replies s then (true, redis.set k v s) else (false, s)

  abbrev pub redis_del : Key → S → Bool × S
  redis_del k s = if redis.replies s then (true, redis.del k s) else (false, s)

  -- The reply is 1 if the key is there.
  abbrev pub redis_expire : Key → ℕ → S → Bool × S
  redis_expire k ttl s =
      if redis.replies s then (is_some (redis.get k s), redis.expire k ttl s) else (false, s)

  -- The commands on a field of a hash: HGet gives "" where there is nothing.
  abbrev pub text_or_empty : Option Text → Text
  text_or_empty none = []
  text_or_empty (some t) = t

  abbrev pub redis_hget : Key → S → Text
  redis_hget k s = text_or_empty (redis_get k s)

  abbrev pub redis_hset : Key → Text → S → Bool × S
  redis_hset k v s = if redis.replies s then (true, redis.set k v s) else (false, s)

  -- The reply is the number of fields that were there.
  abbrev pub redis_hdel : Key → S → Bool × S
  redis_hdel k s = if redis.replies s then (is_some (redis.get k s), redis.del k s) else (false, s)
