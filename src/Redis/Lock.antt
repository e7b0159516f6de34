-- ===== src/Redis/Lock.antt =====
-- Server/SessionServer/DistributeLock.cpp: a lock of Redis with an identifier and a time to live. A
-- state is the value of one lock key with the seconds that it has left.
pub mod Exclusion
use my_music.Base.{
  ℕ, ◌-◌, Bool, true, false, Option, none, some, Text, text_eq, ltb, null, List, [], ◌∷◌,
  if◌then◌else◌,
}

abbrev pub Slot : Type 0
Slot = Option (Text × ℕ)

-- SET key identifier NX EX ttl: whether the reply is OK, and the key behind it.
abbrev pub set_nx : Text → ℕ → Slot → Bool × Slot
set_nx id ttl none = (true, some (id, ttl))
set_nx id ttl (some (other, left)) = (false, some (other, left))

-- The script: delete the key if it holds the identifier.
abbrev pub compare_and_delete : Text → Slot → Bool × Slot
compare_and_delete id none = (false, none)
compare_and_delete id (some (other, left)) =
    if text_eq other id then (true, none) else (false, some (other, left))

abbrev pub elapse : ℕ → Slot → Slot
elapse n none = none
elapse n (some (id, left)) = if ltb n left then some (id, left - n) else none

-- What one round of `acquireLock` meets: an error or no reply, or a reply, and behind it what the
-- time and the other clients do to the key while the thread sleeps.
pub data Round : Type 0 where
  fails : Round
  replies : (Slot → Slot) → Round

abbrev pub next_round : Text → (Slot → Slot) → Bool × Slot → (Slot → Text × Slot) → Text × Slot
next_round id others (true, s) rest = (id, s)
next_round id others (false, s) rest = rest (others s)

-- The loop, which ends with its rounds; [] is the empty text that stands for a failure.
unfoldable pub acquire_lock : Text → ℕ → List Round → Slot → Text × Slot
acquire_lock id ttl [] s = ([], s)
acquire_lock id ttl (fails ∷ rounds) s = ([], s)
acquire_lock id ttl (replies others ∷ rounds) s =
    next_round id others (set_nx id ttl s) (acquire_lock id ttl rounds)

-- `RedisManager::releaseLock`, and the script.
unfoldable pub release_lock : Text → Slot → Bool × Slot
release_lock id s = if null id then (true, s) else compare_and_delete id s
