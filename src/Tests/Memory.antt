-- ===== src/Tests/Memory.antt =====
-- A Redis that keeps each key with its time to live, and always replies.
use my_music.Base.{
  ℕ, ◌-◌, ◌<◌, ◌≡◌, refl, eq_int_iff, ==_refl, ltb, lt→ltb, true, Option, none, some, Text,
  text_eq_refl, if◌then◌else◌,
}
use my_music.Redis.{Key, Redis, tag, key_uid, key_text, eq_key}

pub eq_key_refl : (k : Key) → eq_key k k ≡ true
eq_key_refl k =
    rw (==_refl (tag k), (eq_int_iff (key_uid k) (key_uid k)).1 refl, text_eq_refl (key_text k))
      refl

abbrev pub Slot : Type 0
Slot = Option (Text × Option ℕ)

abbrev pub Store : Type 0
Store = Key → Slot

abbrev pub visible : Slot → Option Text
visible none = none
visible (some (v, t)) = some v

abbrev pub limit : ℕ → Slot → Slot
limit ttl none = none
limit ttl (some (v, t)) = some (v, some ttl)

abbrev pub aged : ℕ → Slot → Slot
aged n none = none
aged n (some (v, none)) = some (v, none)
aged n (some (v, some t)) = if ltb n t then some (v, some (t - n)) else none

pub aged-limit :
    (x : Slot) (v : Text) (ttl n : ℕ)
    → visible x ≡ some v
    → n < ttl
    → visible (aged n (limit ttl x)) ≡ some v
aged-limit none v ttl n e h = cc
aged-limit (some (u, t)) v ttl n e h = rw (lt→ltb n ttl h) e

abbrev pub memory : Redis Store
memory = record {
  replies = λ s. true;
  get = λ k s. visible (s k);
  set = λ k v s k'. if eq_key k' k then some (v, none) else s k';
  del = λ k s k'. if eq_key k' k then none else s k';
  expire = λ k ttl s k'. if eq_key k' k then limit ttl (s k') else s k';
  elapse = λ n s k'. aged n (s k');
  set_lem = λ k v s. rw (eq_key_refl k) refl;
  del_lem = λ k s. rw (eq_key_refl k) refl;
  set_other = λ k k' v s e. rw e refl;
  del_other = λ k k' s e. rw e refl;
  expire_other = λ k k' ttl s e. rw e refl;
  expire_lem = λ k v ttl n s e h. rw (eq_key_refl k) (aged-limit (s k) v ttl n e h);
}
