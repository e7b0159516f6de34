-- ===== src/Logic/Login/End.antt =====
-- What the end of a session takes back.
use my_music.Base.{
  ◌≡◌, refl, ◌∙◌, inl, inr, ℤ, Bool, Bool-cases, true, false, none, some, Text, text_eq,
  text_eq_refl,
}
use my_music.Redis.{Redis, IsUp, user_token, user_ip, user_session, redis_del}
use my_music.Registry.{Registry, get_session, clear_session, check_valid}
use my_music.Logic.Login.{deal_exception_session, del_session_keys}

-- The session is not held any more, and only its own binding is taken.
clear_session-held : (id : Text) (r : Registry) → check_valid id (clear_session id r) ≡ false
unfolding clear_session
clear_session-held id r = rw (text_eq_refl id) refl

clear_session-kept :
    (old new : Text) (r : Registry)
    → get_session (r.uid_of old) r ≡ some new
    → text_eq new old ≡ false
    → get_session (r.uid_of old) (clear_session old r) ≡ some new
unfolding clear_session get_session
clear_session-kept old new r b d = elim (Bool-cases (r.held old)) [
  | inl y ↦ rw (y, b, d) b
  | inr y ↦ rw y b
]

module _ {S : Type 0} (redis : Redis S) where
  pub del_session_keys_lem :
      (uid : ℤ) (s : S)
      → IsUp redis
      → del_session_keys redis uid s
        ≡ redis.del (user_token uid) (redis.del (user_ip uid) (redis.del (user_session uid) s))
  del_session_keys_lem uid s up =
      let s1 = redis.del (user_session uid) s in
      rw (del_session_keys, redis_del, up s, up s1, up (redis.del (user_ip uid) s1)) refl

  -- If Redis replies and names this session for its user, and the lock was got, the end of the session
  -- takes the user's token, server and session out of Redis, and the server holds the session no more.
  pub deal_exception_session-own :
      (id : Text) (s : S) (r : Registry)
      → IsUp redis
      → redis.get (user_session (r.uid_of id)) s ≡ some id
      → let (s', r') = deal_exception_session redis true id (s, r) in
        let uid = r.uid_of id in
        (redis.get (user_token uid) s' ≡ none)
        × (redis.get (user_ip uid) s' ≡ none)
        × (redis.get (user_session uid) s' ≡ none)
        × (check_valid id r' ≡ false)
  unfolding deal_exception_session
  deal_exception_session-own id s r up e =
      let uid = r.uid_of id in
      let s1 = redis.del (user_session uid) s in
      let s2 = redis.del (user_ip uid) s1 in
      simp (up s, e, text_eq_refl id, del_session_keys_lem uid s up)
        (
          redis.del_lem (user_token uid) s2,
          redis.del_other (user_token uid) (user_ip uid) s2 refl ∙ redis.del_lem (user_ip uid) s1,
          redis.del_other (user_token uid) (user_session uid) s2 refl
              ∙ redis.del_other (user_ip uid) (user_session uid) s1 refl
              ∙ redis.del_lem (user_session uid) s,
          clear_session-held id r,
        )

  -- If Redis replies and names another session for the user, as after a later login, the end of an old
  -- session changes nothing in Redis, whether the lock was got or not, and the user's session stays the
  -- later one.
  pub deal_exception_session-stale :
      (locked : Bool) (old new : Text) (s : S) (r : Registry)
      → IsUp redis
      → redis.get (user_session (r.uid_of old)) s ≡ some new
      → text_eq new old ≡ false
      → get_session (r.uid_of old) r ≡ some new
      → let (s', r') = deal_exception_session redis locked old (s, r) in
        (s' ≡ s) × (get_session (r.uid_of old) r' ≡ some new) × (check_valid old r' ≡ false)
  unfolding deal_exception_session
  deal_exception_session-stale true old new s r up e d b =
      simp (up s, e, d) (refl, clear_session-kept old new r b d, clear_session-held old r)
  deal_exception_session-stale false old new s r up e d b =
      (refl, clear_session-kept old new r b d, clear_session-held old r)
