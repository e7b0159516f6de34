-- ===== src/Logic/Tokens.antt =====
-- The life of a session token under heartbeats.
use my_music.Base.{
  lt→ltb, ℕ, ◌<◌, ◌≡◌, refl, ap, ℤ, pos, eq_int_iff, true, some, Text, text_eq_refl, List, [], ◌∷◌,
  map, All,
}
use my_music.Redis.{Redis, user_token, IsUp}
use my_music.Logic.{
  ErrorCode, success, HeartBeat, token_expire_time, check_token, heart_beat_handler,
}

module _ {S : Type 0} (redis : Redis S) where
  pub check_token_lem :
      (uid b : ℕ) (t : Text) (s : S)
      → IsUp redis
      → 0 < uid
      → redis.get (user_token (pos uid)) s ≡ some (b ∷ t)
      → check_token redis (pos uid) (b ∷ t) s ≡ true
  unfolding check_token
  check_token_lem uid b t s u p h = rw (u s, h, lt→ltb 0 uid p) (text_eq_refl (b ∷ t))

  -- The answers to heartbeats that come after the given waits, in seconds.
  pub beats : ℤ → HeartBeat → List ℕ → S → List ErrorCode
  unfolding heart_beat_handler
  beats user r [] s = []
  beats user r (n ∷ waits) s =
      let (e, s') = heart_beat_handler redis user r (redis.elapse n s) in e ∷ beats user r waits s'

  beat_lem :
      (uid b : ℕ) (t : Text) (s : S)
      → IsUp redis
      → 0 < uid
      → redis.get (user_token (pos uid)) s ≡ some (b ∷ t)
      → heart_beat_handler redis (pos uid) (record { from_uid = pos uid; token = b ∷ t }) s
        ≡ (success, redis.expire (user_token (pos uid)) token_expire_time s)
  unfolding heart_beat_handler
  beat_lem uid b t s u p h = simp (
    u s,
    lt→ltb 0 uid p,
    check_token_lem uid b t s u p h,
    (eq_int_iff (pos uid) (pos uid)).1 refl,
  )

  -- If Redis replies, a user whose token is there, with its time to live just set, and who sends it again each time
  -- less than `TOKEN_EXPIRE_TIME` after the last, is answered with success for ever.
  pub beats_alive :
      (uid b : ℕ) (t : Text) (waits : List ℕ) (s : S)
      → IsUp redis
      → 0 < uid
      → redis.get (user_token (pos uid)) s ≡ some (b ∷ t)
      → All (λ n. n < token_expire_time) waits
      → beats
          (pos uid)
          (record { from_uid = pos uid; token = b ∷ t })
          waits
          (redis.expire (user_token (pos uid)) token_expire_time s)
        ≡ map (λ n. success) waits
  unfolding beats
  beats_alive uid b t [] s u p h a = refl
  beats_alive uid b t (n ∷ waits) s u p h a =
      let there = redis.expire_lem (user_token (pos uid)) (b ∷ t) token_expire_time n s h a.0 in
      rw (beat_lem uid b t _ u p there)
        (ap (λ (r : List ErrorCode). success ∷ r) (beats_alive uid b t waits _ u p there a.1))
