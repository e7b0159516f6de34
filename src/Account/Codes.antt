-- ===== src/Account/Codes.antt =====
-- A verification code from the verify server to the gate server.
use my_music.Base.{ℕ, ◌<◌, ◌≡◌, refl, none, some, Text, text_eq, if◌then◌else◌}
use my_music.Redis.{Redis, IsUp, code, redis_get}
use my_music.Sql.{pure}
use my_music.Account.{
  verify_code_err, VerifyPurpose, register, code_key, get_verify_code, RegUser, RegisterReq,
  user_register, reg_user,
}

module _ {S : Type 0} (redis : Redis S) where
  -- Redis after a new code.
  abbrev pub with_new_code : VerifyPurpose → Text → Text → S → S
  with_new_code purpose email c s =
      redis.expire (code_key purpose email) 600 (redis.set (code_key purpose email) c s)

  pub get_verify_code_new :
      (purpose : VerifyPurpose) (email c : Text) (s : S)
      → IsUp redis
      → redis.get (code_key purpose email) s ≡ none
      → get_verify_code redis email purpose c s ≡ (some c, with_new_code purpose email c s)
  unfolding get_verify_code
  get_verify_code_new purpose email c s up e = simp (
    up s,
    e,
    up (redis.set (code_key purpose email) c s),
    redis.set_lem (code_key purpose email) c s,
  )

  pub new_code_there :
      (purpose : VerifyPurpose) (email c : Text) (n : ℕ) (s : S)
      → IsUp redis
      → n < 600
      → redis_get redis (code_key purpose email) (redis.elapse n (with_new_code purpose email c s))
        ≡ some c
  new_code_there purpose email c n s up h =
      rw (up (redis.elapse n (with_new_code purpose email c s))) (
        redis.expire_lem (code_key purpose email) c 600 n _
          (redis.set_lem (code_key purpose email) c s) h)

  -- If Redis replies and holds no code for the address yet, the code that `GetVerifyCode` mails is the
  -- one that `/user_register` asks for during the next 600 seconds: with it the request reaches the
  -- registration, with any other text it is refused and the database is not touched.
  pub user_register-get_verify_code :
      (proc : RegUser) (r : RegisterReq) (c : Text) (n : ℕ) (s : S)
      → IsUp redis
      → redis.get (code r.email) s ≡ none
      → n < 600
      → let v = get_verify_code redis r.email register c s in
        (v.0 ≡ some c)
        × (user_register redis proc (some r) (redis.elapse n v.1) ≡ (
            if text_eq c r.verifycode
            then reg_user proc r.name r.passwd_hash r.passwd_salt r.email
            else pure verify_code_err))
  unfolding user_register
  user_register-get_verify_code proc r c n s up e h =
      rw (get_verify_code_new register r.email c s up e)
        (refl, rw (new_code_there register r.email c n s up h) refl)
