-- ===== src/Account.antt =====
-- Registration and passwords: Server/GateServer/LogicSystem.cpp, MysqlDao.cpp, MysqlManager.cpp and
-- Encrypt.cpp, and VerifyServiceImpl.cpp of Server/VerifyServer. Codes, the mail, the Base64 decoder and
-- the stored procedure `reg_user` are parameters.
pub mod Codes
pub mod Passwords
use my_music.Base.{
  ℕ, ◌*◌, eq_int, ℤ, pos, negsuc, Bool, true, false, Option, none, some, Text, text_eq, null, List,
  [], ◌∷◌, map, first, exists_in, length, take, ltb, if◌then◌else◌,
}
use my_music.Sql.{
  Sql, World, Db, Outcome, ok, raised, User, ◌>>=◌, ◌>>◌, pure, change, query, with_connection,
  catch_sql,
}
use my_music.Redis.{Redis, Key, code, reset_code, user_token, redis_get, redis_set, redis_expire}

-- ErrorCodes of the gate and verify servers.
pub data GateError : Type 0 where
  success error_json rpc_failed verify_code_err user_exist email_exist passwd_err email_not_match :
      GateError
  passwd_up_failed passwd_invalid user_name_invalid other_error : GateError

-- `Encrypt::VerifyHashes`: as many bytes are compared as the stored hash has when it is decoded. A
-- received one that is shorter is read past its end, `none`. `decode` is the Base64 decoder.
unfoldable pub verify_hashes : (Text → Text) → Text → Text → Option Bool
verify_hashes decode stored received =
    let size = length (decode stored) in
    if ltb (length (decode received)) size
    then none
    else some (text_eq (take size (decode received)) (decode stored))

-- `LoginValid`: `some id` if the password is right.
abbrev pub checked : ℕ → Option Bool → Option (Option ℕ)
checked id none = none
checked id (some true) = some (some id)
checked id (some false) = some none

abbrev pub verify_row : (Text → Text) → Text → Option User → Option (Option ℕ)
verify_row decode received none = some none
verify_row decode received (some u) =
    if null u.password_hash
    then some none
    else checked u.id (verify_hashes decode u.password_hash received)

abbrev pub user_named : Text → World → Option User
user_named name w = first (λ (u : User). w.engine.same_text u.name name) w.users

-- The result is `none` where the comparison leaves the received hash.
unfoldable pub login_valid : (Text → Text) → Text → Text → Sql (Option (Option ℕ))
login_valid decode name received =
    with_connection (some none)
      (catch_sql (some none) (query (λ w. verify_row decode received (user_named name w))))

abbrev pub salt_of : Option User → Option Text
salt_of none = none
salt_of (some u) = some u.password_salt

unfoldable pub get_passwd_salt : Text → Sql (Option Text)
get_passwd_salt name =
    with_connection none (catch_sql none (query (λ w. salt_of (user_named name w))))

abbrev pub has_email : Text → World → User → Bool
has_email email w u = w.engine.same_text u.email email

unfoldable pub check_email_exist : Text → Sql Bool
check_email_exist email =
    with_connection false (catch_sql false (query (λ w. exists_in (has_email email w) w.users)))

abbrev pub new_password : Text → Text → User → User
new_password hash salt u = record u { password_hash = hash; password_salt = salt }

-- Whether an UPDATE of the row changes it; MySQL counts only such rows.
abbrev pub differs : Text → Text → User → Bool
differs hash salt u =
    if text_eq u.password_hash hash
    then (if text_eq u.password_salt salt then false else true)
    else true

abbrev pub update_row : (User → Bool) → Text → Text → User → User
update_row f hash salt u = if f u then new_password hash salt u else u

abbrev pub set_password : Text → Text → Text → World → Db
set_password email hash salt w = record w.db {
  users = map (update_row (has_email email w) hash salt) w.users;
}

abbrev pub update_users : Text → Text → Text → Sql (Unit {0})
update_users email hash salt w = (ok tt, record w { db = set_password email hash salt w })

unfoldable pub update_password_by_email : Text → Text → Text → Sql Bool
update_password_by_email email hash salt = with_connection false (
    catch_sql false (do
      affected ←
          query (λ w.
            exists_in (λ u. if has_email email w u then differs hash salt u else false) w.users)
      update_users email hash salt
      pure affected))

-- MysqlManager.
unfoldable pub reset_password_by_email : Text → Text → Text → Sql GateError
reset_password_by_email email hash salt = do
  exists ← check_email_exist email
  if exists
      then (do
        updated ← update_password_by_email email hash salt
        pure (if updated then success else passwd_up_failed))
      else pure email_not_match

-- `RegUser` of MysqlManager, on what the stored procedure answers; the DAO gives -1 for an exception
-- and `false`, which is 0, where the pool has stopped.
abbrev pub reg_error : ℤ → GateError
reg_error i =
    if eq_int i (pos 0)
    then success
    else if eq_int i (negsuc 1)
    then user_exist
    else if eq_int i (negsuc 2)
    then email_exist
    else other_error

abbrev pub RegUser : Type 0
RegUser = Text → Text → Text → Text → Sql ℤ

unfoldable pub reg_user : RegUser → Text → Text → Text → Text → Sql GateError
reg_user proc name hash salt email = do
  result ← with_connection (pos 0) (catch_sql (negsuc 0) (proc name email salt hash))
  pure (reg_error result)

pub data VerifyPurpose : Type 0 where
  register reset_password : VerifyPurpose

abbrev pub code_key : VerifyPurpose → Text → Key
code_key register email = code email
code_key reset_password email = reset_code email

pub record RegisterReq : Type 0 where
  pub name : Text
  pub email : Text
  pub passwd_hash : Text
  pub passwd_salt : Text
  pub verifycode : Text

pub record ResetReq : Type 0 where
  pub email : Text
  pub passwd_hash : Text
  pub passwd_salt : Text
  pub verifycode : Text

abbrev pub is_code : Text → Option Text → Bool
is_code given none = false
is_code given (some c) = text_eq c given

module _ {S : Type 0} (redis : Redis S) where
  abbrev pub after_expire : Text → Bool × S → Option Text × S
  after_expire c (true, s) = (some c, s)
  after_expire c (false, s) = (none, s)

  abbrev pub after_set : Key → Text → Bool × S → Option Text × S
  after_set k c (true, s) = after_expire c (redis_expire redis k (60 * 10) s)
  after_set k c (false, s) = (none, s)

  abbrev pub with_code : Key → Text → Option Text → S → Option Text × S
  with_code k generated (some c) s = (some c, s)
  with_code k generated none s = after_set k generated (redis_set redis k generated s)

  -- `GetVerifyCode` of VerifyServiceImpl: the code that is mailed, or `none` for OtherError.
  -- `generated` is the code that `generateVerifyCode` would give.
  unfoldable pub get_verify_code : Text → VerifyPurpose → Text → S → Option Text × S
  get_verify_code email purpose generated s =
      let k = code_key purpose email in with_code k generated (redis_get redis k s) s

  -- `/get_verifycode` and `/get_reset_verifycode`, up to the mail. A body is `none` if it is no JSON,
  -- and its address is `none` if it has no member `email`.
  abbrev pub mailed : Option Text × S → GateError × S
  mailed (none, s) = (other_error, s)
  mailed (some c, s) = (success, s)

  unfoldable pub get_verifycode_handler :
      VerifyPurpose → Option (Option Text) → Text → S → GateError × S
  get_verifycode_handler purpose none generated s = (error_json, s)
  get_verifycode_handler purpose (some none) generated s = (error_json, s)
  get_verifycode_handler purpose (some (some email)) generated s =
      mailed (get_verify_code email purpose generated s)

  -- `/user_register`.
  unfoldable pub user_register : RegUser → Option RegisterReq → S → Sql GateError
  user_register proc none s = pure error_json
  user_register proc (some r) s =
      if is_code r.verifycode (redis_get redis (code r.email) s)
      then reg_user proc r.name r.passwd_hash r.passwd_salt r.email
      else pure verify_code_err

  -- `/reset_password`.
  unfoldable pub reset_password_handler : Option ResetReq → S → Sql GateError
  reset_password_handler none s = pure error_json
  reset_password_handler (some r) s =
      if null r.passwd_hash
      then pure passwd_invalid
      else if null r.passwd_salt
      then pure passwd_invalid
      else if is_code r.verifycode (redis_get redis (reset_code r.email) s)
      then reset_password_by_email r.email r.passwd_hash r.passwd_salt
      else pure verify_code_err

-- `/get_password_salt`: the error, and the salt where there is one.
abbrev pub salt_answer : Option Text → GateError × Text
salt_answer none = (user_name_invalid, [])
salt_answer (some salt) = (success, salt)

unfoldable pub get_password_salt_handler : Option Text → Sql (GateError × Text)
get_password_salt_handler none = pure (error_json, [])
get_password_salt_handler (some name) = do salt ← get_passwd_salt name; pure (salt_answer salt)
