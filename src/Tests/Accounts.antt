-- ===== src/Tests/Accounts.antt =====
-- Registration, a reset password and a login on the small database.
use my_music.Base.{
  ◌≡◌, refl, pos, negsuc, none, some, Text, text_eq, List, [], ◌∷◌, codes, arith, if◌then◌else◌,
}
use my_music.Sql.{ok, pure}
use my_music.Account.{
  success, verify_code_err, register, reset_password, RegUser, RegisterReq, ResetReq, reg_user,
  user_register, get_verify_code, reset_password_handler,
}
use my_music.Account.Codes.{user_register-get_verify_code}
use my_music.Account.Passwords.{LogsIn, reset_password_login}
use my_music.Account.{login_valid, verify_hashes}
use my_music.Status.{get_session_server, SessionServer, get_server_handler, login}
use my_music.Status
use my_music.Logic
use my_music.Logic.Login.{take_token}
use my_music.Status.Tokens.{issued, get_server_handler-take_token}
use my_music.Tests.Memory.{Store, memory}
use my_music.Tests.Tables.{library, library-IsHealthy, ann}

abbrev empty : Store
empty k = none

-- A procedure that finds the name taken.
abbrev taken : RegUser
taken name email salt hash = pure (negsuc 1)

abbrev bob : RegisterReq
bob = record {
  name = codes "bob";
  email = codes "b@c";
  passwd_hash = codes "h";
  passwd_salt = codes "s";
  verifycode = codes "123456";
}

user_register-get_verify_code_example :
    ((get_verify_code memory (codes "b@c") register (codes "123456") empty).0
      ≡ some (codes "123456"))
    × (user_register memory taken (some bob) (
          memory.elapse 599
            (get_verify_code memory (codes "b@c") register (codes "123456") empty).1)
        ≡ (if text_eq (codes "123456") (codes "123456")
            then reg_user taken (codes "bob") (codes "h") (codes "s") (codes "b@c")
            else pure verify_code_err))
user_register-get_verify_code_example =
    user_register-get_verify_code memory taken bob (codes "123456") 599 empty (λ s. refl) refl
      (omega arith)

abbrev new_pass : ResetReq
new_pass = record {
  email = codes "a@b";
  passwd_hash = codes "new";
  passwd_salt = codes "salt";
  verifycode = codes "000111";
}

reset_password_login_example :
    ((reset_password_handler memory
        (some new_pass)
        (memory.elapse 30
          (get_verify_code memory (codes "a@b") reset_password (codes "000111") empty).1)
        library).0
      ≡ ok success)
    × LogsIn
        (λ t. t)
        (codes "ann")
        (codes "new")
        (codes "salt")
        (codes "old")
        ann
        (reset_password_handler memory
          (some new_pass)
          (memory.elapse 30
            (get_verify_code memory (codes "a@b") reset_password (codes "000111") empty).1)
          library).1
reset_password_login_example =
    reset_password_login memory (λ t. t) (codes "ann") (codes "000111") (codes "old") new_pass 30
      empty library ann (λ s. refl) refl (omega arith) refl library-IsHealthy refl refl refl refl
      refl (unfold verify_hashes in refl)

abbrev one_server : List (Text × SessionServer)
one_server =
    (codes "s1", record { host = codes "10.0.0.1"; port = codes "9000"; name = codes "s1" }) ∷ []

get_server_handler-take_token_example :
    (s' : Store) × (get_server_handler memory one_server
        (λ t. t)
        (codes "ann")
        (codes "old")
        (codes "t")
        empty
        library
      ≡ some (issued memory one_server 1 (codes "t"), s'))
    × (login memory one_server (pos 1) (codes "t") s' ≡ Status.success)
    × ((take_token memory (pos 1) (codes "t") s').0 ≡ Logic.success)
    × (login memory one_server (pos 1) (codes "x") s' ≡ Status.token_invalid)
    × ((take_token memory (pos 1) (codes "x") s').0 ≡ Logic.token_invalid)
get_server_handler-take_token_example =
    get_server_handler-take_token memory one_server (λ t. t) (codes "ann") (codes "old") (codes "t")
      (codes "x") 1 empty library (λ s. refl) (unfold get_session_server in refl)
      (unfold login_valid verify_hashes in refl) refl
