-- ===== src/Status/Tokens.antt =====
-- A token from `/get_server` at the gate, over the status server, to the login at a session server.
use my_music.Base.{ℕ, pos, ◌≡◌, false, some, Text, text_eq, text_eq_refl, null, List}
use my_music.Sql.{World, ok}
use my_music.Redis.{Redis, IsUp, user_token}
use my_music.Account.{login_valid}
use my_music.Logic.{ErrorCode, uid_invalid}
use my_music.Logic
use my_music.Logic.Login.{take_token}
use my_music.Status.{
  SessionServer, ServerInfo, success, token_invalid, get_session_server, get_chat_server, login,
  get_server_handler,
}

module _ {S : Type 0} (redis : Redis S) (servers : List (Text × SessionServer)) where
  pub issued : ℕ → Text → ServerInfo
  issued id token = record {
    error = success;
    id = id;
    token = token;
    host = (get_session_server servers).host;
    port = (get_session_server servers).port;
  }

  -- If Redis replies, the configuration names a server, and the password is right, `/get_server` gives
  -- a token for the user's id that the status server and the login at a session server accept; any other
  -- text is refused by both.
  pub get_server_handler-take_token :
      (decode : Text → Text) (name hash token other : Text) (id : ℕ) (s : S) (w : World)
      → IsUp redis
      → null (get_session_server servers).host ≡ false
      → (login_valid decode name hash w).0 ≡ ok (some (some id))
      → text_eq token other ≡ false
      → (s' : S) × (get_server_handler redis servers decode name hash token s w
          ≡ some (issued id token, s'))
        × (login redis servers (pos id) token s' ≡ success)
        × ((take_token redis (pos id) token s').0 ≡ Logic.success)
        × (login redis servers (pos id) other s' ≡ token_invalid)
        × ((take_token redis (pos id) other s').0 ≡ Logic.token_invalid)
  unfolding get_server_handler get_chat_server login take_token issued
  get_server_handler-take_token decode name hash token other id s w up h v d =
      let k = user_token (pos id) in
      let s1 = redis.set k token s in
      let there = redis.set_lem k token s in
      (
        s1,
        simp (v, h, up s),
        simp (up s1, there, text_eq_refl token),
        simp (up s1, there, text_eq_refl token),
        simp (up s1, there, d),
        simp (up s1, there, d),
      )
