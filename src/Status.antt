-- ===== src/Status.antt =====
-- Server/StatusServer/StatusServiceImpl.cpp, and `/get_server` of Server/GateServer/LogicSystem.cpp,
-- which asks it for a session server.
pub mod Tokens
use my_music.Base.{
  ℕ, ℤ, pos, Bool, true, false, Option, none, some, Text, text_eq, null, List, [], ◌∷◌,
  if◌then◌else◌,
}
use my_music.Sql.{Sql, World, Outcome, ok, raised, pure}
use my_music.Redis.{Redis, user_token, redis_get, redis_set, redis_del}
use my_music.Account.{login_valid}

pub data StatusError : Type 0 where
  success rpc_failed token_invalid uid_invalid passwd_err : StatusError

pub record SessionServer : Type 0 where
  pub host : Text
  pub port : Text
  pub name : Text

pub record GetChatServerRsp : Type 0 where
  pub error : StatusError
  pub host : Text
  pub port : Text
  pub token : Text

abbrev no_server : SessionServer
no_server = record { host = []; port = []; name = [] }

-- `_servers.begin()->second`, the map in the order that it is walked; the search for the least loaded server is commented out.
unfoldable pub get_session_server : List (Text × SessionServer) → SessionServer
get_session_server [] = no_server
get_session_server ((key, server) ∷ rest) = server

pub record ServerInfo : Type 0 where
  pub error : StatusError
  pub id : ℕ
  pub token : Text
  pub host : Text
  pub port : Text

abbrev pub refusal : StatusError → ServerInfo
refusal e = record { error = e; id = 0; token = []; host = []; port = [] }

abbrev pub same_value : Text → Option Text → StatusError
same_value token none = uid_invalid
same_value token (some v) = if text_eq v token then success else token_invalid

module _ {S : Type 0} (redis : Redis S) (servers : List (Text × SessionServer)) where
  -- `token` is what `generate_unique_token` gives.
  unfoldable pub get_chat_server : ℤ → Text → S → GetChatServerRsp × S
  get_chat_server id token s =
      let server = get_session_server servers in
      if null server.host
      then (record { error = rpc_failed; host = []; port = []; token = [] }, s)
      else (
        record { error = success; host = server.host; port = server.port; token = token },
        (redis_set redis (user_token id) token s).1,
      )

  -- `StatusServiceImpl::Login`.
  unfoldable pub login : ℤ → Text → S → StatusError
  login uid token s = same_value token (redis_get redis (user_token uid) s)

  abbrev pub info : ℕ → GetChatServerRsp × S → ServerInfo × S
  info id (r, s) = elim r.error [
    | success ↦
        (record { error = success; id = id; token = r.token; host = r.host; port = r.port }, s)
    | rpc_failed ↦ (refusal rpc_failed, s)
    | token_invalid ↦ (refusal rpc_failed, s)
    | uid_invalid ↦ (refusal rpc_failed, s)
    | passwd_err ↦ (refusal rpc_failed, s)
  ]

  abbrev pub after_login : Text → S → Option (Option ℕ) → Option (ServerInfo × S)
  after_login token s none = none
  after_login token s (some none) = some (refusal passwd_err, s)
  after_login token s (some (some id)) = some (info id (get_chat_server (pos id) token s))

  abbrev pub answered : Text → S → Outcome (Option (Option ℕ)) → Option (ServerInfo × S)
  answered token s (ok r) = after_login token s r
  answered token s (raised e) = none

  -- `/get_server`; `none` is a comparison of hashes that leaves its buffer.
  unfoldable pub get_server_handler :
      (Text → Text) → Text → Text → Text → S → World → Option (ServerInfo × S)
  get_server_handler decode name passwd_hash token s w =
      answered token s (login_valid decode name passwd_hash w).0
