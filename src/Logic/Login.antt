-- ===== src/Logic/Login.antt =====
-- `LoginHandler` of Server/SessionServer/LogicSystem.cpp with `GetBaseInfo`, and `DealExceptionSession`
-- of Session.cpp, which ends what a login began. The writer and reader of the JSON of a user are
-- parameters. The lock around the binding is taken and given back within it.
pub mod Session
pub mod End
pub mod Sweep
use my_music.Base.{
  ℤ, Bool, true, false, Option, none, some, Text, text_eq, List, [], ◌∷◌, ◌++◌, if◌then◌else◌,
}
use my_music.Redis.{
  Redis, user_token, user_ip, user_session, user_base_info, redis_get, redis_set, redis_del,
  redis_expire,
}
use my_music.Redis.Counts.{increase_count}
use my_music.Registry.{Registry, get_session, clear_session, bind_user}
use my_music.Sql.{Sql, ◌>>=◌, pure}
use my_music.Dao.Reading.{UserInfo, get_user_info}
use my_music.Dao.Lists.{MusicInfo, get_all_music_info}
use my_music.Logic.{
  ErrorCode, success, token_invalid, uid_invalid, ether_invalid, token_expire_time,
}

pub record LoginReq : Type 0 where
  pub uid : ℤ
  pub token : Text

pub record LoginRsp : Type 0 where
  pub error : ErrorCode
  pub user_self_info : Option UserInfo
  pub music_list : List MusicInfo
  pub token : Option Text

-- What a login works on, besides the database: Redis, the sessions, the notices to clients (the session
-- and the uid, `NotifyOffline`) and the calls to servers (`NotifyKickUser`, by the server's name).
pub record Desk (S : Type 0) : Type 0 where
  pub store : S
  pub registry : Registry
  pub notices : List (Text × ℤ)
  pub kicks : List (Text × ℤ)

module _ {S : Type 0} (redis : Redis S) where
  abbrev pub compare_token : ℤ → Text → Option Text → S → ErrorCode × S
  compare_token uid token none s = (uid_invalid, s)
  compare_token uid token (some v) s =
      if text_eq v token
      then (success, (redis_del redis (user_token uid) s).1)
      else (token_invalid, s)

  -- A token is good for one login: it is deleted when it is accepted.
  unfoldable pub take_token : ℤ → Text → S → ErrorCode × S
  take_token uid token s = compare_token uid token (redis_get redis (user_token uid) s) s

  abbrev pub notify_offline : ℤ → Option Text → Desk S → Desk S
  notify_offline uid none d = d
  notify_offline uid (some old) d = record d {
    notices = d.notices ++ (old, uid) ∷ [];
    registry = clear_session old d.registry;
  }

  abbrev pub kick_from : Text → ℤ → Text → Desk S → Desk S
  kick_from server_name uid ip d =
      let d' =
        if text_eq ip server_name then notify_offline uid (get_session uid d.registry) d else d in
      record d' { kicks = d'.kicks ++ (ip, uid) ∷ [] }

  -- The login that is there already.
  abbrev pub kick_previous : Text → ℤ → Option Text → Desk S → Desk S
  kick_previous server_name uid none d = d
  kick_previous server_name uid (some ip) d = kick_from server_name uid ip d

  abbrev pub bind_session : Text → ℤ → Text → Desk S → Desk S
  bind_session server_name uid id d = record d {
    registry = bind_user uid id d.registry;
    store =
        (redis_set redis (user_session uid) id
          (redis_set redis (user_ip uid) server_name d.store).1).1;
  }

  -- The binding: what stands in the scope of the lock.
  unfoldable pub enter : Text → ℤ → Text → Desk S → Desk S
  enter server_name uid id d =
      bind_session server_name uid id
        (kick_previous server_name uid (redis_get redis (user_ip uid) d.store) d)

  -- The session's token, with its time to live.
  abbrev pub issue : ℤ → Text → S → S
  issue uid new s =
      (redis_expire redis (user_token uid) token_expire_time
        (redis_set redis (user_token uid) new s).1).1

  abbrev pub refused : ErrorCode → Option UserInfo → LoginRsp
  refused e u = record { error = e; user_self_info = u; music_list = []; token = none }

  abbrev pub counted :
      ℤ → Text → UserInfo → List MusicInfo → Desk S → Option S → Option (LoginRsp × Desk S)
  counted uid new u l d none = none
  counted uid new u l d (some s) = some (
    record { error = success; user_self_info = some u; music_list = l; token = some new },
    record d { store = issue uid new s },
  )

  -- Behind the lists: `none` is an exception of the count, which nothing catches.
  unfoldable pub finish_login :
      Text → ℤ → Text → Text → UserInfo → List MusicInfo → Desk S → Option (LoginRsp × Desk S)
  unfolding enter
  finish_login server_name uid id new u l d =
      let d' = enter server_name uid id d in
      counted uid new u l d' (increase_count redis server_name d'.store)

  abbrev pub with_list :
      Text
      → ℤ
      → Text
      → Text
      → UserInfo
      → Desk S
      → Option (List MusicInfo)
      → Option (LoginRsp × Desk S)
  with_list server_name uid id new u d none = some (refused ether_invalid (some u), d)
  with_list server_name uid id new u d (some l) = finish_login server_name uid id new u l d

  module _ (write_json : UserInfo → Text) (read_json : Text → UserInfo) where
    abbrev pub cache : ℤ → S → Option UserInfo → Option UserInfo × S
    cache uid s none = (none, s)
    cache uid s (some u) = (some u, (redis_set redis (user_base_info uid) (write_json u) s).1)

    abbrev pub cached : ℤ → S → Option Text → Sql (Option UserInfo × S)
    cached uid s (some t) = pure (some (read_json t), s)
    cached uid s none = do u ← get_user_info uid; pure (cache uid s u)

    unfoldable pub get_base_info : ℤ → S → Sql (Option UserInfo × S)
    get_base_info uid s = cached uid s (redis_get redis (user_base_info uid) s)

    abbrev pub with_info :
        Text → ℤ → Text → Text → Desk S → Option UserInfo × S → Sql (Option (LoginRsp × Desk S))
    with_info server_name uid id new d (none, s) =
        pure (some (refused uid_invalid none, record d { store = s }))
    with_info server_name uid id new d (some u, s) = do
      l ← get_all_music_info uid
      pure (with_list server_name uid id new u (record d { store = s }) l)

    abbrev pub with_token :
        Text → ℤ → Text → Text → Desk S → ErrorCode × S → Sql (Option (LoginRsp × Desk S))
    with_token server_name uid id new d (success, s) = do
      r ← get_base_info uid s
      with_info server_name uid id new d r
    with_token server_name uid id new d (e, s) =
        pure (some (refused e none, record d { store = s }))

    -- `id` is the session, `new` what `generate_session_token` gives.
    unfoldable pub login_handler :
        Text → LoginReq → Text → Text → Desk S → Sql (Option (LoginRsp × Desk S))
    login_handler server_name r id new d =
        with_token server_name r.uid id new d (take_token r.uid r.token d.store)

  abbrev pub del_session_keys : ℤ → S → S
  del_session_keys uid s =
      (redis_del redis (user_token uid)
        (redis_del redis (user_ip uid) (redis_del redis (user_session uid) s).1).1).1

  abbrev pub same_session : ℤ → Text → Option Text → S → S
  same_session uid id none s = s
  same_session uid id (some v) s = if text_eq v id then del_session_keys uid s else s

  -- `DealExceptionSession`; `locked` says whether the lock was got.
  unfoldable pub deal_exception_session : Bool → Text → S × Registry → S × Registry
  deal_exception_session locked id (s, r) =
      let uid = r.uid_of id in
      (
        if locked then same_session uid id (redis_get redis (user_session uid) s) s else s,
        clear_session id r,
      )
