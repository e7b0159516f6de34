-- ===== src/Registry.antt =====
-- The sessions that the session server holds, by their id, and the session of each user:
-- Server/SessionServer/Server.cpp and UserManager.cpp, with the uid of each session object.
pub mod Bound
use my_music.Base.{
  ℕ, ◌-◌, ltb, ℤ, pos, eq_int, Bool, true, false, Option, none, some, Text, text_eq, if◌then◌else◌,
}

pub record Registry : Type 0 where
  -- `Server::_sessions`: which ids are in it.
  pub held : Text → Bool
  -- `UserManager::_sessions`.
  pub users : ℤ → Option Text
  -- `Session::_user_uid`.
  pub uid_of : Text → ℤ

abbrev pub at_text : {A : Type 0} → Text → A → (Text → A) → Text → A
at_text k v f k' = if text_eq k' k then v else f k'

abbrev pub at_int : {A : Type 0} → ℤ → A → (ℤ → A) → ℤ → A
at_int k v f k' = if eq_int k' k then v else f k'

unfoldable pub get_session : ℤ → Registry → Option Text
get_session uid r = r.users uid

abbrev pub add_session : ℤ → Text → Registry → Registry
add_session uid id r = record r { users = at_int uid (some id) r.users }

abbrev pub remove_found : ℤ → Text → Option Text → Registry → Registry
remove_found uid id none r = r
remove_found uid id (some s) r =
    if text_eq s id then record r { users = at_int uid none r.users } else r

abbrev pub remove_session : ℤ → Text → Registry → Registry
remove_session uid id r = remove_found uid id (r.users uid) r

abbrev pub erase_session : Text → Registry → Registry
erase_session id r = record r { held = at_text id false r.held }

unfoldable pub clear_session : Text → Registry → Registry
clear_session id r = erase_session id (if r.held id then remove_session (r.uid_of id) id r else r)

abbrev pub check_valid : Text → Registry → Bool
check_valid id r = r.held id

-- `HandleAccept` of a new session, whose uid is 0.
unfoldable pub handle_accept : Text → Registry → Registry
handle_accept id r = record r {
  held = at_text id true r.held;
  uid_of = at_text id (pos 0) r.uid_of;
}

-- The part of `LoginHandler` that binds the session: `SetUserUid`, then `AddSession`.
unfoldable pub bind_user : ℤ → Text → Registry → Registry
bind_user uid id r = add_session uid id (record r { uid_of = at_text id uid r.uid_of })

-- `NotifyKickUser`, after the notice to the client.
abbrev pub kick_found : Option Text → Registry → Registry
kick_found none r = r
kick_found (some id) r = clear_session id r

pub notify_kick_user : ℤ → Registry → Registry
unfolding get_session
notify_kick_user uid r = kick_found (get_session uid r) r

-- `Session::IsHeartbeatExpired`, in whole seconds; the last heartbeat is not in the future.
abbrev pub heartbeat_expire_time : ℕ
heartbeat_expire_time = 60

unfoldable pub is_heartbeat_expired : ℕ → ℕ → Bool
is_heartbeat_expired now last_heartbeat = ltb heartbeat_expire_time (now - last_heartbeat)
