-- ===== src/Logic.antt =====
-- Handlers of Server/SessionServer/LogicSystem.cpp that check a session token: the heartbeat and the
-- collecting of songs. A request is the record of the fields that its handler reads from the JSON.
pub mod Tokens
pub mod Login
pub mod Lists
pub mod Collecting
use my_music.Base.{
  ℕ, ◌<◌, ◌≡◌, ℤ, pos, eq_int, is_positive, Bool, true, false, ◌&&◌, Option, none, some, Text,
  text_eq, null, List, [], ◌∷◌, if◌then◌else◌,
}
use my_music.Redis.{Redis, user_token, redis_get, redis_expire}
use my_music.Sql.{World, Sql, Outcome, ok, raised, ◌>>=◌}
use my_music.Dao.Playlists.{
  Playlist, PlaylistSong, get_cover_url_id, get_or_create_playlist, create_playlist_song,
  delete_named_playlist_song,
}

pub data ErrorCode : Type 0 where
  success token_invalid uid_invalid ether_invalid : ErrorCode

abbrev pub token_expire_time : ℕ
token_expire_time = 1800

pub record HeartBeat : Type 0 where
  pub from_uid : ℤ
  pub token : Text

pub record CollectReq : Type 0 where
  pub song_id : ℤ
  pub status : Bool
  pub token : Text

pub record CollectRsp : Type 0 where
  pub error : ErrorCode
  pub song_id : ℤ
  pub status : Bool

-- 喜欢的音乐
abbrev pub liked_music : Text
liked_music =
    0xE5 ∷ 0x96 ∷ 0x9C ∷ 0xE6 ∷ 0xAC ∷ 0xA2 ∷ 0xE7 ∷ 0x9A ∷ 0x84 ∷ 0xE9 ∷ 0x9F ∷ 0xB3 ∷ 0xE4 ∷ 0xB9
    ∷ 0x90 ∷ []

abbrev pub liked_playlist : ℤ → ℤ → Playlist
liked_playlist user cover = record {
  user_id = user;
  name = liked_music;
  description = [];
  cover_url_id = cover;
  is_default = true;
}

abbrev pub liked_song : ℤ → ℤ → PlaylistSong
liked_song user song = record {
  playlist_name = liked_music;
  user_id = user;
  song_id = song;
  position = pos 0;
}

abbrev pub default_playlist : ℤ → ℤ → Sql ℤ
default_playlist user song = do
  cover ← get_cover_url_id song
  get_or_create_playlist (liked_playlist user cover)

-- `MysqlManager::createPlaylistSong`: an exception goes to `LOG(FATAL)`, which ends the process, `none`.
abbrev pub or_fatal : Outcome (Unit {0}) × World → Option (Outcome (Unit {0}) × World)
or_fatal (ok u, w) = some (ok u, w)
or_fatal (raised e, w) = none

abbrev pub then_add : ℤ → ℤ → Outcome ℤ × World → Option (Outcome (Unit {0}) × World)
then_add user song (ok i, w) = or_fatal (create_playlist_song (liked_song user song) w)
then_add user song (raised e, w) = some (raised e, w)

unfoldable pub collect_song : ℤ → ℤ → World → Option (Outcome (Unit {0}) × World)
collect_song user song w = then_add user song (default_playlist user song w)

abbrev pub forget : Outcome Bool × World → Outcome (Unit {0}) × World
forget (ok b, w) = (ok tt, w)
forget (raised e, w) = (raised e, w)

unfoldable pub uncollect_song : ℤ → ℤ → World → Option (Outcome (Unit {0}) × World)
uncollect_song user song w = some (forget (delete_named_playlist_song user liked_music song w))

abbrev pub error_of : Outcome (Unit {0}) → ErrorCode
error_of (ok u) = success
error_of (raised e) = ether_invalid

abbrev pub answer : CollectReq → ErrorCode → CollectRsp
answer r e = record { error = e; song_id = r.song_id; status = r.status }

abbrev pub respond : CollectReq → Option (Outcome (Unit {0}) × World) → Option (CollectRsp × World)
respond r none = none
respond r (some (o, w)) = some (answer r (error_of o), w)

abbrev pub matches : Text → Option Text → Bool
matches token none = false
matches token (some v) = text_eq v token

module _ {S : Type 0} (redis : Redis S) where
  unfoldable pub check_token : ℤ → Text → S → Bool
  check_token uid token s =
      if is_positive uid
      then if null token then false else matches token (redis_get redis (user_token uid) s)
      else false

  -- The answer, and Redis after it. `user` is the session's uid.
  unfoldable pub heart_beat_handler : ℤ → HeartBeat → S → ErrorCode × S
  heart_beat_handler user r s =
      if is_positive r.from_uid && (eq_int r.from_uid user && check_token r.from_uid r.token s)
      then (success, (redis_expire redis (user_token r.from_uid) token_expire_time s).1)
      else (token_invalid, s)

  -- The answer and the database after it; `none` is the end of the process. Redis is only read.
  unfoldable pub collect_song_handler : ℤ → CollectReq → S → World → Option (CollectRsp × World)
  collect_song_handler user r s w =
      if check_token user r.token s
      then respond r
          (if r.status then collect_song user r.song_id w else uncollect_song user r.song_id w)
      else some (answer r token_invalid, w)
