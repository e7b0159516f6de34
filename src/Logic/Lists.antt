-- ===== src/Logic/Lists.antt =====
-- GetSongListPageInfoHandler and GetCollectSongListHandler of Server/SessionServer/LogicSystem.cpp.
use my_music.Base.{ℕ, ℤ, Option, none, some, Text, List, [], ◌∷◌, if◌then◌else◌}
use my_music.Sql.{Sql, ◌>>=◌, pure}
use my_music.Redis.{Redis}
use my_music.Dao.Lists.{MusicInfo, SongListPageInfo, get_named_playlist_songs, get_named_page_info}
use my_music.Logic.{ErrorCode, success, token_invalid, ether_invalid, liked_music, check_token}

-- An empty list is taken for a failure.
abbrev pub list_answer : List MusicInfo → ErrorCode × List MusicInfo
list_answer [] = (ether_invalid, [])
list_answer (m ∷ l) = (success, m ∷ l)

abbrev pub page_answer : Option SongListPageInfo → ErrorCode × Option SongListPageInfo
page_answer none = (ether_invalid, none)
page_answer (some p) = (success, some p)

module _ {S : Type 0} (redis : Redis S) where
  unfoldable pub song_list_page_info_handler :
      ℤ → Text → Text → S → Sql (ErrorCode × List MusicInfo)
  song_list_page_info_handler user token playlist_name s =
      if check_token redis user token s
      then (do l ← get_named_playlist_songs user playlist_name; pure (list_answer l))
      else pure (token_invalid, [])

  unfoldable pub collect_song_list_handler :
      (ℕ → Text) → ℤ → Text → S → Sql (ErrorCode × Option SongListPageInfo)
  collect_song_list_handler created_at user token s =
      if check_token redis user token s
      then (do p ← get_named_page_info created_at user liked_music; pure (page_answer p))
      else pure (token_invalid, none)
