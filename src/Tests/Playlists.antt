-- ===== src/Tests/Playlists.antt =====
-- The playlist methods on the small database.
use my_music.Base.{ℕ, pos, true, [], ◌∷◌, ◌≡◌, ◌≢◌, refl, arith, codes}
use my_music.Sql.{AlbumRow, ok}
use my_music.Dao.Playlists.{
  create_playlist_song, delete_and_renumber, update_playlist_song_position, entries_of,
}
use my_music.Dao.Playlists.Commands.{Command, add, remove, execute_all, execute_all-refines}
use my_music.Dao.Playlists.Entries.{songs}
use my_music.Dao.Playlists.Collect.{IsPlaylist, create_playlist_song-appends}
use my_music.Dao.Playlists.Uncollect.{Removed, delete_and_renumber-removes}
use my_music.Dao.Playlists.Atomic.{Settled, update_playlist_song_position-Settled}
use my_music.Dao.Reading.{get_user_info_by_name, get_user_info_by_name-none}
use my_music.Dao.Lists.{MusicInfo, get_named_playlist_songs}
use my_music.Dao.Lists.Shown.{ids}
use my_music.Dao.Lists.Edited.{get_named_playlist_songs-execute_all}
use my_music.Base.{none, List}
use my_music.Tests.Tables.{liked, library, failing, library-IsHealthy, library-IsPlaylist, to_liked}

create_playlist_song-appends_example :
    ((create_playlist_song to_liked library).0 ≡ ok tt)
    × (songs (entries_of (pos 3) (create_playlist_song to_liked library).1) ≡ 7 ∷ 8 ∷ 9 ∷ [])
    × IsPlaylist 3 (create_playlist_song to_liked library).1
    × ((q : ℕ)
        → q ≢ 3
        → entries_of (pos q) (create_playlist_song to_liked library).1 ≡ entries_of (pos q) library)
create_playlist_song-appends_example =
    create_playlist_song-appends 3 9 to_liked library library-IsHealthy library-IsPlaylist refl refl
      refl refl (omega arith, (omega arith, tt))

delete_and_renumber-removes_example :
    ((delete_and_renumber (pos 3) (pos 7) library).0 ≡ ok true)
    × Removed 3 7 library (delete_and_renumber (pos 3) (pos 7) library).1
delete_and_renumber-removes_example =
    delete_and_renumber-removes 3 7 library library-IsHealthy library-IsPlaylist

update_playlist_song_position-Settled_example :
    Settled (pos 3) failing (update_playlist_song_position (pos 3) failing)
update_playlist_song_position-Settled_example =
    update_playlist_song_position-Settled (pos 3) failing

get_user_info_by_name-none_example : (get_user_info_by_name (codes "ann") library).0 ≡ ok none
get_user_info_by_name-none_example = get_user_info_by_name-none (codes "ann") library

abbrev library_album : AlbumRow
library_album = record {
  id = 2;
  title = codes "x";
  release_date = [];
  cover_url_id = 1;
  description = [];
}

abbrev edits : List Command
edits = remove 7 ∷ add 9 ∷ add 8 ∷ add 7 ∷ []

execute_all-refines_example :
    (songs (entries_of (pos 3) (execute_all (pos 1) liked edits library)) ≡ 8 ∷ 9 ∷ 7 ∷ [])
    × IsPlaylist 3 (execute_all (pos 1) liked edits library)
execute_all-refines_example =
    execute_all-refines (pos 1) liked 3 edits library (omega arith)
      (record { healthy = library-IsHealthy; listed = library-IsPlaylist; found = refl })
      (tt, (refl, (refl, (refl, tt))))

get_named_playlist_songs-execute_all_example :
    (l : List MusicInfo) × ((get_named_playlist_songs
        (pos 1)
        liked
        (execute_all (pos 1) liked edits library)).0
      ≡ ok l)
    × (ids l ≡ 8 ∷ 9 ∷ 7 ∷ [])
get_named_playlist_songs-execute_all_example =
    get_named_playlist_songs-execute_all (pos 1) liked 3 edits library (omega arith)
      (record { healthy = library-IsHealthy; listed = library-IsPlaylist; found = refl })
      (tt, (refl, (refl, (refl, tt)))) (refl, (refl, tt))
      ((library_album, refl), ((library_album, refl), ((library_album, refl), tt)))
