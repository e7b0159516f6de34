-- ===== src/Dao/Lists.antt =====
-- The lists of music of Server/SessionServer/MysqlDao.cpp: GetAllMusicInfo, getPlaylistSongs and
-- getSongListPageInfo, with the combined calls of MysqlManager.cpp. A join is read off the tables, in the
-- order of their rows; of a subquery for one row the first is taken.
pub mod Shown
pub mod Edited
use my_music.Base.{
  ℕ, ℤ, pos, eq_int, is_positive, Bool, true, false, ◌&&◌, Option, none, some, Text, List, [], ◌∷◌,
  ◌++◌, first, select, exists_in, ◌==◌, if◌then◌else◌,
}
use my_music.Sql.{
  Sql, World, Outcome, ok, raised, User, SongRow, AlbumRow, ArtistRow, FileRow, PlaylistRow, Link,
  Entry, ◌>>=◌, pure, query, with_connection, catch_sql,
}
use my_music.Dao.Reading.{path_of_file}
use my_music.Dao.Playlists.{is_entry, entries_of, order_by_position, get_playlist_id}

pub record MusicInfo : Type 0 where
  pub id : ℕ
  pub title : Text
  pub album : Text
  pub song_icon : Text
  pub artists : Text
  pub album_artists : Text
  pub file_url : Text
  pub duration : ℕ
  pub is_like : Bool

pub record SongListPageInfo : Type 0 where
  pub title : Text
  pub songlist_icon : Text
  pub description : Text
  pub author : Text
  pub author_icon : Text
  pub create_time : Text

-- The names behind the links of one song or album.
abbrev pub artist_name : ℕ → List ArtistRow → List Text
artist_name i [] = []
artist_name i (r ∷ rows) = if r.id == i then r.name ∷ [] else artist_name i rows

abbrev pub linked_names : ℕ → List Link → World → List Text
linked_names owner [] w = []
linked_names owner (l ∷ links) w =
    let rest = linked_names owner links w in
    if l.owner == owner then artist_name l.artist w.artists ++ rest else rest

-- DISTINCT, by the engine's test; the first of equal names stays.
abbrev pub distinct_names : (Text → Text → Bool) → List Text → List Text → List Text
distinct_names same seen [] = []
distinct_names same seen (t ∷ ts) =
    let rest = distinct_names same (t ∷ seen) ts in
    if exists_in (λ u. same u t) seen then rest else t ∷ rest

-- SEPARATOR '/ '
abbrev pub concat_names : List Text → Text
concat_names [] = []
concat_names (t ∷ []) = t
concat_names (t ∷ u ∷ ts) = t ++ b'/' ∷ b' ' ∷ concat_names (u ∷ ts)

-- GROUP_CONCAT; `getString` of NULL is "".
abbrev pub group_concat : World → List Text → Text
group_concat w names = concat_names (distinct_names w.engine.same_text [] names)

-- SELECT id FROM playlists WHERE user_id = ? AND is_default = 1
abbrev pub is_default_of : ℤ → PlaylistRow → Bool
is_default_of user r = eq_int (pos r.user_id) user && r.is_default

abbrev pub liked_by : Option PlaylistRow → ℕ → World → Bool
liked_by none s w = false
liked_by (some r) s w = exists_in (is_entry (pos r.id) (pos s)) w.playlist_songs

abbrev pub is_like_of : ℤ → ℕ → World → Bool
is_like_of user s w = liked_by (first (is_default_of user) w.playlists) s w

abbrev pub music_of : ℤ → World → SongRow → AlbumRow → MusicInfo
music_of user w s a = record {
  id = s.id;
  title = s.title;
  album = a.title;
  song_icon = path_of_file a.cover_url_id w.file_map;
  artists = group_concat w (linked_names s.id w.song_artists w);
  album_artists = group_concat w (linked_names a.id w.album_artists w);
  file_url = s.file_url;
  duration = s.duration;
  is_like = is_like_of user s.id w;
}

-- JOIN albums: no row for a song without its album.
abbrev pub album_row : ℕ → World → Option AlbumRow
album_row i w = first (λ (a : AlbumRow). a.id == i) w.albums

abbrev pub with_album : ℤ → World → SongRow → Option AlbumRow → List MusicInfo
with_album user w s none = []
with_album user w s (some a) = music_of user w s a ∷ []

abbrev pub shown : ℤ → World → SongRow → List MusicInfo
shown user w s = with_album user w s (album_row s.album_id w)

abbrev pub shown_all : ℤ → World → List SongRow → List MusicInfo
shown_all user w [] = []
shown_all user w (s ∷ rows) = shown user w s ++ shown_all user w rows

unfoldable pub get_all_music_info : ℤ → Sql (Option (List MusicInfo))
get_all_music_info user =
    with_connection none (catch_sql none (query (λ w. some (shown_all user w w.songs))))

-- JOIN songs
abbrev pub shown_song : ℤ → World → Option SongRow → List MusicInfo
shown_song user w none = []
shown_song user w (some s) = shown user w s

abbrev pub song_of : ℕ → World → Option SongRow
song_of i w = first (λ (s : SongRow). s.id == i) w.songs

abbrev pub shown_entries : ℤ → World → List Entry → List MusicInfo
shown_entries user w [] = []
shown_entries user w (e ∷ es) = shown_song user w (song_of e.song_id w) ++ shown_entries user w es

unfoldable pub get_playlist_songs : ℤ → ℤ → Sql (List MusicInfo)
get_playlist_songs p user =
    with_connection []
      (catch_sql [] (query (λ w. shown_entries user w (order_by_position (entries_of p w)))))

-- JOIN user: no row for a playlist without its user. `created_at` is what the database recorded.
abbrev pub page_of : (ℕ → Text) → World → PlaylistRow → Option User → Option SongListPageInfo
page_of created_at w p none = none
page_of created_at w p (some u) = some (record {
  title = p.name;
  songlist_icon = path_of_file p.cover_url_id w.file_map;
  description = p.description;
  author = u.name;
  author_icon = u.icon;
  create_time = created_at p.id;
})

abbrev pub page_row : (ℕ → Text) → World → Option PlaylistRow → Option SongListPageInfo
page_row created_at w none = none
page_row created_at w (some p) =
    page_of created_at w p (first (λ (u : User). u.id == p.user_id) w.users)

unfoldable pub get_song_list_page_info : (ℕ → Text) → ℤ → Sql (Option SongListPageInfo)
get_song_list_page_info created_at p = with_connection none (
    catch_sql none (
      query (λ w.
        page_row created_at w (first (λ (r : PlaylistRow). eq_int (pos r.id) p) w.playlists))))

-- MysqlManager, by the playlist's name.
unfoldable pub get_named_playlist_songs : ℤ → Text → Sql (List MusicInfo)
get_named_playlist_songs user name = do
  p ← get_playlist_id user name
  if is_positive p then get_playlist_songs p user else pure []

unfoldable pub get_named_page_info : (ℕ → Text) → ℤ → Text → Sql (Option SongListPageInfo)
get_named_page_info created_at user name = do
  p ← get_playlist_id user name
  if is_positive p then get_song_list_page_info created_at p else pure none
