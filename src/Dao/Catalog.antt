-- ===== src/Dao/Catalog.antt =====
-- Artists, albums, songs and their links in Server/SessionServer/MysqlDao.cpp.
use mathlib.Core.Option
use my_music.Base.{
  ℕ, suc, Text, ℤ, pos, negsuc, minus_one, eq_int, Bool, not, ◌&&◌, Option, none, some, List, [],
  ◌∷◌, ◌++◌, ◌==◌, if◌then◌else◌, null, first, exists_in, leb,
}
use my_music.Sql.{
  Sql, World, ok, runtime_error, ArtistRow, AlbumRow, SongRow, Link, ◌>>=◌, ◌>>◌, pure, throw,
  change, statement, query, with_connection, catch_sql,
}
use my_music.Sql.Insert.{insert_record, unsigned, refuse}
use my_music.Sql.Insert

-- The table and column names that the callers of `getIDFromTable` pass.
pub data Column : Type 0 where
  artists_name albums_title : Column

pub record Album : Type 0 where
  pub title : Text
  pub artist_name : Text
  pub release_date : Text
  pub cover_url_id : ℤ
  pub description : Text

pub record Song : Type 0 where
  pub title : Text
  pub album_title : Text
  pub duration : ℤ
  pub track_number : ℤ
  pub file_url : Text
  pub artist_names : List Text

abbrev pub missing : ℤ → Bool
missing i = eq_int i minus_one

abbrev pub id_or_minus_one : Option ℕ → ℤ
id_or_minus_one none = minus_one
id_or_minus_one (some i) = pos i

abbrev pub named_id : Column → Text → World → Option ℕ
named_id artists_name v w =
    Option.map (λ (r : ArtistRow). r.id)
      (first (λ (r : ArtistRow). w.engine.same_text r.name v) w.artists)
named_id albums_title v w =
    Option.map (λ (r : AlbumRow). r.id)
      (first (λ (r : AlbumRow). w.engine.same_text r.title v) w.albums)

unfoldable pub get_id_from_table : Column → Text → Sql ℤ
get_id_from_table c v =
    with_connection minus_one (catch_sql minus_one (query (λ w. id_or_minus_one (named_id c v w))))

pub record_exists : Column → Text → Sql Bool
unfolding get_id_from_table
record_exists c v = do id ← get_id_from_table c v; pure (not (missing id))

unfoldable pub get_or_create_artist : Text → Sql ℤ
unfolding get_id_from_table insert_record
get_or_create_artist name = do
  id ← get_id_from_table artists_name name
  if missing id then insert_record (Insert.artist name) else pure id

abbrev pub linked : ℤ → ℤ → List Link → Bool
linked owner artist =
    exists_in (λ (l : Link). eq_int (pos l.owner) owner && eq_int (pos l.artist) artist)

abbrev pub has_artist : ℕ → World → Bool
has_artist a w = exists_in (λ (r : ArtistRow). r.id == a) w.artists

abbrev pub has_album : ℕ → World → Bool
has_album a w = exists_in (λ (r : AlbumRow). r.id == a) w.albums

abbrev pub has_song : ℕ → World → Bool
has_song s w = exists_in (λ (r : SongRow). r.id == s) w.songs

insert_album_artist : Option ℕ → Option ℕ → Sql (Unit {0})
insert_album_artist (some album) (some artist) w =
    if has_album album w && has_artist artist w
    then change
        (λ d. record d {
          album_artists = d.album_artists ++ record { owner = album; artist = artist } ∷ [];
        })
        w
    else refuse 1452 w
insert_album_artist _ _ w = refuse 1264 w

insert_song_artist : Option ℕ → Option ℕ → Sql (Unit {0})
insert_song_artist (some song) (some artist) w =
    if has_song song w && has_artist artist w
    then change
        (λ d. record d {
          song_artists = d.song_artists ++ record { owner = song; artist = artist } ∷ [];
        })
        w
    else refuse 1452 w
insert_song_artist _ _ w = refuse 1264 w

unfoldable pub create_album_artist_if_not_exists : ℤ → ℤ → Sql (Unit {0})
unfolding insert_album_artist
create_album_artist_if_not_exists album_id artist_id = with_connection tt (
    catch_sql tt (do
      found ← query (λ w. linked album_id artist_id w.album_artists)
      if found
          then pure tt
          else (statement >> insert_album_artist (unsigned album_id) (unsigned artist_id))))

unfoldable pub create_song_artist_if_not_exists : ℤ → ℤ → Sql (Unit {0})
unfolding insert_song_artist
create_song_artist_if_not_exists song_id artist_id = with_connection tt (
    catch_sql tt (do
      found ← query (λ w. linked song_id artist_id w.song_artists)
      if found
          then pure tt
          else (statement >> insert_song_artist (unsigned song_id) (unsigned artist_id))))

-- The artist of a new album.
link_album : Text → ℤ → Sql ℤ
unfolding get_or_create_artist create_album_artist_if_not_exists
link_album artist_name album_id = if null artist_name then pure album_id else (do
  artist_id ← get_or_create_artist artist_name
  if missing artist_id then pure tt else create_album_artist_if_not_exists album_id artist_id
  pure album_id)

-- The part of `getOrCreateAlbum` below its first test.
create_album : Album → Sql ℤ
unfolding insert_record link_album
create_album a = do
  id ← insert_record (Insert.album a.title a.release_date a.cover_url_id a.description)
  if missing id then pure id else link_album a.artist_name id

unfoldable pub get_or_create_album : Album → Sql ℤ
unfolding get_id_from_table create_album
get_or_create_album a = do
  id ← get_id_from_table albums_title a.title
  if missing id then create_album a else pure id

abbrev pub song_id : Text → ℤ → World → Option ℕ
song_id title album w =
    Option.map (λ (r : SongRow). r.id)
      (first (λ (r : SongRow). w.engine.same_text r.title title && eq_int (pos r.album_id) album)
        w.songs)

-- SMALLINT UNSIGNED.
abbrev pub small_unsigned : ℤ → Option ℕ
small_unsigned (pos n) = if leb n 65535 then some n else none
small_unsigned (negsuc n) = none

insert_song_row : Text → Text → Option ℕ → Option ℕ → Option ℕ → Sql ℕ
insert_song_row title url (some album) (some duration) (some track) w =
    if has_album album w
    then (
      ok w.next_song,
      record w {
        db = record w.db {
          songs =
              w.songs
              ++ record {
                id = w.next_song;
                title = title;
                album_id = album;
                duration = duration;
                track_number = track;
                file_url = url;
              }
                ∷ [];
          next_song = suc w.next_song;
        };
      },
    )
    else refuse 1452 w
insert_song_row title url _ _ _ w = refuse 1264 w

link_artists : ℤ → List Text → Sql (Unit {0})
unfolding get_or_create_artist create_song_artist_if_not_exists
link_artists id [] = pure tt
link_artists id (name ∷ names) = do
  artist_id ← get_or_create_artist name
  if missing artist_id then pure tt else create_song_artist_if_not_exists id artist_id
  link_artists id names

create_song : Song → ℤ → Sql ℤ
unfolding insert_song_row link_artists
create_song s album_id = do
  statement
  id ←
      insert_song_row s.title s.file_url (unsigned album_id) (unsigned s.duration)
        (small_unsigned s.track_number)
  statement
  link_artists (pos id) s.artist_names
  pure (pos id)

-- The album that `getOrCreateSong` asks for, in case the metadata never came.
abbrev pub bare_album : Text → Album
bare_album title = record {
  title = title;
  artist_name = [];
  release_date = [];
  cover_url_id = pos 1;
  description = [];
}

find_or_create_song : Song → ℤ → Sql ℤ
unfolding create_song
find_or_create_song s album_id = with_connection minus_one (do
  found ← catch_sql none (query (song_id s.title album_id))
  elim found [ some id ↦ pure (pos id) | none ↦ catch_sql minus_one (create_song s album_id) ])

unfoldable pub get_or_create_song : Song → Sql ℤ
unfolding get_or_create_album find_or_create_song
get_or_create_song s = do
  album_id ← get_or_create_album (bare_album s.album_title)
  if missing album_id then throw runtime_error else find_or_create_song s album_id
