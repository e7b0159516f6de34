-- ===== src/Sql/Insert.antt =====
-- The INSERT statements of Server/SessionServer/MysqlDao.cpp that go through `insertRecord`, with
-- the constraints that Server/resoure/sql declares: 1062 is a duplicate key, 1452 a missing foreign
-- key, 1264 a value out of a column's range, 1292 a bad date. Lengths of texts are not limited.
use my_music.Base.{
  ℕ, suc, Text, ℤ, pos, negsuc, minus_one, Bool, true, false, ◌&&◌, Option, none, some, List, [],
  ◌∷◌, ◌++◌, ◌==◌, if◌then◌else◌, exists_in,
}
use my_music.Sql.{
  Sql, ok, raised, sql_exception, User, ArtistRow, PlaylistRow, ◌>>=◌, ◌>>◌, statement,
  with_connection, catch_sql, pure,
}

pub data Record : Type 0 where
  artist : Text → Record
  -- title, release_date, cover_url_id, description
  album : Text → Text → ℤ → Text → Record
  -- user_id, name, description, cover_url_id, is_default
  playlist : ℤ → Text → Text → ℤ → Bool → Record
  -- storage_path, mime_type, created_by
  file : Text → Text → ℤ → Record

abbrev pub same_bool : Bool → Bool → Bool
same_bool true b = b
same_bool false true = false
same_bool false false = true

-- An INT UNSIGNED column: `none` is out of range.
abbrev pub unsigned : ℤ → Option ℕ
unsigned (pos n) = some n
unsigned (negsuc n) = none

abbrev pub has_user : ℕ → List User → Bool
has_user u = exists_in (λ (r : User). r.id == u)

-- uniq_user_default
abbrev pub has_default : ℕ → Bool → List PlaylistRow → Bool
has_default u d = exists_in (λ (r : PlaylistRow). r.user_id == u && same_bool r.is_default d)

abbrev pub refuse : {A : Type 0} → ℕ → Sql A
refuse c w = (raised (sql_exception c), w)

insert_album : Text → Text → Text → Option ℕ → Sql ℕ
insert_album title date description none w = refuse 1264 w
insert_album title date description (some cover) w =
    if w.engine.accepts_date date
    then (
      ok w.next_album,
      record w {
        db = record w.db {
          albums =
              w.albums
              ++ record {
                id = w.next_album;
                title = title;
                release_date = date;
                cover_url_id = cover;
                description = description;
              }
                ∷ [];
          next_album = suc w.next_album;
        };
      },
    )
    else refuse 1292 w

add_playlist : ℕ → Text → Text → ℕ → Bool → Sql ℕ
add_playlist u name description cover is_default w = (
  ok w.next_playlist,
  record w {
    db = record w.db {
      playlists =
          w.playlists
          ++ record {
            id = w.next_playlist;
            user_id = u;
            name = name;
            description = description;
            cover_url_id = cover;
            is_default = is_default;
          }
            ∷ [];
      next_playlist = suc w.next_playlist;
    };
  },
)

insert_playlist : Option ℕ → Text → Text → Option ℕ → Bool → Sql ℕ
unfolding add_playlist
insert_playlist (some u) name description (some cover) is_default w =
    if has_user u w.users
    then if has_default u is_default w.playlists
      then refuse 1062 w
      else add_playlist u name description cover is_default w
    else refuse 1452 w
insert_playlist (some u) name description none is_default w = refuse 1264 w
insert_playlist none name description cover is_default w = refuse 1264 w

-- Runs the INSERT and returns LAST_INSERT_ID().
execute_insert : Record → Sql ℕ
unfolding insert_album insert_playlist
execute_insert (artist name) w =
    if exists_in (λ (r : ArtistRow). w.engine.same_text r.name name) w.artists
    then refuse 1062 w
    else (
      ok w.next_artist,
      record w {
        db = record w.db {
          artists = w.artists ++ record { id = w.next_artist; name = name } ∷ [];
          next_artist = suc w.next_artist;
        };
      },
    )
execute_insert (album title date cover description) w =
    insert_album title date description (unsigned cover) w
execute_insert (playlist u name description cover is_default) w =
    insert_playlist (unsigned u) name description (unsigned cover) is_default w
execute_insert (file path mime by) w = (
  ok w.next_file,
  record w {
    db = record w.db {
      file_map =
          w.file_map
          ++ record { id = w.next_file; storage_path = path; mime_type = mime; created_by = by }
            ∷ [];
      next_file = suc w.next_file;
    };
  },
)

-- The INSERT, and the query for the id that it made.
pub insertion : Record → Sql ℤ
unfolding execute_insert
insertion r = do statement; id ← execute_insert r; statement; pure (pos id)

unfoldable pub insert_record : Record → Sql ℤ
unfolding insertion
insert_record r = with_connection minus_one (catch_sql minus_one (insertion r))
