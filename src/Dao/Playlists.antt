-- ===== src/Dao/Playlists.antt =====
-- Playlists and their songs in Server/SessionServer/MysqlDao.cpp, and the calls of MysqlManager.cpp
-- that combine them. `ORDER BY position` is a stable insertion sort.
pub mod Entries
pub mod Renumber
pub mod Collect
pub mod Rows
pub mod Uncollect
pub mod Commands
pub mod Atomic
use mathlib.Core.Option
use my_music.Base.{
  ℕ, suc, Text, ℤ, pos, negsuc, minus_one, eq_int, is_positive, Bool, true, false, not, ◌&&◌,
  Option, none, some, List, [], ◌∷◌, ◌++◌, ◌==◌, if◌then◌else◌, first, select, exists_in, length,
  ◌+◌, max, leb, map, ltb,
}
use my_music.Sql.{
  Sql, World, Db, Outcome, ok, raised, runtime_error, sql_exception, SongRow, AlbumRow, PlaylistRow,
  Entry, ◌>>=◌, ◌>>◌, pure, throw, gets, change, statement, query, with_connection, catch_sql,
}
use my_music.Sql.Insert.{insert_record, unsigned, refuse}
use my_music.Sql.Insert
use my_music.Dao.Catalog.{id_or_minus_one, missing, has_song}

pub record Playlist : Type 0 where
  pub user_id : ℤ
  pub name : Text
  pub description : Text
  pub cover_url_id : ℤ
  pub is_default : Bool

pub record PlaylistSong : Type 0 where
  pub playlist_name : Text
  pub user_id : ℤ
  pub song_id : ℤ
  pub position : ℤ

-- SELECT id FROM playlists WHERE user_id = ? AND name = ?
abbrev pub playlist_id : ℤ → Text → World → Option ℕ
playlist_id user name w =
    Option.map (λ (r : PlaylistRow). r.id)
      (first (λ (r : PlaylistRow). eq_int (pos r.user_id) user && w.engine.same_text r.name name)
        w.playlists)

-- The search and the insertion are two `try` blocks; the second has no `return` behind its handler.
unfoldable pub get_or_create_playlist : Playlist → Sql ℤ
unfolding insert_record
get_or_create_playlist p = with_connection minus_one (do
  found ← catch_sql none (query (playlist_id p.user_id p.name))
  elim found [
    | some id ↦ pure (pos id)
    | none ↦
        insert_record (Insert.playlist p.user_id p.name p.description p.cover_url_id p.is_default)
  ])

abbrev pub in_playlist : ℕ → Entry → Bool
in_playlist p e = e.playlist_id == p

abbrev pub is_entry : ℤ → ℤ → Entry → Bool
is_entry p s e = eq_int (pos e.playlist_id) p && eq_int (pos e.song_id) s

-- SELECT MAX(position) FROM playlist_songs WHERE playlist_id = ?
abbrev pub greatest : List Entry → Option ℕ
greatest [] = none
greatest (e ∷ es) = elim (greatest es) [ none ↦ some e.position | some m ↦ some (max e.position m) ]

abbrev pub after : Option ℕ → ℕ
after none = 1
after (some m) = m + 1

-- `(ps.position > 0) ? ps.position : next_position`
abbrev pub chosen_position : ℤ → ℕ → ℕ
chosen_position (pos n) next = if ltb 0 n then n else next
chosen_position (negsuc n) next = next

insert_entry : Option ℕ → Option ℕ → ℕ → Sql (Unit {0})
insert_entry (some p) (some s) position w =
    if has_song s w
    then change
        (λ d. record d {
          playlist_songs =
              d.playlist_songs ++ record { playlist_id = p; song_id = s; position = position } ∷ [];
        })
        w
    else refuse 1452 w
insert_entry _ _ position w = refuse 1264 w

abbrev pub entries_of : ℤ → World → List Entry
entries_of p w = select (λ (e : Entry). eq_int (pos e.playlist_id) p) w.playlist_songs

add_entry : ℤ → PlaylistSong → Sql (Unit {0})
unfolding insert_entry
add_entry p ps = do
  known ← query (λ w. exists_in (is_entry p ps.song_id) w.playlist_songs)
  if known then pure tt else (do
    next ← query (λ w. after (greatest (entries_of p w)))
    statement
    insert_entry (unsigned p) (unsigned ps.song_id) (chosen_position ps.position next))

abbrev pub implied_playlist : PlaylistSong → Playlist
implied_playlist ps = record {
  user_id = ps.user_id;
  name = ps.playlist_name;
  description = [];
  cover_url_id = pos 1;
  is_default = false;
}

-- Every `SQLException` is swallowed, not only a duplicate key.
unfoldable pub create_playlist_song : PlaylistSong → Sql (Unit {0})
unfolding get_or_create_playlist add_entry
create_playlist_song ps = do
  id ← get_or_create_playlist (implied_playlist ps)
  if missing id then throw runtime_error else with_connection tt (catch_sql tt (add_entry id ps))

-- SELECT a.cover_url_id FROM songs s LEFT JOIN albums a; `getInt` of NULL is 0.
abbrev pub cover_of_album : ℕ → List AlbumRow → ℤ
cover_of_album a rows = elim (first (λ (r : AlbumRow). r.id == a) rows) [
  | none ↦ pos 0
  | some r ↦ pos r.cover_url_id
]

abbrev pub cover_of_song : ℤ → World → ℤ
cover_of_song s w = elim (first (λ (r : SongRow). eq_int (pos r.id) s) w.songs) [
  | none ↦ minus_one
  | some r ↦ cover_of_album r.album_id w.albums
]

unfoldable pub get_cover_url_id : ℤ → Sql ℤ
get_cover_url_id s = with_connection minus_one (catch_sql minus_one (query (cover_of_song s)))

unfoldable pub get_playlist_id : ℤ → Text → Sql ℤ
get_playlist_id user name =
    with_connection minus_one
      (catch_sql minus_one (query (λ w. id_or_minus_one (playlist_id user name w))))

abbrev pub delete_entry : ℤ → ℤ → Db → Db
delete_entry p s d = record d {
  playlist_songs = select (λ e. not (is_entry p s e)) d.playlist_songs;
}

remove_entry : ℤ → ℤ → Sql Bool
remove_entry p s = do
  affected ← query (λ w. length (select (is_entry p s) w.playlist_songs))
  change (delete_entry p s)
  pure (ltb 0 affected)

unfoldable pub delete_playlist_song : ℤ → ℤ → Sql Bool
unfolding remove_entry
delete_playlist_song p s = with_connection false (catch_sql false (remove_entry p s))

-- ORDER BY position
abbrev pub insert_sorted : Entry → List Entry → List Entry
insert_sorted e [] = e ∷ []
insert_sorted e (x ∷ xs) = if leb e.position x.position then e ∷ x ∷ xs else x ∷ insert_sorted e xs

abbrev pub order_by_position : List Entry → List Entry
order_by_position [] = []
order_by_position (e ∷ es) = insert_sorted e (order_by_position es)

-- UPDATE playlist_songs SET position = ? WHERE playlist_id = ? AND song_id = ?
abbrev pub move_entry : ℕ → ℤ → ℕ → Entry → Entry
move_entry n p s e = if is_entry p (pos s) e then record e { position = n } else e

abbrev pub set_position : ℕ → ℤ → ℕ → Db → Db
set_position n p s d = record d { playlist_songs = map (move_entry n p s) d.playlist_songs }

-- The loop over the result set, from `new_position`.
unfoldable pub renumber : ℤ → ℕ → List Entry → Sql (Unit {0})
renumber p n [] = pure tt
renumber p n (e ∷ es) = do
  if e.position == n then pure tt else (statement >> change (set_position n p e.song_id))
  renumber p (suc n) es

-- An exception rolls the transaction back.
abbrev pub settle : Db → Outcome Bool → World → Outcome Bool × World
settle old (ok b) w = (ok b, w)
settle old (raised (sql_exception c)) w = (ok false, record w { db = old })
settle old (raised runtime_error) w = (raised runtime_error, w)

-- SET autocommit, the query, the loop, COMMIT.
reposition : ℤ → Sql Bool
unfolding renumber
reposition p = do
  statement
  rows ← query (λ w. order_by_position (entries_of p w))
  renumber p 1 rows
  statement
  pure true

in_transaction : Sql Bool → Sql Bool
in_transaction m w = let (r, w') = m w in settle w.db r w'

-- After the commit only `setAutoCommit(true)` is left, whose failure undoes nothing.
unfoldable pub update_playlist_song_position : ℤ → Sql Bool
unfolding reposition in_transaction
update_playlist_song_position p = with_connection false (do
  done ← in_transaction (reposition p)
  if done then catch_sql false (statement >> pure true) else pure false)

-- MysqlManager::deletePlaylistSong, by playlist.
unfoldable pub delete_and_renumber : ℤ → ℤ → Sql Bool
delete_and_renumber p s = do
  deleted ← delete_playlist_song p s
  if deleted then update_playlist_song_position p else pure false

-- MysqlManager::deletePlaylistSong, by user and name.
unfoldable pub delete_named_playlist_song : ℤ → Text → ℤ → Sql Bool
delete_named_playlist_song user name s = do
  p ← get_playlist_id user name
  if is_positive p then delete_and_renumber p s else pure false
