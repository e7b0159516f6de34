-- ===== src/Sql.antt =====
-- The database that Server/SessionServer/MysqlDao.cpp and Server/GateServer/MysqlDao.cpp work on:
-- the tables of Server/resoure/sql as lists of rows in the order of their insertion, and the
-- effects of a DAO method, which changes the tables and may throw. A connection is a failure oracle:
-- each statement takes one entry of `faults`, and an entry `some c` makes it throw a
-- `sql::SQLException` of code c; no entry left means that no statement fails any more.
-- The engine's own tests (collation of texts, DATE literals) are parameters.
pub mod Insert
pub mod Catch
use my_music.Base.{
  ℕ, Text, ℤ, Bool, true, false, ◌≡◌, Option, none, some, List, [], ◌∷◌, if◌then◌else◌,
}

pub record User : Type 0 where
  pub id : ℕ
  pub name : Text
  pub email : Text
  pub password_salt : Text
  pub password_hash : Text
  pub icon : Text
  pub sex : ℤ

-- A row of `artists`.
pub record ArtistRow : Type 0 where
  pub id : ℕ
  pub name : Text

pub record AlbumRow : Type 0 where
  pub id : ℕ
  pub title : Text
  pub release_date : Text
  pub cover_url_id : ℕ
  pub description : Text

pub record SongRow : Type 0 where
  pub id : ℕ
  pub title : Text
  pub album_id : ℕ
  pub duration : ℕ
  pub track_number : ℕ
  pub file_url : Text

pub record PlaylistRow : Type 0 where
  pub id : ℕ
  pub user_id : ℕ
  pub name : Text
  pub description : Text
  pub cover_url_id : ℕ
  pub is_default : Bool

-- A row of `playlist_songs`.
pub record Entry : Type 0 where
  pub playlist_id : ℕ
  pub song_id : ℕ
  pub position : ℕ

pub record FileRow : Type 0 where
  pub id : ℕ
  pub storage_path : Text
  pub mime_type : Text
  pub created_by : ℤ

-- A row of `album_artists` or `song_artists`.
pub record Link : Type 0 where
  pub owner : ℕ
  pub artist : ℕ

pub record Db : Type 0 where
  pub users : List User
  pub artists : List ArtistRow
  pub albums : List AlbumRow
  pub album_artists : List Link
  pub songs : List SongRow
  pub song_artists : List Link
  pub playlists : List PlaylistRow
  pub playlist_songs : List Entry
  pub file_map : List FileRow
  -- The AUTO_INCREMENT counters.
  pub next_artist : ℕ
  pub next_album : ℕ
  pub next_song : ℕ
  pub next_playlist : ℕ
  pub next_file : ℕ

pub record Engine : Type 0 where
  pub same_text : Text → Text → Bool
  pub same_refl : (t : Text) → same_text t t ≡ true
  pub accepts_date : Text → Bool

pub record World : Type 0 where
  pub db : Db
  pub open db use *
  pub engine : Engine
  pub stopped : Bool
  pub faults : List (Option ℕ)

pub data Exception : Type 0 where
  sql_exception : ℕ → Exception
  runtime_error : Exception

pub data Outcome (A : Type 0) : Type 0 where
  ok : A → Outcome A
  raised : Exception → Outcome A

abbrev pub Sql : Type 0 → Type 0
Sql A = World → Outcome A × World

abbrev pub pure : {A : Type 0} → A → Sql A
pure a w = (ok a, w)

abbrev pub throw : {A : Type 0} → Exception → Sql A
throw e w = (raised e, w)

abbrev pub gets : {A : Type 0} → (World → A) → Sql A
gets f w = (ok (f w), w)

abbrev pub change : (Db → Db) → Sql (Unit {0})
change f w = (ok tt, record w { db = f w.db })

abbrev pub continue : {A B : Type 0} → Outcome A → (A → Sql B) → Sql B
continue (ok a) f w = f a w
continue (raised e) f w = (raised e, w)

infixl 5 ◌>>=◌ ◌>>◌
abbrev pub ◌>>=◌ : {A B : Type 0} → Sql A → (A → Sql B) → Sql B
◌>>=◌ m f w = let (r, w') = m w in continue r f w'

abbrev pub ◌>>◌ : {B : Type 0} → Sql (Unit {0}) → Sql B → Sql B
m >> k = m >>= λ _. k

-- What each executed statement may do before it has any effect.
abbrev pub fault : List (Option ℕ) → Sql (Unit {0})
fault [] w = (ok tt, w)
fault (none ∷ fs) w = (ok tt, record w { faults = fs })
fault (some c ∷ fs) w = (raised (sql_exception c), record w { faults = fs })

abbrev pub statement : Sql (Unit {0})
statement w = fault w.faults w

-- `executeQuery`: the result is a function of the tables.
abbrev pub query : {A : Type 0} → (World → A) → Sql A
query f = statement >> gets f

-- `auto conn = _pool->GetConnection(); if (!conn) return d;`
abbrev pub with_connection : {A : Type 0} → A → Sql A → Sql A
with_connection d m w = if w.stopped then (ok d, w) else m w

abbrev pub recover : {A : Type 0} → A → Outcome A → World → Outcome A × World
recover d (ok a) w = (ok a, w)
recover d (raised (sql_exception c)) w = (ok d, w)
recover d (raised runtime_error) w = (raised runtime_error, w)

-- `try { m } catch (sql::SQLException&) { return d; }`
abbrev pub catch_sql : {A : Type 0} → A → Sql A → Sql A
catch_sql d m w = let (r, w') = m w in recover d r w'
