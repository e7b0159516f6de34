-- ===== src/Dao/Reading.antt =====
-- The reading methods of Server/SessionServer/MysqlDao.cpp, and `createFileMap`.
use my_music.Base.{
  ℕ, ◌≡◌, refl, Text, ℤ, pos, eq_int, minus_one, Bool-cases, inl, inr, Option, none, some, first,
  ◌==◌, List, [], ◌∷◌, codes, text_eq, if◌then◌else◌,
}
use my_music.Sql.{
  Sql, World, ok, User, SongRow, AlbumRow, FileRow, ◌>>=◌, pure, query, with_connection, catch_sql,
}
use my_music.Sql.Insert.{insert_record, refuse}
use my_music.Sql.Insert
use my_music.Sql.Catch.{ran, failed, statement-Ran}

pub record UserInfo : Type 0 where
  pub uid : ℤ
  pub sex : ℤ
  pub name : Text
  pub email : Text
  pub icon : Text

pub record FileMapInfo : Type 0 where
  pub storage_path : Text
  pub mime_type : Text
  pub create_id : ℤ

abbrev user_info : ℤ → Option User → Option UserInfo
user_info uid none = none
user_info uid (some u) =
    some (record { uid = uid; sex = u.sex; name = u.name; email = u.email; icon = u.icon })

-- `GetUserInfo` by id.
unfoldable pub get_user_info : ℤ → Sql (Option UserInfo)
get_user_info uid = with_connection none (
    catch_sql none
      (query (λ w. user_info uid (first (λ (u : User). eq_int (pos u.id) uid) w.users))))

-- The columns of a row of `user` that are read, by the names that Server/resoure/sql/user.sql declares.
abbrev int_columns : List (Text × (User → ℤ))
int_columns = (codes "id", λ u. pos u.id) ∷ (codes "sex", λ u. u.sex) ∷ []

abbrev text_columns : List (Text × (User → Text))
text_columns =
    (codes "name", λ u. u.name)
    ∷ (codes "email", λ u. u.email)
    ∷ (codes "icon", λ u. u.icon)
    ∷ (codes "password_salt", λ u. u.password_salt)
    ∷ (codes "password_hash", λ u. u.password_hash)
    ∷ []

-- `getInt` and `getString` throw on a name that is no column of the result.
read_column : {A : Type 0} → Text → List (Text × (User → A)) → User → Sql A
read_column name [] u = refuse 0
read_column name ((c, f) ∷ cs) u = if text_eq c name then pure (f u) else read_column name cs u

abbrev read_user : Option User → Sql (Option UserInfo)
unfolding read_column
read_user none = pure none
read_user (some u) = do
  uid ← read_column (codes "uid") int_columns u
  name ← read_column (codes "name") text_columns u
  email ← read_column (codes "email") text_columns u
  sex ← read_column (codes "sex") int_columns u
  icon ← read_column (codes "icon") text_columns u
  pure (some (record { uid = uid; sex = sex; name = name; email = email; icon = icon }))

-- `GetUserInfo` by name.
unfoldable pub get_user_info_by_name : Text → Sql (Option UserInfo)
unfolding read_column
get_user_info_by_name name = with_connection none (
    catch_sql none (do
      found ← query (λ w. first (λ (u : User). w.engine.same_text u.name name) w.users)
      read_user found))

-- LEFT JOIN file_map; `getString` of NULL is "".
abbrev pub path_of_file : ℕ → List FileRow → Text
path_of_file i rows = elim (first (λ (r : FileRow). r.id == i) rows) [
  | none ↦ []
  | some r ↦ r.storage_path
]

-- INNER JOIN albums.
abbrev cover_of_row : List AlbumRow → List FileRow → Option SongRow → Text
cover_of_row albums files none = []
cover_of_row albums files (some s) = elim (first (λ (r : AlbumRow). r.id == s.album_id) albums) [
  | none ↦ []
  | some a ↦ path_of_file a.cover_url_id files
]

abbrev song_row : ℤ → World → Option SongRow
song_row song w = first (λ (r : SongRow). eq_int (pos r.id) song) w.songs

unfoldable pub get_cover_url : ℤ → Sql Text
get_cover_url song =
    with_connection []
      (catch_sql [] (query (λ w. cover_of_row w.albums w.file_map (song_row song w))))

abbrev title_of_row : Option SongRow → Text
title_of_row none = []
title_of_row (some r) = r.title

unfoldable pub get_song_title : ℤ → Sql Text
get_song_title song =
    with_connection [] (catch_sql [] (query (λ w. title_of_row (song_row song w))))

-- `createFileMap`; its own handler is around `insertRecord`, which catches already.
unfoldable pub create_file_map : FileMapInfo → Sql ℤ
create_file_map f =
    with_connection minus_one
      (catch_sql minus_one (insert_record (Insert.file f.storage_path f.mime_type f.create_id)))

caught-read_user : (x : Option User) (v : World) → (catch_sql none (read_user x) v).0 ≡ ok none
unfolding read_column
caught-read_user none v = refl
caught-read_user (some u) v = refl

-- `GetUserInfo` by name never finds anyone, in any state and whatever fails: the first column that it
-- reads is none of the table's.
pub get_user_info_by_name-none :
    (name : Text) (w : World) → (get_user_info_by_name name w).0 ≡ ok none
unfolding get_user_info_by_name
get_user_info_by_name-none name w = elim (Bool-cases w.stopped) [
  | inl y ↦ simp y
  | inr y ↦ simp y (elim (statement-Ran w) [
    | ran v q same ↦
        simp q (caught-read_user (first (λ (u : User). v.engine.same_text u.name name) v.users) v)
    | failed v c q same ↦ simp q
  ])
]
