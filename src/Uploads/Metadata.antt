-- ===== src/Uploads/Metadata.antt =====
-- UploadMetaTypeHandler of Server/SessionServer/LogicSystem.cpp (as built, with
-- DEBUG_TEST_UPLOAD_FILE_FUNCTION): the album goes to the database, and the song waits in `_song` for the
-- end of its upload. `icon` is what `decode_base64` gives; `upload_image` is the call of StorageGrpcClient,
-- which gives the file's URL or fails.
use my_music.Base.{
  ℕ, ◌≡◌, refl, ℤ, true, false, Option, none, some, Text, null, List, [], ◌∷◌, ◌++◌, ◌==◌, ==_refl,
  All, if◌then◌else◌,
}
use my_music.Sql.{Sql, World, ok, ◌>>=◌, pure}
use my_music.Redis.{Redis}
use my_music.ImgFmt.{get_image_mime_type}
use my_music.Dao.Catalog.{Album, Song, get_or_create_album}
use my_music.Dao.Reading.{create_file_map}
use my_music.Logic.{ErrorCode, success, token_invalid, ether_invalid, check_token}

pub record MetaReq : Type 0 where
  pub token : Text
  pub title : Text
  pub album : Text
  pub artists : Text
  pub icon : Text
  pub description : Text
  pub release_date : Text
  pub track : ℤ
  pub duration : ℤ

-- One more byte in front of what `getline` gives first; a separator begins a new text.
abbrev pub in_front : ℕ → ℕ → List Text → List Text
in_front sep c [] = if c == sep then [] ∷ [] else (c ∷ []) ∷ []
in_front sep c (t ∷ ts) = if c == sep then [] ∷ t ∷ ts else (c ∷ t) ∷ ts

-- `while (std::getline(ss, artist, '/'))`: the texts before, between and behind the separators; none
-- behind a separator at the end.
pub get_lines : ℕ → Text → List Text
get_lines sep [] = []
get_lines sep (c ∷ s) = in_front sep c (get_lines sep s)

-- `indeterminate` is the value of `cover_url_id`, which nothing sets for a song without a cover.
abbrev pub album_of : MetaReq → ℤ → Album
album_of r cover = record {
  title = r.album;
  artist_name = r.artists;
  release_date = r.release_date;
  cover_url_id = cover;
  description = r.description;
}

abbrev pub pending : MetaReq → Song → Song
pending r song = record song {
  title = r.title;
  album_title = r.album;
  artist_names = song.artist_names ++ get_lines b'/' r.artists;
  track_number = r.track;
  duration = r.duration;
}

abbrev pub cover_name : MetaReq → Text
cover_name r = r.album ++ b'_' ∷ r.artists ++ b'_' ∷ r.title

abbrev pub with_cover : MetaReq → Song → ℤ → Sql (ErrorCode × Song)
with_cover r song cover = do
  id ← get_or_create_album (album_of r cover)
  pure (success, pending r song)

abbrev pub after_upload : ℤ → MetaReq → Song → Option Text → Sql (ErrorCode × Song)
after_upload user r song none = pure (ether_invalid, song)
after_upload user r song (some url) = do
  id ←
      create_file_map
        (record { storage_path = url; mime_type = get_image_mime_type r.icon; create_id = user })
  with_cover r song id

module _ {S : Type 0} (redis : Redis S) where
  -- The answer and `_song` behind it. An exception of the database leaves the handler and ends the process.
  unfoldable pub upload_meta_type_handler :
      (Text → Text → Text → Option Text) → ℤ → ℤ → MetaReq → S → Song → Sql (ErrorCode × Song)
  upload_meta_type_handler upload_image indeterminate user r s song =
      if check_token redis user r.token s
      then (if null r.icon
          then with_cover r song indeterminate
          else after_upload user r song
              (upload_image (cover_name r) r.icon (get_image_mime_type r.icon)))
      else pure (token_invalid, song)

-- The names with the separator between them.
abbrev pub joined_names : ℕ → List Text → Text
joined_names sep [] = []
joined_names sep (t ∷ []) = t
joined_names sep (t ∷ u ∷ ts) = t ++ sep ∷ joined_names sep (u ∷ ts)

-- A text that is not empty and has no separator.
abbrev pub IsName : ℕ → Text → Type 0
IsName sep t = (null t ≡ false) × All (λ c. (c == sep) ≡ false) t

get_lines-end :
    (sep : ℕ) (t : Text)
    → null t ≡ false
    → All (λ c. (c == sep) ≡ false) t
    → get_lines sep t ≡ t ∷ []
unfolding get_lines
get_lines-end sep [] e a = cc
get_lines-end sep (c ∷ []) e a = rw a.0 refl
get_lines-end sep (c ∷ d ∷ t) e a = rw (get_lines-end sep (d ∷ t) refl a.1, a.0) refl

-- Behind a name and a separator comes what the rest gives.
get_lines-append :
    (sep : ℕ) (t s : Text) (u : Text) (us : List Text)
    → All (λ c. (c == sep) ≡ false) t
    → get_lines sep s ≡ u ∷ us
    → get_lines sep (t ++ sep ∷ s) ≡ t ∷ u ∷ us
unfolding get_lines
get_lines-append sep [] s u us a e = rw (e, ==_refl sep) refl
get_lines-append sep (c ∷ t) s u us a e = rw (get_lines-append sep t s u us a.1 e, a.0) refl

-- The artists' names come back from the text in which they stand one behind the other with '/' between
-- them, if there is one at least, and none is empty or has the separator in it.
pub get_lines-joined_names :
    (sep : ℕ) (t : Text) (ts : List Text)
    → All (IsName sep) (t ∷ ts)
    → get_lines sep (joined_names sep (t ∷ ts)) ≡ t ∷ ts
get_lines-joined_names sep t [] a = get_lines-end sep t a.0.0 a.0.1
get_lines-joined_names sep t (u ∷ us) a =
    get_lines-append sep t (joined_names sep (u ∷ us)) u us a.0.1
      (get_lines-joined_names sep u us a.1)

module _ {S : Type 0} (redis : Redis S) where
  -- With a valid token, no cover, and a database that finds or creates the album, the handler answers
  -- success, and the song that waits for its upload has the title, the album and exactly the artists that
  -- the client joined with '/' (one at least, none empty or with a '/'), if none were left from before.
  pub upload_meta_type_handler-names :
      (upload_image : Text → Text → Text → Option Text) (indeterminate user id : ℤ) (r : MetaReq)
      (s : S) (song : Song) (t : Text) (ts : List Text) (w w' : World)
      → check_token redis user r.token s ≡ true
      → null r.icon ≡ true
      → get_or_create_album (album_of r indeterminate) w ≡ (ok id, w')
      → r.artists ≡ joined_names b'/' (t ∷ ts)
      → All (IsName b'/') (t ∷ ts)
      → song.artist_names ≡ []
      → (p : Song) × (upload_meta_type_handler redis upload_image indeterminate user r s song w
          ≡ (ok (success, p), w'))
        × (p.title ≡ r.title)
        × (p.album_title ≡ r.album)
        × (p.artist_names ≡ t ∷ ts)
  unfolding upload_meta_type_handler
  upload_meta_type_handler-names upload_image indeterminate user id r s song t ts w w' k n e a names
        c =
      let l : get_lines b'/' r.artists ≡ t ∷ ts = rw a (get_lines-joined_names b'/' t ts names) in
      (pending r song, simp (k, n, e), refl, refl, rw (c, l) refl)
