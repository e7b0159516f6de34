-- ===== src/Client/Answers/Reading.antt =====
-- What the client reads of an answer of the session server.
use my_music.Base.{◌≡◌, refl, ℤ, pos, eq_int, some, Text, codes, List, [], ◌∷◌, map, if◌then◌else◌}
use my_music.Json.{
  Json, Members, lookup, Qt, Readable, ReadsStyled, obj, arr, member, int, no_members, map_items,
}
use my_music.Json.Fields.{
  lookup-Readable, int_field, text_field, bool_field, object_field, array_field,
}
use my_music.Json.Answers.{
  error_number, error_json, user_json, user_members, music_json, music_members, music_items,
  with_music, page_json, page_members,
}
use my_music.Logic.{ErrorCode}
use my_music.Dao
use my_music.Client.Answers.{
  UserInfo, MusicInfo, SongListPageInfo, Signal, sig_token_invalid, int_of, read_with, user_of,
  music_of, page_of, music_list_of, success_code, token_invalid_code,
}

-- The client's record of a user of the server.
abbrev pub shown_user : Dao.Reading.UserInfo → UserInfo
shown_user u = record { uid = u.uid; sex = u.sex; name = u.name; email = u.email; icon = u.icon }

abbrev pub shown_music : Dao.Lists.MusicInfo → MusicInfo
shown_music m = record {
  id = pos m.id;
  title = m.title;
  album = m.album;
  song_icon = m.song_icon;
  artists = m.artists;
  file_url = m.file_url;
  duration = pos m.duration;
  is_like = m.is_like;
}

abbrev pub shown_page : Dao.Lists.SongListPageInfo → SongListPageInfo
shown_page p = record {
  title = p.title;
  songlist_icon = p.songlist_icon;
  description = p.description;
  author = p.author;
  author_icon = p.author_icon;
  create_time = p.create_time;
}

module _ {J : Type 0} (qt : Qt J) (styled : Json → Text) (law : ReadsStyled qt styled) where
  pub error_read :
      (e : ErrorCode) (ps : Members)
      → Readable qt (error_json e ps)
      → int_of qt (law.of (error_json e ps)) (codes "error") ≡ error_number e
  error_read e ps r =
      int_field qt styled law (pos 0) (error_number e) (codes "error")
        (member (codes "error") (int (error_number e)) ps) r refl

  -- An answer with an error, at a handler that begins as most do.
  pub read_with-error_json :
      (failed : ℤ → List Signal) (done : J → List Signal) (e : ErrorCode) (ps : Members)
      → Readable qt (error_json e ps)
      → read_with qt failed done (qt.from_json (styled (error_json e ps))) ≡ (
          if eq_int (error_number e) token_invalid_code
          then sig_token_invalid ∷ []
          else if eq_int (error_number e) success_code
          then done (law.of (error_json e ps))
          else failed (error_number e))
  read_with-error_json failed done e ps r =
      let fs = member (codes "error") (int (error_number e)) ps in
      rw (law.parsed fs r, law.contains_lem (codes "error") fs r, error_read e ps r) refl

  pub user_read :
      (u : Dao.Reading.UserInfo) (ps : Members)
      → Readable qt (obj ps)
      → lookup (codes "user_self_info") ps ≡ some (user_json u)
      → user_of qt (law.of (obj ps)) ≡ shown_user u
  user_read u ps r e =
      let qs = user_members u in
      let s = lookup-Readable qt (codes "user_self_info") ps (user_json u) r e in
      rw
        (
          object_field qt styled law qs (codes "user_self_info") ps r e,
          int_field qt styled law (pos 0) u.uid (codes "uid") qs s refl,
          int_field qt styled law (pos 0) u.sex (codes "sex") qs s refl,
          text_field qt styled law u.name (codes "name") qs s refl,
          text_field qt styled law u.email (codes "email") qs s refl,
          text_field qt styled law u.icon (codes "icon") qs s refl,
        )
        refl

  music_read :
      (m : Dao.Lists.MusicInfo)
      → Readable qt (music_json m)
      → music_of qt (law.of (music_json m)) ≡ shown_music m
  music_read m r =
      let qs = music_members m in
      rw
        (
          law.object_lem qs r,
          int_field qt styled law (pos 0) (pos m.id) (codes "id") qs r refl,
          int_field qt styled law (pos 0) (pos m.duration) (codes "duration") qs r refl,
          text_field qt styled law m.title (codes "title") qs r refl,
          text_field qt styled law m.album (codes "album") qs r refl,
          text_field qt styled law m.song_icon (codes "song_icon") qs r refl,
          text_field qt styled law m.artists (codes "artists") qs r refl,
          text_field qt styled law m.file_url (codes "file_url") qs r refl,
          bool_field qt styled law m.is_like (codes "is_like") qs r refl,
        )
        refl

  all_music_read :
      (l : List Dao.Lists.MusicInfo)
      → Readable qt (arr (music_items l))
      → map (music_of qt) (map_items law.of (music_items l)) ≡ map shown_music l
  unfolding Readable
  all_music_read [] r = refl
  all_music_read (m ∷ l) r = rw (music_read m r.0, all_music_read l r.1) refl

  -- A list that is empty has no field.
  pub music_list_read :
      (l : List Dao.Lists.MusicInfo) (ps : Members)
      → Readable qt (obj ps)
      → lookup (codes "music_list") ps ≡ lookup (codes "music_list") (with_music l no_members)
      → music_list_of qt (law.of (obj ps)) ≡ map shown_music l
  music_list_read [] ps r e = rw (law.no_array (codes "music_list") ps r e) refl
  music_list_read (m ∷ l) ps r e =
      let vs = music_items (m ∷ l) in
      rw (array_field qt styled law vs (codes "music_list") ps r e)
        (all_music_read (m ∷ l) (lookup-Readable qt (codes "music_list") ps (arr vs) r e))

  pub page_read :
      (e : ErrorCode) (p : Dao.Lists.SongListPageInfo)
      → Readable qt (page_json (e, some p))
      → page_of qt (law.of (page_json (e, some p))) ≡ shown_page p
  page_read e p r =
      let ps = member (codes "error") (int (error_number e)) (page_members (some p)) in
      rw
        (
          text_field qt styled law p.title (codes "title") ps r refl,
          text_field qt styled law p.songlist_icon (codes "cover_url") ps r refl,
          text_field qt styled law p.description (codes "description") ps r refl,
          text_field qt styled law p.author (codes "author") ps r refl,
          text_field qt styled law p.author_icon (codes "authorIcon") ps r refl,
          text_field qt styled law p.create_time (codes "createTime") ps r refl,
        )
        refl
