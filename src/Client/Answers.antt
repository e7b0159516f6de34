-- ===== src/Client/Answers.antt =====
-- The handlers of MyMusic/MyMusic/tcpmanager.cpp (`initHandler`, `handleMsg`) with what they set in
-- UserManager.cpp: each gives the signals that it emits, in order.
pub mod Reading
pub mod Refused
pub mod Shown
pub mod Listed
use my_music.Base.{
  ℕ, ◌==◌, ◌≡◌, ℤ, pos, eq_int, Bool, true, false, Option, none, some, Text, codes, List, [], ◌∷◌,
  ◌++◌, map, if◌then◌else◌,
}
use my_music.Json.{Qt}
use my_music.Wire.{Message}

-- The client's records of MyMusic/MyMusic/dataInfo.h.
pub record UserInfo : Type 0 where
  pub uid : ℤ
  pub sex : ℤ
  pub name : Text
  pub email : Text
  pub icon : Text

pub record MusicInfo : Type 0 where
  pub id : ℤ
  pub title : Text
  pub album : Text
  pub song_icon : Text
  pub artists : Text
  pub file_url : Text
  pub duration : ℤ
  pub is_like : Bool

pub record SongListPageInfo : Type 0 where
  pub title : Text
  pub songlist_icon : Text
  pub description : Text
  pub author : Text
  pub author_icon : Text
  pub create_time : Text

pub record UserManager : Type 0 where
  pub user_info : Option UserInfo
  pub token : Text
  pub music_list : List MusicInfo

pub data Signal : Type 0 where
  sig_login_failed : ℤ → Signal
  sig_switch_mainwindow sig_token_invalid sig_notify_off_line sig_upload_file : Signal
  sig_upload_meta_result sig_upload_file_result : ℤ → Signal
  -- The size transferred and the whole size.
  sig_upload_file_progress : ℤ → ℤ → Signal
  sig_song_list_page_info : SongListPageInfo → Signal
  sig_song_list_page_songs : List MusicInfo → Signal
  -- The song, whether it was to be liked, and the error.
  sig_collect_result : ℤ → Bool → ℤ → Signal

abbrev pub err_json : ℤ
err_json = pos 1001

abbrev pub success_code : ℤ
success_code = pos 0

abbrev pub token_invalid_code : ℤ
token_invalid_code = pos 1010

module _ {J : Type 0} (qt : Qt J) where
  abbrev pub int_of : J → Text → ℤ
  int_of j k = qt.to_int (pos 0) (qt.value j k)

  abbrev pub text_of : J → Text → Text
  text_of j k = qt.to_text (qt.value j k)

  abbrev pub music_of : J → MusicInfo
  music_of j =
      let o = qt.to_object j in
      record {
        id = int_of o (codes "id");
        title = text_of o (codes "title");
        album = text_of o (codes "album");
        song_icon = text_of o (codes "song_icon");
        artists = text_of o (codes "artists");
        file_url = text_of o (codes "file_url");
        duration = int_of o (codes "duration");
        is_like = qt.to_bool (qt.value o (codes "is_like"));
      }

  abbrev pub music_list_of : J → List MusicInfo
  music_list_of j = map music_of (qt.to_array (qt.value j (codes "music_list")))

  abbrev pub user_of : J → UserInfo
  user_of j =
      let o = qt.to_object (qt.value j (codes "user_self_info")) in
      record {
        uid = int_of o (codes "uid");
        sex = int_of o (codes "sex");
        name = text_of o (codes "name");
        email = text_of o (codes "email");
        icon = text_of o (codes "icon");
      }

  abbrev pub page_of : J → SongListPageInfo
  page_of j = record {
    title = text_of j (codes "title");
    songlist_icon = text_of j (codes "cover_url");
    description = text_of j (codes "description");
    author = text_of j (codes "author");
    author_icon = text_of j (codes "authorIcon");
    create_time = text_of j (codes "createTime");
  }

  -- ID_LOGIN_USER_RSP.
  abbrev pub login_read : Option J → UserManager → List Signal × UserManager
  login_read none u = ([], u)
  login_read (some j) u =
      let err = int_of j (codes "error") in
      if qt.contains j (codes "error")
      then (if eq_int err success_code
          then (
            sig_switch_mainwindow ∷ [],
            record u {
              user_info = some (user_of j);
              token = text_of j (codes "token");
              music_list = music_list_of j;
            },
          )
          else (sig_login_failed err ∷ [], u))
      else (sig_login_failed err_json ∷ [], u)

  -- What the other handlers begin with: `failed` for an error, `done` for none.
  abbrev pub read_with : (ℤ → List Signal) → (J → List Signal) → Option J → List Signal
  read_with failed done none = []
  read_with failed done (some j) =
      let err = int_of j (codes "error") in
      if qt.contains j (codes "error")
      then (if eq_int err token_invalid_code
          then sig_token_invalid ∷ []
          else if eq_int err success_code
          then done j
          else failed err)
      else []

  -- ID_HEARTBEAT_RSP.
  abbrev pub heart_beat_read : Option J → List Signal
  heart_beat_read = read_with (λ e. []) (λ j. [])

  -- ID_UPLOAD_META_TYPE_RSP.
  abbrev pub upload_meta_read : Option J → List Signal
  upload_meta_read =
      read_with (λ e. sig_upload_meta_result e ∷ [])
        (λ j. sig_upload_meta_result success_code ∷ sig_upload_file ∷ [])

  -- ID_UPLOAD_FILE_RSP.
  abbrev pub upload_file_read : Option J → List Signal
  upload_file_read =
      read_with (λ e. sig_upload_file_result e ∷ [])
        (λ j.
          let total = int_of j (codes "total_size") in
          let trans = int_of j (codes "trans_size") in
          sig_upload_file_progress trans total
          ∷ (if eq_int total trans then sig_upload_file_result success_code ∷ [] else []))

  -- ID_NOTIFY_OFF_LINE_REQ.
  abbrev pub off_line_read : Option J → List Signal
  off_line_read = read_with (λ e. []) (λ j. sig_notify_off_line ∷ [])

  -- ID_GET_COLLECT_SONG_LIST_INFO_RSP.
  abbrev pub page_info_read : Option J → List Signal
  page_info_read = read_with (λ e. []) (λ j. sig_song_list_page_info (page_of j) ∷ [])

  -- ID_GET_COLLECT_SONG_LIST_RSP.
  abbrev pub page_songs_read : Option J → List Signal
  page_songs_read = read_with (λ e. []) (λ j. sig_song_list_page_songs (music_list_of j) ∷ [])

  -- ID_COLLECT_SONG_RSP: a missing error is one.
  abbrev pub collect_read : Option J → List Signal
  collect_read none = []
  collect_read (some j) =
      let err = qt.to_int err_json (qt.value j (codes "error")) in
      if eq_int err token_invalid_code
      then sig_token_invalid ∷ []
      else sig_collect_result (int_of j (codes "song_id"))
          (qt.to_bool (qt.value j (codes "status"))) err
        ∷ []

  -- The handlers that emit and set nothing, by their ids; an id without a handler is logged.
  abbrev pub signals_of : ℕ → Option J → List Signal
  signals_of id j =
      if id == 1013
      then heart_beat_read j
      else if id == 1009
      then upload_meta_read j
      else if id == 1007
      then upload_file_read j
      else if id == 1010
      then off_line_read j
      else if id == 1018
      then page_info_read j
      else if id == 1020
      then page_songs_read j
      else if id == 1016
      then collect_read j
      else []

  unfoldable pub handle_msg : Message → UserManager → List Signal × UserManager
  handle_msg m u =
      let j = qt.from_json m.body in if m.id == 1005 then login_read j u else (signals_of m.id j, u)

  -- The messages of the reader, one after the other.
  pub handle_all : List Message → UserManager → List Signal × UserManager
  handle_all [] u = ([], u)
  handle_all (m ∷ ms) u =
      let (now, u') = handle_msg m u in let (after, u'') = handle_all ms u' in (now ++ after, u'')
