-- ===== src/Tests/Answers.antt =====
-- Answers of the session server at the client.
use my_music.Base.{
  ℕ, length, drop, ◌≡◌, refl, pos, true, false, Option, none, some, Text, List, [], ◌∷◌, map, arith,
  codes, ◌<◌, ◌^◌, if◌then◌else◌,
}
use my_music.Json.{Json, Readable}
use my_music.Json.Answers.{
  login_json, heart_beat_json, collect_json, list_json, page_json, upload_json, meta_json,
}
use my_music.Redis.{user_token, user_ip, user_session, eq_key}
use my_music.Redis.Counts.Kept.{with_count, read_count-with_count}
use my_music.Registry.{get_session}
use my_music.Dao
use my_music.Dao.Lists.{SongListPageInfo, get_named_playlist_songs, get_playlist_songs}
use my_music.Dao.Playlists.{get_playlist_id}
use my_music.Tests.Tables.{library, liked}
use my_music.Sql.{ok}
use my_music.Logic.{
  ErrorCode, success, HeartBeat, token_expire_time, check_token, heart_beat_handler, CollectRsp,
  collect_song_handler,
}
use my_music.Logic.Lists.{list_answer, song_list_page_info_handler, collect_song_list_handler}
use my_music.Uploads.{Chunk, Spools, cleared_song, upload_file_handler}
use my_music.Uploads.Metadata.{MetaReq, upload_meta_type_handler}
use my_music.Wire.{Message}
use my_music.Wire.Reading.{frame}
use my_music.Wire.Sending.{send_node-frame}
use my_music.Client.Incoming.{receive_all}
use my_music.Client.Incoming.Whole.{idle}
use my_music.Client.Answers.Listed.{listed, song_list_page_info_handler-shown}
use my_music.Client.Answers.Refused.{Told, check_token-Told}
use my_music.Tests.Incoming.{read_short, read_short-ReadsShorts}
use my_music.Client.Answers.{handle_all}
use my_music.Logic.Login.{LoginReq, LoginRsp, Desk, take_token}
use my_music.Logic.Login.Session.{LoggedIn}
use my_music.Client.Answers.{UserManager, sig_switch_mainwindow, handle_msg}
use my_music.Client.Answers.Reading.{shown_music}
use my_music.Client.Answers.Shown.{after_login, heart_beat, after_login-heart_beat}
use my_music.Tests.Memory.{Store, memory}
use my_music.Tests.Documents.{documents, documents-ReadsStyled, styled}

abbrev nobody : UserManager
nobody = record { user_info = none; token = []; music_list = [] }

abbrev user_one : Dao.Reading.UserInfo
user_one = record { uid = pos 1; sex = pos 0; name = codes "ann"; email = codes "a@b"; icon = [] }

abbrev song_nine : Dao.Lists.MusicInfo
song_nine = record {
  id = 9;
  title = codes "t";
  album = codes "b";
  song_icon = [];
  artists = codes "x";
  album_artists = [];
  file_url = codes "u";
  duration = 200;
  is_like = true;
}

abbrev accepted : LoginRsp
accepted = record {
  error = success;
  user_self_info = some user_one;
  music_list = song_nine ∷ [];
  token = some (codes "new");
}

abbrev login : LoginReq
login = record { uid = pos 1; token = codes "t" }

abbrev before : Store
before k =
    if eq_key k (user_token (pos 1))
    then some (codes "new", none)
    else if eq_key k (user_session (pos 1))
    then some (codes "s", none)
    else if eq_key k (user_ip (pos 1))
    then some (codes "here", none)
    else none

abbrev after : Store
after = with_count memory (codes "here") 1 before

abbrev desk_after : Desk Store
desk_after = record {
  store = after;
  registry = record { held = λ t. true; users = λ i. some (codes "s"); uid_of = λ t. pos 1 };
  notices = [];
  kicks = [];
}

abbrev write_json : Dao.Reading.UserInfo → Text
write_json u = u.name

abbrev read_json : Text → Dao.Reading.UserInfo
read_json t = user_one

desk_after-LoggedIn :
    LoggedIn memory write_json read_json
      (codes "here")
      login
      (codes "s")
      (codes "new")
      0
      60
      accepted
      desk_after
unfolding take_token get_session
desk_after-LoggedIn = record {
  accepted = refl;
  given = refl;
  token_there = refl;
  token_taken = refl;
  session_there = refl;
  server_there = refl;
  counted = read_count-with_count memory (codes "here") 1 before (λ s. refl) (omega arith);
  bound = refl;
}

accepted-Readable : Readable documents (login_json accepted)
unfolding Readable
accepted-Readable = ground arith

after_login-heart_beat_example :
    (m' : UserManager) × (b : HeartBeat) × (after_login documents styled documents-ReadsStyled
        accepted nobody
      ≡ (sig_switch_mainwindow ∷ [], m'))
    × (m'.music_list ≡ map shown_music accepted.music_list)
    × (heart_beat m' ≡ some b)
    × (heart_beat_handler memory (pos 1) b (memory.elapse 60 after)
        ≡ (success, memory.expire (user_token (pos 1)) token_expire_time (memory.elapse 60 after)))
    × (handle_msg documents (record { id = 1013; body = styled (heart_beat_json success) }) m'
        ≡ ([], m'))
after_login-heart_beat_example =
    after_login-heart_beat documents styled documents-ReadsStyled memory write_json read_json
      (codes "here") login (codes "s") (codes "new") 0 60 accepted desk_after user_one nobody
      desk_after-LoggedIn refl refl refl refl (λ s. refl) accepted-Readable

abbrev song : ℕ → Text → Dao.Lists.MusicInfo
song id title = record {
  id = id;
  title = title;
  album = codes "x";
  song_icon = [];
  artists = [];
  album_artists = [];
  file_url = codes "u/a";
  duration = 180;
  is_like = true;
}

liked_songs :
    get_named_playlist_songs (pos 1) liked library
    ≡ (ok (song 7 (codes "a") ∷ song 8 (codes "b") ∷ []), library)
unfolding get_named_playlist_songs get_playlist_songs get_playlist_id
liked_songs = refl

abbrev two_songs : List Dao.Lists.MusicInfo
two_songs = song 7 (codes "a") ∷ song 8 (codes "b") ∷ []

abbrev logged_in : Store
logged_in k = if eq_key k (user_token (pos 1)) then some (codes "t", none) else none

abbrev songs_message : Message
songs_message = record { id = 1020; body = styled (list_json (success, two_songs)) }

two_songs-Readable : Readable documents (list_json (success, two_songs))
unfolding Readable
two_songs-Readable = ground arith

-- The answer arrives in two pieces, cut behind the first byte.
abbrev songs_pieces : List Text
songs_pieces = (3 ∷ []) ∷ drop 1 (frame songs_message) ∷ []

songs_small : length (styled (list_json (success, two_songs))) < 2 ^ 15
unfolding styled
songs_small = omega arith

song_list_page_info_handler-shown_example :
    (song_list_page_info_handler memory (pos 1) (codes "t") liked logged_in library
      ≡ (ok (list_answer two_songs), library))
    × (handle_all documents (receive_all read_short songs_pieces (idle 0 0 [])).0 nobody
        ≡ (listed two_songs, nobody))
unfolding styled
song_list_page_info_handler-shown_example =
    song_list_page_info_handler-shown documents styled documents-ReadsStyled read_short
      read_short-ReadsShorts memory (pos 1) (codes "t") liked logged_in library library two_songs
      songs_pieces 0 0 nobody (unfold check_token in refl) liked_songs two_songs-Readable
      songs_small (send_node-frame 1020 (styled (list_json (success, two_songs))) songs_small)

abbrev no_files : Spools
no_files = record { entries = λ k. none; files = λ k. none; disk = [] }

abbrev chunk : Chunk
chunk = record {
  seq = pos 1;
  name = codes "f";
  bytes = 7 ∷ [];
  total_size = pos 1;
  trans_size = pos 1;
}

abbrev meta : MetaReq
meta = record {
  token = [];
  title = codes "t";
  album = codes "b";
  artists = codes "x";
  icon = [];
  description = [];
  release_date = [];
  track = pos 1;
  duration = pos 180;
}

abbrev IsTold : ℕ → Json → Type 0
IsTold id v = Told documents styled documents-ReadsStyled id v nobody

check_token-Told_example :
    ((e : ErrorCode) × (heart_beat_handler memory
          (pos 1)
          (record { from_uid = pos 1; token = codes "x" })
          logged_in
        ≡ (e, logged_in))
      × IsTold 1013 (heart_beat_json e))
    × ((a : CollectRsp) × (collect_song_handler memory
            (pos 1)
            (record { song_id = pos 9; status = true; token = codes "x" })
            logged_in
            library
          ≡ some (a, library))
        × IsTold 1016 (collect_json a))
    × ((a : ErrorCode × List Dao.Lists.MusicInfo) × (song_list_page_info_handler memory
            (pos 1)
            (codes "x")
            liked
            logged_in
            library
          ≡ (ok a, library))
        × IsTold 1020 (list_json a))
    × ((a : ErrorCode × Option SongListPageInfo) × (collect_song_list_handler memory
            (λ i. [])
            (pos 1)
            (codes "x")
            logged_in
            library
          ≡ (ok a, library))
        × IsTold 1018 (page_json a))
    × ((e : ErrorCode) × (upload_file_handler memory
            (λ n t c. none)
            (pos 1)
            0
            (codes "x")
            chunk
            logged_in
            no_files
            cleared_song
            library
          ≡ (e, no_files, cleared_song, library))
        × IsTold 1007 (upload_json e false chunk))
    × ((e : ErrorCode) × (upload_meta_type_handler memory
            (λ n d m. none)
            (pos 0)
            (pos 1)
            (record meta { token = codes "x" })
            logged_in
            cleared_song
            library
          ≡ (ok (e, cleared_song), library))
        × IsTold 1009 (meta_json e))
check_token-Told_example =
    check_token-Told documents styled documents-ReadsStyled memory (pos 1) (pos 9) true (codes "x")
      liked logged_in library nobody (λ i. []) (λ n t c. none) 0 chunk no_files cleared_song
      (λ n d m. none) (pos 0) meta (unfold check_token in refl) (omega arith)
