-- ===== src/Json/Answers.antt =====
-- The answers of Server/SessionServer/LogicSystem.cpp, and `NotifyOffline` of Session.cpp, as the JSON that
-- they send; the order of an object's fields is that of the assignments.
use my_music.Base.{ℤ, pos, Bool, Option, none, some, Text, codes, if◌then◌else◌, List, [], ◌∷◌, map}
use my_music.Json.{Json, Items, Members, int, bool, str, obj, arr, no_members, member, from_items}
use my_music.Dao.Reading.{UserInfo}
use my_music.Dao.Lists.{MusicInfo, SongListPageInfo}
use my_music.Logic.{ErrorCode, success, token_invalid, uid_invalid, ether_invalid, CollectRsp}
use my_music.Logic.Login.{LoginRsp}
use my_music.Uploads.{Chunk}

abbrev pub error_number : ErrorCode → ℤ
error_number success = pos 0
error_number token_invalid = pos 1010
error_number uid_invalid = pos 1011
error_number ether_invalid = pos 0x7777

-- An object that begins with the error.
abbrev pub error_json : ErrorCode → Members → Json
error_json e ps = obj (member (codes "error") (int (error_number e)) ps)

abbrev pub user_members : UserInfo → Members
user_members u =
    (member (codes "uid") (int u.uid) (
      member (codes "name") (str u.name) (
        member (codes "sex") (int u.sex)
          (member (codes "icon") (str u.icon) (member (codes "email") (str u.email) no_members)))))

abbrev pub user_json : UserInfo → Json
user_json u = obj (user_members u)

abbrev pub music_members : MusicInfo → Members
music_members m =
    (member (codes "id") (int (pos m.id)) (
      member (codes "title") (str m.title) (
        member (codes "album") (str m.album) (
          member (codes "song_icon") (str m.song_icon) (
            member (codes "artists") (str m.artists) (
              member (codes "duration") (int (pos m.duration)) (
                member (codes "file_url") (str m.file_url)
                  (member (codes "is_like") (bool m.is_like) no_members))))))))

abbrev pub music_json : MusicInfo → Json
music_json m = obj (music_members m)

abbrev pub music_items : List MusicInfo → Items
music_items l = from_items (map music_json l)

-- `append` makes the array: without a song there is no such field.
abbrev pub with_music : List MusicInfo → Members → Members
with_music [] ps = ps
with_music (m ∷ l) ps = member (codes "music_list") (arr (music_items (m ∷ l))) ps

abbrev pub with_user : Option UserInfo → Members → Members
with_user none ps = ps
with_user (some u) ps = member (codes "user_self_info") (user_json u) ps

abbrev pub with_new_token : Option Text → Members
with_new_token none = no_members
with_new_token (some t) = member (codes "token") (str t) no_members

abbrev pub login_json : LoginRsp → Json
login_json r =
    error_json r.error
      (with_user r.user_self_info (with_music r.music_list (with_new_token r.token)))

abbrev pub heart_beat_json : ErrorCode → Json
heart_beat_json e = error_json e no_members

abbrev pub collect_json : CollectRsp → Json
collect_json r =
    error_json r.error (
      member (codes "song_id") (int r.song_id) (member (codes "status") (bool r.status) no_members))

abbrev pub page_members : Option SongListPageInfo → Members
page_members none = no_members
page_members (some p) = member (codes "title") (str p.title) (
    member (codes "cover_url") (str p.songlist_icon) (
      member (codes "description") (str p.description) (
        member (codes "author") (str p.author) (
          member (codes "authorIcon") (str p.author_icon)
            (member (codes "createTime") (str p.create_time) no_members)))))

abbrev pub page_json : ErrorCode × Option SongListPageInfo → Json
page_json (e, p) = error_json e (page_members p)

abbrev pub list_json : ErrorCode × List MusicInfo → Json
list_json (e, l) = error_json e (with_music l no_members)

abbrev pub spooled_members : Chunk → Members
spooled_members c = member (codes "seq") (int c.seq) (
    member (codes "name") (str c.name) (
      member (codes "total_size") (int c.total_size)
        (member (codes "trans_size") (int c.trans_size) no_members)))

-- The fields of a chunk that was spooled; with an error they may be missing.
abbrev pub upload_json : ErrorCode → Bool → Chunk → Json
upload_json e spooled c = error_json e (if spooled then spooled_members c else no_members)

abbrev pub meta_json : ErrorCode → Json
meta_json e = error_json e no_members

abbrev pub offline_json : ℤ → Json
offline_json uid = error_json success (member (codes "uid") (int uid) no_members)
