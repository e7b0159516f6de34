-- ===== src/Client/Answers/Shown.antt =====
-- What the client shows and keeps of the server's answers.
use my_music.Base.{
  ℕ, ◌≡◌, refl, ap, subst, ◌∙◌, ℤ, pos, eq_int, eq_int_iff, is_positive, text_eq_refl, null, true,
  false, Option, none, some, Text, codes, List, [], ◌∷◌, map, arith,
}
use my_music.Json.{Json, Members, lookup, str, Qt, Readable, ReadsStyled, member, int, no_members}
use my_music.Json.Fields.{int_field, text_field}
use my_music.Json.Answers.{
  error_number, login_json, heart_beat_json, with_music, with_user, with_new_token,
}
use my_music.Dao
use my_music.Redis.{Redis, IsUp, user_token}
use my_music.Logic.{success, HeartBeat, token_expire_time, check_token, heart_beat_handler}
use my_music.Logic.Login.{LoginRsp, LoginReq, Desk}
use my_music.Logic.Login.Session.{LoggedIn}
use my_music.Client.Answers.{
  UserInfo, UserManager, Signal, sig_switch_mainwindow, sig_login_failed, handle_msg,
}
use my_music.Client.Answers.Reading.{
  shown_user, shown_music, user_read, music_list_read, read_with-error_json,
}

-- What the client keeps after a login.
abbrev pub kept : Dao.Reading.UserInfo → List Dao.Lists.MusicInfo → Text → UserManager
kept u l t = record { user_info = some (shown_user u); token = t; music_list = map shown_music l }

-- The heartbeat of MyMusic/MyMusic/mainwindow.cpp, from what is kept.
abbrev pub beat_of : UserInfo → UserManager → HeartBeat
beat_of i m = record { from_uid = i.uid; token = m.token }

abbrev pub heart_beat : UserManager → Option HeartBeat
heart_beat m = elim m.user_info [ none ↦ none | some i ↦ some (beat_of i m) ]

abbrev accepted : Dao.Reading.UserInfo → List Dao.Lists.MusicInfo → Text → LoginRsp
accepted u l t = record { error = success; user_self_info = some u; music_list = l; token = some t }

abbrev accepted_members : Dao.Reading.UserInfo → List Dao.Lists.MusicInfo → Text → Members
accepted_members u l t =
    member (codes "error") (int (pos 0))
      (with_user (some u) (with_music l (with_new_token (some t))))

token_found :
    (u : Dao.Reading.UserInfo) (l : List Dao.Lists.MusicInfo) (t : Text)
    → lookup (codes "token") (accepted_members u l t) ≡ some (str t)
token_found u [] t = refl
token_found u (m ∷ l) t = refl

music_found :
    (u : Dao.Reading.UserInfo) (l : List Dao.Lists.MusicInfo) (t : Text)
    → lookup (codes "music_list") (accepted_members u l t)
      ≡ lookup (codes "music_list") (with_music l no_members)
music_found u [] t = refl
music_found u (m ∷ l) t = refl

module _ {J : Type 0} (qt : Qt J) (styled : Json → Text) (law : ReadsStyled qt styled) where
  -- The client at an answer of the login.
  abbrev pub after_login : LoginRsp → UserManager → List Signal × UserManager
  after_login r m = handle_msg qt (record { id = 1005; body = styled (login_json r) }) m

  login_done :
      (u : Dao.Reading.UserInfo) (l : List Dao.Lists.MusicInfo) (t : Text) (m : UserManager)
      → Readable qt (login_json (accepted u l t))
      → after_login (accepted u l t) m ≡ (sig_switch_mainwindow ∷ [], kept u l t)
  unfolding handle_msg
  login_done u l t m r =
      let fs = accepted_members u l t in
      rw
        (
          law.parsed fs r,
          law.contains_lem (codes "error") fs r,
          int_field qt styled law (pos 0) (pos 0) (codes "error") fs r refl,
          user_read qt styled law u fs r refl,
          text_field qt styled law t (codes "token") fs r (token_found u l t),
          music_list_read qt styled law l fs r (music_found u l t),
        )
        refl

  -- An answer of the login that is refused.
  login_refused :
      (a : LoginRsp) (m : UserManager)
      → eq_int (error_number a.error) (pos 0) ≡ false
      → Readable qt (login_json a)
      → after_login a m ≡ (sig_login_failed (error_number a.error) ∷ [], m)
  unfolding handle_msg
  login_refused a m e r =
      let ps = with_user a.user_self_info (with_music a.music_list (with_new_token a.token)) in
      let fs = member (codes "error") (int (error_number a.error)) ps in
      rw
        (
          law.parsed fs r,
          law.contains_lem (codes "error") fs r,
          int_field qt styled law (pos 0) (error_number a.error) (codes "error") fs r refl,
          e,
        )
        refl

  beat-Readable : Readable qt (heart_beat_json success)
  unfolding Readable
  beat-Readable = ((law.ascii_lem (codes "error") refl, refl), (omega arith, tt))

  beat_silent :
      (m : UserManager)
      → handle_msg qt (record { id = 1013; body = styled (heart_beat_json success) }) m ≡ ([], m)
  unfolding handle_msg
  beat_silent m =
      ap (λ x. (x, m))
        (read_with-error_json qt styled law (λ e. []) (λ j. []) success no_members beat-Readable)

  module _ {S : Type 0} (redis : Redis S) where
    beat_accepted :
        (uid : ℤ) (t : Text) (s : S)
        → IsUp redis
        → is_positive uid ≡ true
        → null t ≡ false
        → redis.get (user_token uid) s ≡ some t
        → heart_beat_handler redis uid (record { from_uid = uid; token = t }) s
          ≡ (success, redis.expire (user_token uid) token_expire_time s)
    unfolding heart_beat_handler check_token
    beat_accepted uid t s up p n e =
        let same : eq_int uid uid ≡ true = (eq_int_iff uid uid).1 refl in
        simp (up s, p, same, n, e, text_eq_refl t)

    -- The client at the answer of a login that the server accepted switches to the main window and keeps the
    -- list of songs as it was sent; the heartbeat that it builds of what it keeps is answered with success and
    -- renews the token, at any time up to which the login's result says that the token is there, and the
    -- client emits nothing at that answer. Redis replies, the answer is of texts in UTF-8 and numbers that are
    -- `int`, the user of the answer is the one who logs in, the uid is positive, and the token not empty.
    pub after_login-heart_beat :
        (write_json : Dao.Reading.UserInfo → Text) (read_json : Text → Dao.Reading.UserInfo)
        (server : Text) (r : LoginReq) (id new : Text) (n wait : ℕ) (a : LoginRsp) (d : Desk S)
        (u : Dao.Reading.UserInfo) (m : UserManager)
        → LoggedIn redis write_json read_json server r id new n wait a d
        → a.user_self_info ≡ some u
        → u.uid ≡ r.uid
        → is_positive r.uid ≡ true
        → null new ≡ false
        → IsUp redis
        → Readable qt (login_json a)
        → (m' : UserManager) × (b : HeartBeat) × (after_login a m
            ≡ (sig_switch_mainwindow ∷ [], m'))
          × (m'.music_list ≡ map shown_music a.music_list)
          × (heart_beat m' ≡ some b)
          × (heart_beat_handler redis r.uid b (redis.elapse wait d.store) ≡ (
            success,
            redis.expire (user_token r.uid) token_expire_time (redis.elapse wait d.store),
          ))
          × (handle_msg qt (record { id = 1013; body = styled (heart_beat_json success) }) m'
              ≡ ([], m'))
    after_login-heart_beat write_json read_json server r id new n wait a d u m h e same p k up rd =
        let m' = kept u a.music_list new in
        let whole : a ≡ accepted u a.music_list new = rw (h.accepted, e, h.given) refl in
        (
          m',
          record { from_uid = u.uid; token = new },
          ap (λ x. after_login x m) whole
              ∙ login_done u a.music_list new m (subst (λ x. Readable qt (login_json x)) whole rd),
          refl,
          refl,
          rw same (beat_accepted r.uid new (redis.elapse wait d.store) up p k h.token_there),
          beat_silent m',
        )
