-- ===== src/Client/Answers/Refused.antt =====
-- A session token that is not valid, from the server's handlers to the client's signals.
use my_music.Base.{
  ℕ, ◌≡◌, refl, ap, ℤ, eq_int, eq_int_iff, Bool, Bool-cases, inl, inr, true, false, Option, none,
  some, Text, codes, List, [], ◌∷◌, is_positive, arith,
}
use my_music.Json.{Json, Qt, Readable, ReadsStyled, IsInt, member, int, bool, no_members}
use my_music.Json.Answers.{
  error_number, error_json, heart_beat_json, collect_json, page_json, list_json, upload_json,
  meta_json,
}
use my_music.Sql.{World, ok}
use my_music.Redis.{Redis}
use my_music.Dao.Catalog.{Song}
use my_music.Dao.Lists.{MusicInfo, SongListPageInfo}
use my_music.Logic.{
  ErrorCode, token_invalid, CollectRsp, answer, check_token, heart_beat_handler,
  collect_song_handler,
}
use my_music.Logic.Lists.{song_list_page_info_handler, collect_song_list_handler}
use my_music.Uploads.{Chunk, Spools, upload_file_handler}
use my_music.Uploads.Metadata.{MetaReq, upload_meta_type_handler}
use my_music.Client.Answers.{
  UserManager, Signal, sig_token_invalid, sig_upload_meta_result, sig_upload_file_result, err_json,
  read_with, handle_msg,
}
use my_music.Json.Fields.{int_field}
use my_music.Client.Answers.Reading.{read_with-error_json}

module _ {J : Type 0} (qt : Qt J) (styled : Json → Text) (law : ReadsStyled qt styled) where
  abbrev pub shown : ℕ → Json → UserManager → List Signal × UserManager
  shown id v u = handle_msg qt (record { id = id; body = styled v }) u

  bare-Readable : Readable qt (error_json token_invalid no_members)
  unfolding Readable
  bare-Readable = ((law.ascii_lem (codes "error") refl, refl), (omega arith, tt))

  collect-Readable :
      (song_id : ℤ) (status : Bool)
      → IsInt song_id
      → Readable qt
          (collect_json (record { error = token_invalid; song_id = song_id; status = status }))
  unfolding Readable
  collect-Readable song_id status i = (
    (law.ascii_lem (codes "error") refl, refl),
    (
      omega arith,
      (
        (law.ascii_lem (codes "song_id") refl, refl),
        (i, ((law.ascii_lem (codes "status") refl, refl), (tt, tt))),
      ),
    ),
  )

  -- The signals of an answer that says only that the token is invalid, at a handler but the login's.
  abbrev pub Told : ℕ → Json → UserManager → Type 0
  Told id v u = shown id v u ≡ (sig_token_invalid ∷ [], u)

  told :
      (u : UserManager)
      → Told 1013 (error_json token_invalid no_members) u
        × Told 1009 (error_json token_invalid no_members) u
        × Told 1007 (error_json token_invalid no_members) u
        × Told 1018 (error_json token_invalid no_members) u
        × Told 1020 (error_json token_invalid no_members) u
  unfolding handle_msg
  told u =
      let bare : (failed : ℤ → List Signal) (done : J → List Signal)
          → read_with qt failed done (qt.from_json (styled (error_json token_invalid no_members)))
            ≡ sig_token_invalid ∷ [] =
        λ failed done.
          read_with-error_json qt styled law failed done token_invalid no_members bare-Readable in
      let keep : (l : List Signal)
          → l ≡ sig_token_invalid ∷ []
          → ◌≡◌ {A = List Signal × UserManager} (l, u) (sig_token_invalid ∷ [], u) =
        λ l e. ap (λ x. (x, u)) e in
      (
        keep _ (bare (λ e. []) _),
        keep _ (bare (λ e. sig_upload_meta_result e ∷ []) _),
        keep _ (bare (λ e. sig_upload_file_result e ∷ []) _),
        keep _ (bare (λ e. []) _),
        keep _ (bare (λ e. []) _),
      )

  collect-Told :
      (a : CollectRsp) (u : UserManager)
      → a.error ≡ token_invalid
      → IsInt a.song_id
      → Told 1016 (collect_json a) u
  unfolding handle_msg
  collect-Told a u e i =
      let ps =
        member (codes "song_id") (int a.song_id)
          (member (codes "status") (bool a.status) no_members) in
      let fs = member (codes "error") (int (error_number token_invalid)) ps in
      let r = collect-Readable a.song_id a.status i in
      rw
        (
          e,
          law.parsed fs r,
          int_field qt styled law err_json (error_number token_invalid) (codes "error") fs r refl,
        )
        refl

  module _ {S : Type 0} (redis : Redis S) where
    beat_refused :
        (user : ℤ) (token : Text) (s : S)
        → check_token redis user token s ≡ false
        → heart_beat_handler redis user (record { from_uid = user; token = token }) s
          ≡ (token_invalid, s)
    unfolding heart_beat_handler
    beat_refused user token s k =
        let same : eq_int user user ≡ true = (eq_int_iff user user).1 refl in
        elim (Bool-cases (is_positive user)) [ inl y ↦ simp (y, same, k) | inr y ↦ simp y ]

    -- With a session token that is not valid, every handler that asks for one changes nothing and answers so
    -- that the client emits the signal of an invalid token, nothing else, and keeps what it has: the
    -- heartbeat, the collecting of a song, the two lists, and the two handlers of an upload. The number of the
    -- song is an `int`.
    pub check_token-Told :
        (user song_id : ℤ) (status : Bool) (token name : Text) (s : S) (w : World) (u : UserManager)
        (created_at : ℕ → Text) (upload_audio : Text → ℤ → Text → Option Text) (now : ℕ) (c : Chunk)
        (st : Spools) (song : Song) (upload_image : Text → Text → Text → Option Text)
        (indeterminate : ℤ) (m : MetaReq)
        → check_token redis user token s ≡ false
        → IsInt song_id
        → ((e : ErrorCode) × (heart_beat_handler redis user
                (record { from_uid = user; token = token })
                s
              ≡ (e, s))
            × Told 1013 (heart_beat_json e) u)
          × ((a : CollectRsp) × (collect_song_handler redis user
                  (record { song_id = song_id; status = status; token = token })
                  s
                  w
                ≡ some (a, w))
              × Told 1016 (collect_json a) u)
          × ((a : ErrorCode × List MusicInfo) × (song_list_page_info_handler redis user token name s
                  w
                ≡ (ok a, w))
              × Told 1020 (list_json a) u)
          × ((a : ErrorCode × Option SongListPageInfo) × (collect_song_list_handler redis created_at
                  user token s w
                ≡ (ok a, w))
              × Told 1018 (page_json a) u)
          × ((e : ErrorCode) × (upload_file_handler redis upload_audio user now token c s st song w
                ≡ (e, st, song, w))
              × Told 1007 (upload_json e false c) u)
          × ((e : ErrorCode) × (upload_meta_type_handler redis upload_image indeterminate user
                  (record m { token = token })
                  s
                  song
                  w
                ≡ (ok (e, song), w))
              × Told 1009 (meta_json e) u)
    unfolding heart_beat_handler collect_song_handler song_list_page_info_handler
        collect_song_list_handler upload_file_handler upload_meta_type_handler
    check_token-Told user song_id status token name s w u created_at upload_audio now c st song
          upload_image indeterminate m k i =
        let (beat, meta, file, page, songs) = told u in
        (
          (token_invalid, beat_refused user token s k, beat),
          (
            answer (record { song_id = song_id; status = status; token = token }) token_invalid,
            simp k,
            collect-Told
                (answer (record { song_id = song_id; status = status; token = token })
                  token_invalid)
                u refl i,
          ),
          ((token_invalid, []), simp k, songs),
          ((token_invalid, none), simp k, page),
          (token_invalid, simp k, file),
          (token_invalid, simp k, meta),
        )
