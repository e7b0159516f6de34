-- ===== src/Client/Answers/Listed.antt =====
-- A playlist's songs, from the server's tables over the wire to the client's table.
use my_music.Base.{
  ℕ, ◌<◌, ◌^◌, ◌≡◌, refl, ap, ◌∙◌, ℤ, pos, true, some, Text, codes, List, [], ◌∷◌, ◌++◌, append-nil,
  map, length, arith,
}
use my_music.Json.{Json, Qt, Readable, ReadsStyled, member, int, no_members}
use my_music.Json.Answers.{list_json, with_music}
use my_music.Dao
use my_music.Dao.Lists.{get_named_playlist_songs}
use my_music.Sql.{World, ok}
use my_music.Redis.{Redis}
use my_music.Wire.{send_node}
use my_music.Logic.{success, ether_invalid, check_token}
use my_music.Logic.Lists.{list_answer, song_list_page_info_handler}
use my_music.Client.Incoming.{ReadsShorts, receive_all}
use my_music.Client.Incoming.Whole.{Delivery, concat, idle, Sent, receive_all-deliveries}
use my_music.Client.Answers.{
  UserManager, Signal, sig_song_list_page_songs, music_list_of, handle_msg, handle_all,
}
use my_music.Client.Answers.Reading.{shown_music, music_list_read, read_with-error_json}

-- The signal of a list; an empty one is an error, which is only logged.
abbrev pub listed : List Dao.Lists.MusicInfo → List Signal
listed [] = []
listed (m ∷ l) = sig_song_list_page_songs (map shown_music (m ∷ l)) ∷ []

module _ {J : Type 0} (qt : Qt J) (styled : Json → Text) (law : ReadsStyled qt styled) where
  songs_shown :
      (l : List Dao.Lists.MusicInfo) (m : UserManager)
      → Readable qt (list_json (list_answer l))
      → handle_msg qt (record { id = 1020; body = styled (list_json (list_answer l)) }) m
        ≡ (listed l, m)
  unfolding handle_msg
  songs_shown [] m r =
      ap (λ x. (x, m))
        (read_with-error_json qt styled law (λ e. [])
          (λ j. sig_song_list_page_songs (music_list_of qt j) ∷ []) ether_invalid no_members r)
  songs_shown (a ∷ l) m r =
      let ps = member (codes "error") (int (pos 0)) (with_music (a ∷ l) no_members) in
      let done =
        read_with-error_json qt styled law (λ e. [])
          (λ j. sig_song_list_page_songs (music_list_of qt j) ∷ []) success
          (with_music (a ∷ l) no_members) r in
      ap (λ x. (x, m))
        (done
          ∙ ap (λ x. sig_song_list_page_songs x ∷ [])
              (music_list_read qt styled law (a ∷ l) ps r refl))

  module _ (read_short : Text → ℕ → ℕ × ℕ) (reads : ReadsShorts read_short) where
    one_received :
        (d : Delivery) (id len : ℕ) (m : UserManager)
        → Sent d
        → handle_all qt (receive_all read_short d.pieces (idle id len [])).0 m
          ≡ (let (l, m') = handle_msg qt d.message m in (l ++ [], m'))
    unfolding handle_all
    one_received d id len m h =
        let e = (receive_all-deliveries read_short reads (d ∷ []) id len (h, tt)).0 in
        ap (λ x. handle_all qt x m) (rw (append-nil d.pieces) at e)

    -- With a valid token, the answer to the request of a playlist is framed by `SendNode`, cut in any way,
    -- received by an idle client and handled: the client shows exactly the songs that the database lists, in
    -- their order, and nothing if there are none, and changes nothing that it keeps. The answer has less than
    -- 2 ^ 15 bytes, of texts in UTF-8 and numbers that are `int`.
    pub song_list_page_info_handler-shown :
        {S : Type 0} (redis : Redis S) (user : ℤ) (token name : Text) (s : S) (w w' : World)
        (l : List Dao.Lists.MusicInfo) (pieces : List Text) (id len : ℕ) (m : UserManager)
        → check_token redis user token s ≡ true
        → get_named_playlist_songs user name w ≡ (ok l, w')
        → Readable qt (list_json (list_answer l))
        → length (styled (list_json (list_answer l))) < 2 ^ 15
        → send_node 1020 (styled (list_json (list_answer l))) ≡ some (concat pieces)
        → (song_list_page_info_handler redis user token name s w ≡ (ok (list_answer l), w'))
          × (handle_all qt (receive_all read_short pieces (idle id len [])).0 m ≡ (listed l, m))
    unfolding song_list_page_info_handler
    song_list_page_info_handler-shown redis user token name s w w' l pieces id len m k e r small
          sent =
        let d : Delivery = record {
          message = record { id = 1020; body = styled (list_json (list_answer l)) };
          pieces = pieces;
        } in
        let one = one_received d id len m (omega arith, (small, sent)) in
        (simp (k, e), one ∙ rw (songs_shown l m r) (ap (λ x. (x, m)) (append-nil (listed l))))
