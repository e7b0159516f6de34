-- ===== src/Logic/Collecting.antt =====
-- Collecting a song and taking it back: `CollectSongHandler` of Server/SessionServer/LogicSystem.cpp.
use mathlib.Core.Bool.{and-false}
use my_music.Base.{
  ==_refl, ==_iff, ℕ, ◌<◌, ◌≡◌, refl, ap, ◌∙◌, ℤ, pos, lt→ltb, Bool, true, false, some, Text, List,
  [], ◌∷◌, ◌++◌, arith,
}
use my_music.Sql.{World, Outcome, ok, raised, Entry}
use my_music.Sql.Catch.{statement_lem}
use my_music.Dao.Catalog.{has_song}
use my_music.Dao.Playlists.{
  playlist_id, get_cover_url_id, cover_of_song, get_playlist_id, entries_of, delete_and_renumber,
  delete_named_playlist_song,
}
use my_music.Dao.Playlists.Entries.{songs, Fresh}
use my_music.Dao.Playlists.Collect.{
  IsHealthy, IsPlaylist, get_or_create_playlist_found, added, create_playlist_song-added,
  create_playlist_song-appends,
}
use my_music.Dao.Playlists.Rows.{without}
use my_music.Dao.Playlists.Uncollect.{Removed, delete_and_renumber-removes}
use my_music.Redis.{Redis}
use my_music.Logic.{
  forget, HeartBeat, heart_beat_handler, success, token_invalid, CollectReq, check_token,
  collect_song, uncollect_song, collect_song_handler, liked_music, liked_song,
}

get_cover_url_id_lem :
    (s : ℤ) (w : World) → IsHealthy w → get_cover_url_id s w ≡ (ok (cover_of_song s w), w)
unfolding get_cover_url_id
get_cover_url_id_lem s w h = simp (h.open_pool, statement_lem w h.no_faults)

get_playlist_id_lem :
    (user : ℤ) (name : Text) (p : ℕ) (w : World)
    → IsHealthy w
    → playlist_id user name w ≡ some p
    → get_playlist_id user name w ≡ (ok (pos p), w)
unfolding get_playlist_id
get_playlist_id_lem user name p w h found = simp (h.open_pool, statement_lem w h.no_faults, found)

-- What a request to collect needs to have its effect.
pub record CanCollect (user : ℤ) (p s : ℕ) (w : World) : Type 0 where
  pub healthy : IsHealthy w
  pub listed : IsPlaylist p w
  pub found : playlist_id user liked_music w ≡ some p
  pub known : has_song s w ≡ true
  pub fresh : Fresh s (entries_of (pos p) w)

collect_song_lem :
    (user : ℤ) (p s : ℕ) (w : World)
    → CanCollect user p s w
    → collect_song user (pos s) w ≡ some (ok tt, added p s w)
unfolding collect_song
collect_song_lem user p s w c = simp (
  get_cover_url_id_lem (pos s) w c.healthy,
  get_or_create_playlist_found _ p w c.healthy c.found,
  create_playlist_song-added p s (liked_song user (pos s)) w c.healthy c.found refl refl c.known
      c.fresh,
)

added-IsHealthy : (p s : ℕ) (w : World) → IsHealthy w → IsHealthy (added p s w)
unfolding added
added-IsHealthy p s w h = record { open_pool = h.open_pool; no_faults = h.no_faults }

added-playlist_id :
    (user : ℤ) (p s : ℕ) (w : World)
    → playlist_id user liked_music (added p s w) ≡ playlist_id user liked_music w
unfolding added
added-playlist_id user p s w = refl

forget-ok : (r : Outcome Bool × World) (b : Bool) → r.0 ≡ ok b → forget r ≡ (ok tt, r.1)
forget-ok (ok b', w) b e = refl
forget-ok (raised x, w) b e = cc

uncollect_song_lem :
    (user : ℤ) (p s : ℕ) (w : World)
    → 0 < p
    → IsHealthy w
    → playlist_id user liked_music w ≡ some p
    → IsPlaylist p w
    → (v : World) × ((uncollect_song user (pos s) w ≡ some (ok tt, v)) × Removed p s w v)
unfolding uncollect_song delete_named_playlist_song
uncollect_song_lem user p s w q h found v =
    let r = delete_and_renumber-removes p s w h v in
    (
      (delete_and_renumber (pos p) (pos s) w).1,
      (
        simp (get_playlist_id_lem user liked_music p w h found, lt→ltb 0 p q)
            (ap some (forget-ok _ _ r.0)),
        r.1,
      ),
    )

without-append-Fresh :
    (s : ℕ) (es : List Entry) → Fresh s es → without s (songs es ++ s ∷ []) ≡ songs es
without-append-Fresh s [] f = rw (==_refl s) refl
without-append-Fresh s (e ∷ es) f =
    ground (arith, without-append-Fresh s es f.1, ==_iff e.song_id s)

collected-IsPlaylist :
    (user : ℤ) (p s : ℕ) (w : World)
    → CanCollect user p s w
    → IsPlaylist p (added p s w)
      × (songs (entries_of (pos p) (added p s w)) ≡ songs (entries_of (pos p) w) ++ s ∷ [])
collected-IsPlaylist user p s w c =
    let ps = liked_song user (pos s) in
    let e = create_playlist_song-added p s ps w c.healthy c.found refl refl c.known c.fresh in
    let a =
      create_playlist_song-appends p s ps w c.healthy c.listed c.found refl refl c.known c.fresh in
    let b = (rw e at a) in (b.2, b.1)

module _ {S : Type 0} (redis : Redis S) where
  -- What the two answers are, and what the playlist is behind each.
  pub record Back (user : ℤ) (p s : ℕ) (token : Text) (r : S) (w : World) : Type 0 where
    pub collected : World
    pub restored : World
    pub first_answer :
        collect_song_handler redis user
          (record { song_id = pos s; status = true; token = token })
          r
          w
        ≡ some (record { error = success; song_id = pos s; status = true }, collected)
    pub second_answer :
        collect_song_handler redis user
          (record { song_id = pos s; status = false; token = token })
          r
          collected
        ≡ some (record { error = success; song_id = pos s; status = false }, restored)
    pub last : songs (entries_of (pos p) collected) ≡ songs (entries_of (pos p) w) ++ s ∷ []
    pub same : songs (entries_of (pos p) restored) ≡ songs (entries_of (pos p) w)
    pub tidy : IsPlaylist p restored

  -- With a valid token and no fault, for a song that is in the table of songs, and a user whose playlist
  -- of liked music exists already, has an id above 0, is numbered from 1 without duplicates and lacks
  -- the song: the song is collected at the playlist's end and then taken back, both with success; behind
  -- it the playlist has its old songs in their order and is numbered from 1.
  pub collect_uncollect :
      (user : ℤ) (p s : ℕ) (token : Text) (r : S) (w : World)
      → check_token redis user token r ≡ true
      → 0 < p
      → CanCollect user p s w
      → Back user p s token r w
  unfolding collect_song_handler
  collect_uncollect user p s token r w t q c =
      let a = collected-IsPlaylist user p s w c in
      let u =
        uncollect_song_lem user p s (added p s w) q (added-IsHealthy p s w c.healthy)
          (added-playlist_id user p s w ∙ c.found) a.0 in
      record {
        collected = added p s w;
        restored = u.0;
        first_answer = simp (t, collect_song_lem user p s w c);
        second_answer = simp (t, u.1.0);
        last = a.1;
        same =
            u.1.1.left ∙ ap (without s) a.1 ∙ without-append-Fresh s (entries_of (pos p) w) c.fresh;
        tidy = u.1.1.tidy;
      }

  -- Without a valid token, both handlers answer so and change neither Redis nor the database.
  pub refused :
      (user : ℤ) (b : HeartBeat) (c : CollectReq) (r : S) (w : World)
      → check_token redis b.from_uid b.token r ≡ false
      → check_token redis user c.token r ≡ false
      → (heart_beat_handler redis user b r ≡ (token_invalid, r))
        × (collect_song_handler redis user c r w
            ≡ some (record { error = token_invalid; song_id = c.song_id; status = c.status }, w))
  unfolding heart_beat_handler collect_song_handler
  refused user b c r w e f = (simp (e, and-false), simp f)
