-- ===== src/Dao/Playlists/Collect.antt =====
-- What adding a song to a playlist does: `createPlaylistSong` of Server/SessionServer/MysqlDao.cpp.
use my_music.Base.{
  ◌⊎◌, append-nil, ℕ, ◌≡◌, ◌≢◌, refl, ap, sym, ◌∙◌, pos, eq_int, Bool, true, false, Bool-cases, inl,
  inr, List, [], ◌∷◌, ◌++◌, arith, select, exists_in, ◌==◌, ==_refl, ==_iff, some,
}
use my_music.Sql.{Entry, World, ok}
use my_music.Sql.Catch.{statement_lem}
use my_music.Dao.Catalog.{has_song}
use my_music.Dao.Playlists.{
  PlaylistSong, Playlist, playlist_id, get_or_create_playlist, is_entry, entries_of, greatest,
  after, create_playlist_song, add_entry,
}
use my_music.Dao.Playlists.Entries.{
  songs, Numbered, Fresh, Distinct, after-greatest, Numbered-append, Distinct-append,
}

-- A playlist's positions are 1, 2, 3, … along its rows, and no song is in it twice.
pub record IsPlaylist (p : ℕ) (w : World) : Type 0 where
  pub numbered : Numbered 1 (entries_of (pos p) w)
  pub distinct : Distinct (entries_of (pos p) w)

-- A connection is there and no statement fails.
pub record IsHealthy (w : World) : Type 0 where
  pub open_pool : w.stopped ≡ false
  pub no_faults : w.faults ≡ []

pub get_or_create_playlist_found :
    (pl : Playlist) (p : ℕ) (w : World)
    → IsHealthy w
    → playlist_id pl.user_id pl.name w ≡ some p
    → get_or_create_playlist pl w ≡ (ok (pos p), w)
unfolding get_or_create_playlist
get_or_create_playlist_found pl p w h e = simp (h.open_pool, statement_lem w h.no_faults, e)

pub not_listed :
    (p s : ℕ) (t : List Entry)
    → Fresh s (select (λ (e : Entry). eq_int (pos e.playlist_id) (pos p)) t)
    → exists_in (is_entry (pos p) (pos s)) t ≡ false
not_listed p s [] f = refl
not_listed p s (e ∷ t) f = elim (Bool-cases (e.playlist_id == p)) [
  | inl y ↦ let g = (rw y at f) in ground (arith, not_listed p s t g.1, ==_iff e.song_id s)
  | inr y ↦ let g = (rw y at f) in ground (arith, not_listed p s t g)
]

pub select-append :
    {A : Type 0} (f : A → Bool) (xs ys : List A) → select f (xs ++ ys) ≡ select f xs ++ select f ys
select-append f [] ys = refl
select-append f (x ∷ xs) ys = elim (Bool-cases (f x)) [
  | inl y ↦ rw y (ap (λ r. x ∷ r) (select-append f xs ys))
  | inr y ↦ rw y (select-append f xs ys)
]

abbrev new_entry : ℕ → ℕ → World → Entry
new_entry p s w = record {
  playlist_id = p;
  song_id = s;
  position = after (greatest (entries_of (pos p) w));
}

add_entry_new :
    (p s : ℕ) (ps : PlaylistSong) (w : World)
    → IsHealthy w
    → ps.song_id ≡ pos s
    → ps.position ≡ pos 0
    → has_song s w ≡ true
    → exists_in (is_entry (pos p) (pos s)) w.playlist_songs ≡ false
    → add_entry (pos p) ps w ≡ (
      ok tt,
      record w { db = record w.db { playlist_songs = w.playlist_songs ++ new_entry p s w ∷ [] } },
    )
unfolding add_entry
add_entry_new p s ps w h es ep hs ne = simp (statement_lem w h.no_faults, es, ep, ne, hs)

unfoldable pub added : ℕ → ℕ → World → World
added p s w = record w {
  db = record w.db { playlist_songs = w.playlist_songs ++ new_entry p s w ∷ [] };
}

entries_of-added_self :
    (p s : ℕ) (w : World)
    → entries_of (pos p) (added p s w) ≡ entries_of (pos p) w ++ new_entry p s w ∷ []
unfolding added
entries_of-added_self p s w =
    select-append (λ (e : Entry). eq_int (pos e.playlist_id) (pos p)) w.playlist_songs
      (new_entry p s w ∷ [])
    ∙ rw (==_refl p) refl

entries_of-added_ne :
    (p q s : ℕ) (w : World) → q ≢ p → entries_of (pos q) (added p s w) ≡ entries_of (pos q) w
unfolding added
entries_of-added_ne p q s w ne =
    select-append (λ (e : Entry). eq_int (pos e.playlist_id) (pos q)) w.playlist_songs
      (new_entry p s w ∷ [])
    ∙ other (Bool-cases (p == q))
  where
    other :
        ((p == q) ≡ true) ⊎ ((p == q) ≡ false)
        → (entries_of (pos q) w
            ++ select (λ (e : Entry). eq_int (pos e.playlist_id) (pos q)) (new_entry p s w ∷ []))
          ≡ entries_of (pos q) w
    other (inl y) = absurd (ne (sym ((==_iff p q).0 y)))
    other (inr y) = rw (y, append-nil)

pub create_playlist_song-added :
    (p s : ℕ) (ps : PlaylistSong) (w : World)
    → IsHealthy w
    → playlist_id ps.user_id ps.playlist_name w ≡ some p
    → ps.song_id ≡ pos s
    → ps.position ≡ pos 0
    → has_song s w ≡ true
    → Fresh s (entries_of (pos p) w)
    → create_playlist_song ps w ≡ (ok tt, added p s w)
unfolding create_playlist_song added
create_playlist_song-added p s ps w h found es ep hs fresh = simp (
  statement_lem w h.no_faults,
  h.open_pool,
  found,
  es,
  ep,
  not_listed p s w.playlist_songs fresh,
  hs,
)

songs-append : (es : List Entry) (x : Entry) → songs (es ++ x ∷ []) ≡ songs es ++ x.song_id ∷ []
songs-append [] x = refl
songs-append (e ∷ es) x = ap (λ (r : List ℕ). e.song_id ∷ r) (songs-append es x)

-- With no fault, adding a song that is in the table of songs to a user's playlist, which exists already,
-- is numbered from 1 without duplicates and lacks the song, with 0 for its position, succeeds and puts
-- the song last; the playlist stays numbered and free of duplicates, and every other playlist keeps its
-- rows.
pub create_playlist_song-appends :
    (p s : ℕ) (ps : PlaylistSong) (w : World)
    → IsHealthy w
    → IsPlaylist p w
    → playlist_id ps.user_id ps.playlist_name w ≡ some p
    → ps.song_id ≡ pos s
    → ps.position ≡ pos 0
    → has_song s w ≡ true
    → Fresh s (entries_of (pos p) w)
    → let r = create_playlist_song ps w in
      (r.0 ≡ ok tt)
      × (songs (entries_of (pos p) r.1) ≡ songs (entries_of (pos p) w) ++ s ∷ [])
      × IsPlaylist p r.1
      × ((q : ℕ) → q ≢ p → entries_of (pos q) r.1 ≡ entries_of (pos q) w)
create_playlist_song-appends p s ps w h v found es ep hs fresh =
    rw (create_playlist_song-added p s ps w h found es ep hs fresh) (
      refl,
      rw (entries_of-added_self p s w) (songs-append (entries_of (pos p) w) _),
      record {
        numbered =
            rw (entries_of-added_self p s w)
              (Numbered-append 1 _ _ v.numbered (after-greatest _ v.numbered));
        distinct = rw (entries_of-added_self p s w) (Distinct-append _ _ v.distinct fresh);
      },
      λ q ne. entries_of-added_ne p q s w ne,
    )

-- Adding a song that is in the playlist already, with no fault, succeeds and changes nothing.
pub create_playlist_song_again :
    (p s : ℕ) (ps : PlaylistSong) (w : World)
    → IsHealthy w
    → playlist_id ps.user_id ps.playlist_name w ≡ some p
    → ps.song_id ≡ pos s
    → exists_in (is_entry (pos p) (pos s)) w.playlist_songs ≡ true
    → create_playlist_song ps w ≡ (ok tt, w)
unfolding create_playlist_song
create_playlist_song_again p s ps w h found es known =
    simp (statement_lem w h.no_faults, h.open_pool, found, es, known)
