-- ===== src/Dao/Playlists/Rows.antt =====
-- What deleting a song and renumbering do to the rows of `playlist_songs`, for the two
-- `deletePlaylistSong` of Server/SessionServer/MysqlManager.cpp.
use my_music.Base.{
  exists_in, ℕ, suc, ◌≡◌, ◌≢◌, refl, ap, ◌∙◌, pos, Bool, true, false, not, Bool-cases, inl, inr,
  List, [], ◌∷◌, map, arith, select, ◌==◌, ==_iff, length, All, ltb,
}
use my_music.Sql.{Entry, World, ok}
use my_music.Sql.Catch.{fault_lem}
use my_music.Dao.Playlists.{
  is_entry, entries_of, order_by_position, move_entry, update_playlist_song_position,
  delete_playlist_song, delete_entry,
}
use my_music.Dao.Playlists.Entries.{
  songs, Ranked, Fresh, Distinct, number, select-Ranked, select-Distinct, Numbered-Ranked,
  order_by_position-Ranked,
}
use my_music.Dao.Playlists.Renumber.{moved, renumber-moved, select-moved, moved-number, of_playlist}
use my_music.Dao.Playlists.Collect.{IsPlaylist, IsHealthy}

-- The table after a successful renumbering of the playlist.
abbrev pub renumbered : ℕ → World → World
renumbered p w = record w {
  db = record w.db {
    playlist_songs = moved (pos p) 1 (order_by_position (entries_of (pos p) w)) w.playlist_songs;
  };
}

pub update_position_lem :
    (p : ℕ) (w : World)
    → IsHealthy w
    → update_playlist_song_position (pos p) w ≡ (ok true, renumbered p w)
unfolding update_playlist_song_position
update_position_lem p w h = simp (
  fault_lem w h.no_faults,
  h.open_pool,
  renumber-moved (pos p) 1 (order_by_position (entries_of (pos p) w)) w h.no_faults,
)

pub delete_lem :
    (p s : ℕ) (w : World)
    → IsHealthy w
    → delete_playlist_song (pos p) (pos s) w ≡ (
      ok (ltb 0 (length (select (is_entry (pos p) (pos s)) w.playlist_songs))),
      record w { db = delete_entry (pos p) (pos s) w.db },
    )
unfolding delete_playlist_song
delete_lem p s w h = simp (fault_lem w h.no_faults, h.open_pool)

select-of_playlist :
    (p : ℕ) (t : List Entry)
    → All (λ e. of_playlist (pos p) e ≡ true) (select (of_playlist (pos p)) t)
select-of_playlist p [] = tt
select-of_playlist p (e ∷ t) = elim (Bool-cases (e.playlist_id == p)) [
  | inl y ↦ rw y (y, select-of_playlist p t)
  | inr y ↦ rw y (select-of_playlist p t)
]

Fresh-All : (es : List Entry) → All (λ x. Fresh x.song_id []) es
Fresh-All [] = tt
Fresh-All (e ∷ es) = (tt, Fresh-All es)

-- Renumbering a playlist whose positions grow gives each of its rows its rank.
pub entries_of-renumbered :
    (p : ℕ) (w : World)
    → Ranked 0 (entries_of (pos p) w)
    → Distinct (entries_of (pos p) w)
    → entries_of (pos p) (renumbered p w) ≡ number 1 (entries_of (pos p) w)
entries_of-renumbered p w r d =
    select-moved (of_playlist (pos p)) (pos p) 1 (order_by_position (entries_of (pos p) w))
      w.playlist_songs (λ k s e. ground arith)
    ∙ rw (order_by_position-Ranked 0 _ r) (
        moved-number (pos p) 1 [] (entries_of (pos p) w) (select-of_playlist p w.playlist_songs) d
          (Fresh-All _))

-- Rows of other playlists are not moved.
map-move_other :
    (n p s : ℕ) (t : List Entry)
    → All (λ e. of_playlist (pos p) e ≡ false) t
    → map (move_entry n (pos p) s) t ≡ t
map-move_other n p s [] h = refl
map-move_other n p s (e ∷ t) h = ground (arith, map-move_other n p s t h.1)

moved_other :
    (p n : ℕ) (rows t : List Entry)
    → All (λ e. of_playlist (pos p) e ≡ false) t
    → moved (pos p) n rows t ≡ t
moved_other p n [] t h = refl
moved_other p n (e ∷ es) t h = elim (Bool-cases (e.position == n)) [
  | inl y ↦ rw y (moved_other p (suc n) es t h)
  | inr y ↦ rw (y, map-move_other n p e.song_id t h) (moved_other p (suc n) es t h)
]

select_of_other :
    (p q : ℕ) (t : List Entry)
    → q ≢ p
    → All (λ e. of_playlist (pos p) e ≡ false) (select (of_playlist (pos q)) t)
select_of_other p q [] ne = tt
select_of_other p q (e ∷ t) ne = elim (Bool-cases (e.playlist_id == q)) [
  | inl y ↦
      rw y
        (ground (arith, ==_iff e.playlist_id q, ==_iff e.playlist_id p), select_of_other p q t ne)
  | inr y ↦ rw y (select_of_other p q t ne)
]

pub entries_of-renumbered_ne :
    (p q : ℕ) (w : World) → q ≢ p → entries_of (pos q) (renumbered p w) ≡ entries_of (pos q) w
entries_of-renumbered_ne p q w ne =
    select-moved (of_playlist (pos q)) (pos p) 1 (order_by_position (entries_of (pos p) w))
      w.playlist_songs (λ k s e. ground arith)
    ∙ moved_other p 1 (order_by_position (entries_of (pos p) w)) _
        (select_of_other p q w.playlist_songs ne)

-- The songs that are left of a playlist.
abbrev pub without : ℕ → List ℕ → List ℕ
without s = select (λ x. not (x == s))

pub songs-delete :
    (p s : ℕ) (t : List Entry)
    → songs (select (of_playlist (pos p)) (select (λ e. not (is_entry (pos p) (pos s) e)) t))
      ≡ without s (songs (select (of_playlist (pos p)) t))
songs-delete p s [] = refl
songs-delete p s (e ∷ t) = elim (Bool-cases (e.playlist_id == p)) [
  | inl y ↦ elim (Bool-cases (e.song_id == s)) [
    | inl z ↦ rw (y, z) (songs-delete p s t)
    | inr z ↦ rw (y, z, y) (ap (λ (r : List ℕ). e.song_id ∷ r) (songs-delete p s t))
  ]
  | inr y ↦ rw (y, y) (songs-delete p s t)
]

pub affected-exists :
    (f : Entry → Bool) (t : List Entry) → ltb 0 (length (select f t)) ≡ exists_in f t
affected-exists f [] = refl
affected-exists f (e ∷ t) = elim (Bool-cases (f e)) [
  | inl y ↦ rw y (ground arith)
  | inr y ↦ rw y (affected-exists f t)
]

pub none_deleted :
    (f : Entry → Bool) (t : List Entry) → exists_in f t ≡ false → select (λ e. not (f e)) t ≡ t
none_deleted f [] h = refl
none_deleted f (e ∷ t) h = ground (arith, none_deleted f t)

unfoldable pub deleted : ℕ → ℕ → World → World
deleted p s w = record w { db = delete_entry (pos p) (pos s) w.db }

select_comm : (f g : Entry → Bool) (t : List Entry) → select f (select g t) ≡ select g (select f t)
select_comm f g [] = refl
select_comm f g (e ∷ t) = elim (Bool-cases (f e)) [
  | inl y ↦ elim (Bool-cases (g e)) [
    | inl z ↦ simp (y, z, select_comm f g t)
    | inr z ↦ simp (y, z, select_comm f g t)
  ]
  | inr y ↦ elim (Bool-cases (g e)) [
    | inl z ↦ simp (y, z, select_comm f g t)
    | inr z ↦ simp (y, z, select_comm f g t)
  ]
]

deleted_entries :
    (p q s : ℕ) (w : World)
    → entries_of (pos q) (deleted p s w)
      ≡ select (λ e. not (is_entry (pos p) (pos s) e)) (entries_of (pos q) w)
unfolding deleted
deleted_entries p q s w =
    select_comm (of_playlist (pos q)) (λ e. not (is_entry (pos p) (pos s) e)) w.playlist_songs

pub deleted-Ranked :
    (p s : ℕ) (w : World) → IsPlaylist p w → Ranked 0 (entries_of (pos p) (deleted p s w))
deleted-Ranked p s w v =
    rw (deleted_entries p p s w) (select-Ranked _ 0 _ (Numbered-Ranked 0 _ v.numbered))

pub deleted-Distinct :
    (p s : ℕ) (w : World) → IsPlaylist p w → Distinct (entries_of (pos p) (deleted p s w))
deleted-Distinct p s w v = rw (deleted_entries p p s w) (select-Distinct _ _ v.distinct)

kept_entries :
    (p s : ℕ) (t : List Entry)
    → All (λ e. of_playlist (pos p) e ≡ false) t
    → select (λ e. not (is_entry (pos p) (pos s) e)) t ≡ t
kept_entries p s [] h = refl
kept_entries p s (e ∷ t) h = ground (arith, kept_entries p s t h.1)

pub deleted_entries_ne :
    (p q s : ℕ) (w : World) → q ≢ p → entries_of (pos q) (deleted p s w) ≡ entries_of (pos q) w
deleted_entries_ne p q s w ne =
    deleted_entries p q s w ∙ kept_entries p s _ (select_of_other p q w.playlist_songs ne)
