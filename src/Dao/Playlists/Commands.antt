-- ===== src/Dao/Playlists/Commands.antt =====
-- A playlist as a list of songs, and the methods as its commands.
use my_music.Base.{
  ℕ, ◌<◌, ◌≡◌, refl, sym, ap, ◌∙◌, ℤ, pos, eq_int, lt→ltb, Bool, true, false, Bool-cases, inl, inr,
  some, Text, List, [], ◌∷◌, ◌++◌, select, exists_in, ◌==◌, ==_iff, All, if◌then◌else◌, arith,
}
use my_music.Sql.{Entry, World}
use my_music.Sql.Catch.{statement_lem}
use my_music.Dao.Catalog.{has_song}
use my_music.Dao.Playlists.{
  PlaylistSong, playlist_id, entries_of, is_entry, create_playlist_song, get_playlist_id,
  delete_and_renumber, delete_named_playlist_song,
}
use my_music.Dao.Playlists.Entries.{songs, Fresh}
use my_music.Dao.Playlists.Rows.{without}
use my_music.Dao.Playlists.Collect.{
  IsHealthy, IsPlaylist, added, create_playlist_song-added, create_playlist_song-appends,
  create_playlist_song_again,
}
use my_music.Dao.Playlists.Uncollect.{delete_and_renumber-removes, delete_and_renumber-rows}

pub data Command : Type 0 where
  add remove : ℕ → Command

abbrev pub contains : ℕ → List ℕ → Bool
contains s = exists_in (λ x. x == s)

-- What a command means.
abbrev pub apply : Command → List ℕ → List ℕ
apply (add s) l = if contains s l then l else l ++ s ∷ []
apply (remove s) l = without s l

abbrev pub apply_all : List Command → List ℕ → List ℕ
apply_all [] l = l
apply_all (c ∷ cs) l = apply_all cs (apply c l)

abbrev pub last_song : ℤ → Text → ℕ → PlaylistSong
last_song user name s = record {
  playlist_name = name;
  user_id = user;
  song_id = pos s;
  position = pos 0;
}

-- The methods behind the commands.
pub execute : ℤ → Text → Command → World → World
execute user name (add s) w = (create_playlist_song (last_song user name s) w).1
execute user name (remove s) w = (delete_named_playlist_song user name (pos s) w).1

pub execute_all : ℤ → Text → List Command → World → World
execute_all user name [] w = w
execute_all user name (c ∷ cs) w = execute_all user name cs (execute user name c w)

-- The user has this playlist, well kept, and no statement fails.
pub record HasPlaylist (user : ℤ) (name : Text) (p : ℕ) (w : World) : Type 0 where
  pub healthy : IsHealthy w
  pub listed : IsPlaylist p w
  pub found : playlist_id user name w ≡ some p

-- The song of an added row is in the table.
abbrev pub IsKnown : World → Command → Type 0
IsKnown w (add s) = has_song s w ≡ true
IsKnown w (remove s) = Unit

contains-entries :
    (p s : ℕ) (t : List Entry)
    → contains s (songs (select (λ (e : Entry). eq_int (pos e.playlist_id) (pos p)) t))
      ≡ exists_in (is_entry (pos p) (pos s)) t
contains-entries p s [] = refl
contains-entries p s (e ∷ t) = elim (Bool-cases (e.playlist_id == p)) [
  | inl y ↦ rw (y, contains-entries p s t) refl
  | inr y ↦ rw y (contains-entries p s t)
]

contains-Fresh : (s : ℕ) (es : List Entry) → contains s (songs es) ≡ false → Fresh s es
contains-Fresh s [] h = tt
contains-Fresh s (e ∷ es) h = ground (arith, contains-Fresh s es, ==_iff e.song_id s)

-- What one command keeps and does.
record Executed (user : ℤ) (name : Text) (p : ℕ) (c : Command) (w v : World) : Type 0 where
  has : HasPlaylist user name p v
  songs_kept : v.songs ≡ w.songs
  albums_kept : v.albums ≡ w.albums
  meaning : songs (entries_of (pos p) v) ≡ apply c (songs (entries_of (pos p) w))

execute-add :
    (user : ℤ) (name : Text) (p s : ℕ) (w : World)
    → HasPlaylist user name p w
    → has_song s w ≡ true
    → Executed user name p (add s) w (execute user name (add s) w)
unfolding execute
execute-add user name p s w h k =
    let ps = last_song user name s in
    elim (Bool-cases (contains s (songs (entries_of (pos p) w)))) [
      | inl y ↦
          let again =
            create_playlist_song_again p s ps w h.healthy h.found refl
              (sym (contains-entries p s w.playlist_songs) ∙ y) in
          rw (execute, again)
            (record { has = h; songs_kept = refl; albums_kept = refl; meaning = rw y refl })
      | inr y ↦
          let f = contains-Fresh s (entries_of (pos p) w) y in
          let e = create_playlist_song-added p s ps w h.healthy h.found refl refl k f in
          let a = create_playlist_song-appends p s ps w h.healthy h.listed h.found refl refl k f in
          let b = (rw e at a) in
          rw (execute, e)
            (record {
              has = record {
                healthy =
                    unfold added in
                    record { open_pool = h.healthy.open_pool; no_faults = h.healthy.no_faults };
                listed = b.2;
                found = unfold added in h.found;
              };
              songs_kept = unfold added in refl;
              albums_kept = unfold added in refl;
              meaning = b.1 ∙ rw y refl;
            })
    ]

removes_row :
    (user : ℤ) (name : Text) (p s : ℕ) (w : World)
    → 0 < p
    → HasPlaylist user name p w
    → delete_named_playlist_song user name (pos s) w ≡ delete_and_renumber (pos p) (pos s) w
unfolding delete_named_playlist_song get_playlist_id
removes_row user name p s w q h =
    simp (h.healthy.open_pool, statement_lem w h.healthy.no_faults, h.found, lt→ltb 0 p q)

execute-remove :
    (user : ℤ) (name : Text) (p s : ℕ) (w : World)
    → 0 < p
    → HasPlaylist user name p w
    → Executed user name p (remove s) w (execute user name (remove s) w)
unfolding execute
execute-remove user name p s w q h =
    let r = delete_and_renumber-removes p s w h.healthy h.listed in
    let t = delete_and_renumber-rows p s w h.healthy in
    rw (execute, removes_row user name p s w q h)
      (record {
        has = record {
          healthy =
              rw t.1 (record { open_pool = h.healthy.open_pool; no_faults = h.healthy.no_faults });
          listed = r.1.tidy;
          found = rw t.1 h.found;
        };
        songs_kept = rw t.1 refl;
        albums_kept = rw t.1 refl;
        meaning = r.1.left;
      })

execute_lem :
    (user : ℤ) (name : Text) (p : ℕ) (c : Command) (w : World)
    → 0 < p
    → HasPlaylist user name p w
    → IsKnown w c
    → Executed user name p c w (execute user name c w)
execute_lem user name p (add s) w q h k = execute-add user name p s w h k
execute_lem user name p (remove s) w q h k = execute-remove user name p s w q h

IsKnown-songs :
    (w v : World) (cs : List Command) → v.songs ≡ w.songs → All (IsKnown w) cs → All (IsKnown v) cs
IsKnown-songs w v [] e a = tt
IsKnown-songs w v (add s ∷ cs) e a = (rw e a.0, IsKnown-songs w v cs e a.1)
IsKnown-songs w v (remove s ∷ cs) e a = (tt, IsKnown-songs w v cs e a.1)

-- The state behind all commands.
pub record Refines (user : ℤ) (name : Text) (p : ℕ) (cs : List Command) (w v : World) : Type 0 where
  pub has : HasPlaylist user name p v
  pub songs_kept : v.songs ≡ w.songs
  pub albums_kept : v.albums ≡ w.albums
  pub meaning : songs (entries_of (pos p) v) ≡ apply_all cs (songs (entries_of (pos p) w))

pub execute_all-Refines :
    (user : ℤ) (name : Text) (p : ℕ) (cs : List Command) (w : World)
    → 0 < p
    → HasPlaylist user name p w
    → All (IsKnown w) cs
    → Refines user name p cs w (execute_all user name cs w)
unfolding execute_all
execute_all-Refines user name p [] w q h a = record {
  has = h;
  songs_kept = refl;
  albums_kept = refl;
  meaning = refl;
}
execute_all-Refines user name p (c ∷ cs) w q h a =
    let d = execute_lem user name p c w q h a.0 in
    let v = execute user name c w in
    let r = execute_all-Refines user name p cs v q d.has (IsKnown-songs w v cs d.songs_kept a.1) in
    record {
      has = r.has;
      songs_kept = r.songs_kept ∙ d.songs_kept;
      albums_kept = r.albums_kept ∙ d.albums_kept;
      meaning = r.meaning ∙ ap (apply_all cs) d.meaning;
    }

-- Whatever sequence of additions (of songs that are in the catalogue) and removals a client makes on one
-- of its playlists, with no fault, the rows of the playlist read as the list that the same commands make
-- of the old list; and they stay numbered from 1 and free of duplicates.
pub execute_all-refines :
    (user : ℤ) (name : Text) (p : ℕ) (cs : List Command) (w : World)
    → 0 < p
    → HasPlaylist user name p w
    → All (IsKnown w) cs
    → (songs (entries_of (pos p) (execute_all user name cs w))
        ≡ apply_all cs (songs (entries_of (pos p) w)))
      × IsPlaylist p (execute_all user name cs w)
execute_all-refines user name p cs w q h a =
    let r = execute_all-Refines user name p cs w q h a in (r.meaning, r.has.listed)
