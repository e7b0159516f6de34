-- ===== src/Dao/Lists/Shown.antt =====
-- A playlist's page shows its songs in their order.
use my_music.Base.{
  ℕ, ◌<◌, ◌≡◌, refl, ℤ, pos, lt→ltb, ◌==◌, ==_iff, true, Bool-cases, inl, inr, some, Text, List, [],
  ◌∷◌, map, first, exists_in, All,
}
use my_music.Sql.{World, SongRow, AlbumRow, Entry, ok}
use my_music.Sql.Catch.{statement_lem}
use my_music.Dao.Catalog.{has_song}
use my_music.Dao.Playlists.{entries_of, order_by_position, get_playlist_id}
use my_music.Dao.Playlists.Entries.{songs, Numbered-Ranked, order_by_position-Ranked}
use my_music.Dao.Playlists.Commands.{HasPlaylist}
use my_music.Dao.Lists.{
  MusicInfo, music_of, album_row, song_of, shown_song, shown_entries, get_playlist_songs,
  get_named_playlist_songs,
}

abbrev pub ids : List MusicInfo → List ℕ
ids = map (λ m. m.id)

-- The foreign key from songs to albums.
abbrev pub HasAlbum : World → SongRow → Type 0
HasAlbum w s = (a : AlbumRow) × (album_row s.album_id w ≡ some a)

abbrev IsFound : World → List SongRow → ℕ → Type 0
IsFound w rows i =
    (s : SongRow) × (first (λ (r : SongRow). r.id == i) rows ≡ some s) × (s.id ≡ i) × HasAlbum w s

found :
    (w : World) (i : ℕ) (rows : List SongRow)
    → exists_in (λ (r : SongRow). r.id == i) rows ≡ true
    → All (HasAlbum w) rows
    → IsFound w rows i
found w i [] e a = cc
found w i (r ∷ rows) e a = elim (Bool-cases (r.id == i)) [
  | inl y ↦ (r, rw y refl, (==_iff r.id i).0 y, a.0)
  | inr y ↦ let (s, f, n, h) = found w i rows (rw y at e) a.1 in (s, rw y f, n, h)
]

shown_entry :
    (user : ℤ) (w : World) (i : ℕ)
    → has_song i w ≡ true
    → All (HasAlbum w) w.songs
    → (m : MusicInfo) × (shown_song user w (song_of i w) ≡ m ∷ []) × (m.id ≡ i)
shown_entry user w i e a =
    let (s, f, n, (b, h)) = found w i w.songs e a in (music_of user w s b, rw (f, h) refl, n)

ids-shown_entries :
    (user : ℤ) (w : World) (es : List Entry)
    → All (λ i. has_song i w ≡ true) (songs es)
    → All (HasAlbum w) w.songs
    → ids (shown_entries user w es) ≡ songs es
ids-shown_entries user w [] k a = refl
ids-shown_entries user w (e ∷ es) k a =
    let (m, f, n) = shown_entry user w e.song_id k.0 a in
    rw (f, n, ids-shown_entries user w es k.1 a) refl

-- The page of a playlist with no fault.
pub get_named_playlist_songs-ids :
    (user : ℤ) (name : Text) (p : ℕ) (w : World)
    → 0 < p
    → HasPlaylist user name p w
    → All (λ i. has_song i w ≡ true) (songs (entries_of (pos p) w))
    → All (HasAlbum w) w.songs
    → (l : List MusicInfo) × (get_named_playlist_songs user name w ≡ (ok l, w))
      × (ids l ≡ songs (entries_of (pos p) w))
unfolding get_named_playlist_songs get_playlist_id get_playlist_songs
get_named_playlist_songs-ids user name p w q h k a =
    let es = entries_of (pos p) w in
    let sorted = order_by_position-Ranked 0 es (Numbered-Ranked 0 es h.listed.numbered) in
    (
      shown_entries user w (order_by_position es),
      simp (h.healthy.open_pool, statement_lem w h.healthy.no_faults, h.found, lt→ltb 0 p q),
      rw sorted (ids-shown_entries user w es k a),
    )
