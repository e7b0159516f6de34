-- ===== src/Dao/Lists/Edited.antt =====
-- What a client sees of a playlist after it changed it.
use my_music.Base.{
  ℕ, ◌<◌, ◌≡◌, refl, ◌∙◌, ℤ, pos, ◌==◌, true, Bool-cases, inl, inr, Text, List, [], ◌∷◌, ◌++◌, All,
}
use my_music.Sql.{World, SongRow, ok}
use my_music.Dao.Catalog.{has_song}
use my_music.Dao.Playlists.{entries_of}
use my_music.Dao.Playlists.Entries.{songs}
use my_music.Dao.Playlists.Rows.{without}
use my_music.Dao.Playlists.Commands.{
  Command, add, remove, contains, apply, apply_all, execute_all, HasPlaylist, IsKnown,
  execute_all-Refines,
}
use my_music.Dao.Lists.{MusicInfo, get_named_playlist_songs}
use my_music.Dao.Lists.Shown.{ids, HasAlbum, get_named_playlist_songs-ids}

module _ (w : World) where
  abbrev Known : ℕ → Type 0
  Known s = has_song s w ≡ true

  append-Known : (l : List ℕ) (s : ℕ) → All Known l → Known s → All Known (l ++ s ∷ [])
  append-Known [] s a k = (k, tt)
  append-Known (x ∷ l) s a k = (a.0, append-Known l s a.1 k)

  without-Known : (s : ℕ) (l : List ℕ) → All Known l → All Known (without s l)
  without-Known s [] a = tt
  without-Known s (x ∷ l) a = elim (Bool-cases (x == s)) [
    | inl y ↦ rw y (without-Known s l a.1)
    | inr y ↦ rw y (a.0, without-Known s l a.1)
  ]

  apply-Known : (c : Command) (l : List ℕ) → IsKnown w c → All Known l → All Known (apply c l)
  apply-Known (add s) l k a = elim (Bool-cases (contains s l)) [
    | inl y ↦ rw y a
    | inr y ↦ rw y (append-Known l s a k)
  ]
  apply-Known (remove s) l k a = without-Known s l a

  apply_all-Known :
      (cs : List Command) (l : List ℕ)
      → All (IsKnown w) cs
      → All Known l
      → All Known (apply_all cs l)
  apply_all-Known [] l k a = a
  apply_all-Known (c ∷ cs) l k a = apply_all-Known cs (apply c l) k.1 (apply-Known c l k.0 a)

HasAlbum-albums :
    (w v : World) (rows : List SongRow)
    → v.albums ≡ w.albums
    → All (HasAlbum w) rows
    → All (HasAlbum v) rows
HasAlbum-albums w v [] e a = tt
HasAlbum-albums w v (r ∷ rows) e a = (rw e a.0, HasAlbum-albums w v rows e a.1)

-- Whatever sequence of additions (of songs that are in the catalogue) and removals a client makes on one
-- of its playlists, the list that `getPlaylistSongs` gives behind it has exactly the songs, in the same
-- order, of the list that the commands make of the old one; with no fault, if the playlist's songs and
-- every song's album are in the catalogue.
pub get_named_playlist_songs-execute_all :
    (user : ℤ) (name : Text) (p : ℕ) (cs : List Command) (w : World)
    → 0 < p
    → HasPlaylist user name p w
    → All (IsKnown w) cs
    → All (λ i. has_song i w ≡ true) (songs (entries_of (pos p) w))
    → All (HasAlbum w) w.songs
    → (l : List MusicInfo) × ((get_named_playlist_songs user name (execute_all user name cs w)).0
        ≡ ok l)
      × (ids l ≡ apply_all cs (songs (entries_of (pos p) w)))
get_named_playlist_songs-execute_all user name p cs w q h k there a =
    let v = execute_all user name cs w in
    let r = execute_all-Refines user name p cs w q h k in
    let known : All (λ i. has_song i v ≡ true) (songs (entries_of (pos p) v)) =
      rw (r.meaning, r.songs_kept) (apply_all-Known w cs (songs (entries_of (pos p) w)) k there) in
    let albums : All (HasAlbum v) v.songs =
      rw r.songs_kept (HasAlbum-albums w v w.songs r.albums_kept a) in
    let (l, e, i) = get_named_playlist_songs-ids user name p v q r.has known albums in
    (l, rw e refl, i ∙ r.meaning)
