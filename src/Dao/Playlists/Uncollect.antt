-- ===== src/Dao/Playlists/Uncollect.antt =====
-- What removing a song does: the two `deletePlaylistSong` of Server/SessionServer/MysqlManager.cpp,
-- which delete the row and renumber those that are left.
use my_music.Base.{
  exists_in, ℕ, ◌≡◌, ◌≢◌, refl, ap, ◌∙◌, pos, true, false, Bool-cases, inl, inr, List, select,
}
use my_music.Sql.{Entry, World, ok}
use my_music.Dao.Playlists.{is_entry, entries_of, delete_and_renumber}
use my_music.Dao.Playlists.Entries.{songs, number-Numbered, songs-number, Distinct-number}
use my_music.Dao.Playlists.Renumber.{of_playlist}
use my_music.Dao.Playlists.Collect.{IsPlaylist, IsHealthy}
use my_music.Dao.Playlists.Rows.{
  renumbered, update_position_lem, delete_lem, entries_of-renumbered, entries_of-renumbered_ne,
  without, songs-delete, affected-exists, none_deleted, deleted, deleted-Ranked, deleted-Distinct,
  deleted_entries_ne,
}

delete_found :
    (p s : ℕ) (w : World)
    → IsHealthy w
    → exists_in (is_entry (pos p) (pos s)) w.playlist_songs ≡ true
    → delete_and_renumber (pos p) (pos s) w ≡ (ok true, renumbered p (deleted p s w))
unfolding delete_and_renumber deleted
delete_found p s w h e = simp (
  delete_lem p s w h,
  affected-exists (is_entry (pos p) (pos s)) w.playlist_songs,
  e,
  update_position_lem p _ (record { open_pool = h.open_pool; no_faults = h.no_faults }),
)

delete_missing :
    (p s : ℕ) (w : World)
    → IsHealthy w
    → exists_in (is_entry (pos p) (pos s)) w.playlist_songs ≡ false
    → delete_and_renumber (pos p) (pos s) w ≡ (ok false, deleted p s w)
unfolding delete_and_renumber deleted
delete_missing p s w h e =
    simp (delete_lem p s w h, affected-exists (is_entry (pos p) (pos s)) w.playlist_songs, e)

-- What the removal of song s from playlist p promises of the state behind it.
pub record Removed (p s : ℕ) (w v : World) : Type 0 where
  pub left : songs (entries_of (pos p) v) ≡ without s (songs (entries_of (pos p) w))
  pub tidy : IsPlaylist p v
  pub others : (q : ℕ) → q ≢ p → entries_of (pos q) v ≡ entries_of (pos q) w

renumbered-Removed :
    (p s : ℕ) (w : World) → IsPlaylist p w → Removed p s w (renumbered p (deleted p s w))
renumbered-Removed p s w v =
    let d = deleted p s w in
    let e = entries_of-renumbered p d (deleted-Ranked p s w v) (deleted-Distinct p s w v) in
    record {
      left =
          ap songs e
          ∙ songs-number 1 (entries_of (pos p) d)
          ∙ unfold deleted in songs-delete p s w.playlist_songs;
      tidy = record {
        numbered = rw e (number-Numbered 1 (entries_of (pos p) d));
        distinct = rw e (Distinct-number 1 (entries_of (pos p) d) (deleted-Distinct p s w v));
      };
      others = λ q ne. entries_of-renumbered_ne p q d ne ∙ deleted_entries_ne p q s w ne;
    }

missing-Removed :
    (p s : ℕ) (w : World)
    → IsPlaylist p w
    → exists_in (is_entry (pos p) (pos s)) w.playlist_songs ≡ false
    → Removed p s w (deleted p s w)
missing-Removed p s w v e =
    let same : entries_of (pos p) (deleted p s w) ≡ entries_of (pos p) w =
      unfold deleted in
      ap (select (of_playlist (pos p)))
        (none_deleted (is_entry (pos p) (pos s)) w.playlist_songs e) in
    record {
      left = unfold deleted in songs-delete p s w.playlist_songs;
      tidy = record { numbered = rw same v.numbered; distinct = rw same v.distinct };
      others = λ q ne. deleted_entries_ne p q s w ne;
    }

-- Removing song s from a numbered playlist p, with no fault, answers whether the song was there; it
-- leaves the other songs in their order, numbers them from 1 again, and every other playlist keeps
-- its rows.
pub delete_and_renumber-removes :
    (p s : ℕ) (w : World)
    → IsHealthy w
    → IsPlaylist p w
    → let r = delete_and_renumber (pos p) (pos s) w in
      (r.0 ≡ ok (exists_in (is_entry (pos p) (pos s)) w.playlist_songs)) × Removed p s w r.1
delete_and_renumber-removes p s w h v =
    elim (Bool-cases (exists_in (is_entry (pos p) (pos s)) w.playlist_songs)) [
      | inl e ↦ rw (delete_found p s w h e, e) (refl, renumbered-Removed p s w v)
      | inr e ↦ rw (delete_missing p s w h e, e) (refl, missing-Removed p s w v e)
    ]

-- The world with other rows of `playlist_songs`.
abbrev pub with_rows : World → List Entry → World
with_rows w t = record w { db = record w.db { playlist_songs = t } }

-- Nothing else changes.
pub delete_and_renumber-rows :
    (p s : ℕ) (w : World)
    → IsHealthy w
    → (t : List Entry) × ((delete_and_renumber (pos p) (pos s) w).1 ≡ with_rows w t)
unfolding deleted
delete_and_renumber-rows p s w h =
    elim (Bool-cases (exists_in (is_entry (pos p) (pos s)) w.playlist_songs)) [
      | inl e ↦ rw (delete_found p s w h e) (_, refl)
      | inr e ↦ rw (delete_missing p s w h e) (_, refl)
    ]
