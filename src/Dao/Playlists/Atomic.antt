-- ===== src/Dao/Playlists/Atomic.antt =====
-- `updatePlaylistSongPosition` under failures: the transaction takes effect whole or not at all.
use my_music.Base.{
  ℕ, suc, ◌≡◌, refl, ◌∙◌, inl, inr, Bool, true, false, Bool-cases, List, [], ◌∷◌, map, select,
  subst, ℤ, ◌==◌,
}
use my_music.Sql.{
  World, Db, Entry, Outcome, ok, raised, sql_exception, statement, catch_sql, pure, continue, ◌>>◌,
}
use my_music.Sql.Catch.{ran, failed, statement-Ran}
use my_music.Dao.Playlists.{
  move_entry, set_position, entries_of, order_by_position, renumber, reposition,
  update_playlist_song_position,
}
use my_music.Dao.Playlists.Renumber.{moved, of_playlist}

abbrev with_entries : Db → List Entry → Db
with_entries d t = record d { playlist_songs = t }

-- The tables with the playlist renumbered.
abbrev pub repositioned : ℤ → Db → Db
repositioned p d =
    with_entries d
      (moved p 1 (order_by_position (select (of_playlist p) d.playlist_songs)) d.playlist_songs)

-- An effect that either does what is wanted to the tables or throws a `SQLException`.
data Done {A : Type 0} (a : A) (d : Db) (r : Outcome A × World) : Type 0 where
  done : (v : World) → r ≡ (ok a, v) → v.db ≡ d → Done a d r
  threw : (v : World) (c : ℕ) → r ≡ (raised (sql_exception c), v) → Done a d r

renumber-Done :
    (p : ℤ) (n : ℕ) (rows : List Entry) (w : World)
    → Done tt (with_entries w.db (moved p n rows w.playlist_songs)) (renumber p n rows w)
unfolding renumber
renumber-Done p n [] w = done w refl refl
renumber-Done p n (e ∷ es) w = elim (Bool-cases (e.position == n)) [
  | inl y ↦ rw y (renumber-Done p (suc n) es w)
  | inr y ↦ rw y (elim (statement-Ran w) [
    | ran v q same ↦ rw q (
        subst
          (λ (d : Db).
            Done tt
              (with_entries d
                (moved p (suc n) es (map (move_entry n p e.song_id) d.playlist_songs)))
              (renumber p (suc n) es (record v { db = set_position n p e.song_id v.db })))
          same (renumber-Done p (suc n) es (record v { db = set_position n p e.song_id v.db })))
    | failed v c q same ↦ rw q (threw v c refl)
  ])
]

-- COMMIT, the last statement.
commit-Done : (d : Db) (t : World) → t.db ≡ d → Done true d ((statement >> pure true) t)
commit-Done d t e = elim (statement-Ran t) [
  | ran v q same ↦ rw q (done v refl (same ∙ e))
  | failed v c q same ↦ rw q (threw v c refl)
]

finish-Done :
    (d : Db) (r : Outcome (Unit {0}) × World)
    → Done tt d r
    → Done true d (continue r.0 (λ _. statement >> pure true) r.1)
finish-Done d r (done v q e) = rw q (commit-Done d v e)
finish-Done d r (threw v c q) = rw q (threw v c refl)

loop-Done :
    (p : ℤ) (u : World)
    → Done true
        (repositioned p u.db)
        ((renumber p 1 (order_by_position (entries_of p u)) >> (statement >> pure true)) u)
loop-Done p u =
    finish-Done (repositioned p u.db) (renumber p 1 (order_by_position (entries_of p u)) u)
      (renumber-Done p 1 (order_by_position (entries_of p u)) u)

at_tables :
    (p : ℤ) {d d' : Db} {r : Outcome Bool × World}
    → d ≡ d'
    → Done true (repositioned p d) r
    → Done true (repositioned p d') r
at_tables p {d} {d'} {r} e h = subst (λ (x : Db). Done true (repositioned p x) r) e h

reposition-Done : (p : ℤ) (w : World) → Done true (repositioned p w.db) (reposition p w)
unfolding reposition
reposition-Done p w = elim (statement-Ran w) [
  | ran v q same ↦ rw q (elim (statement-Ran v) [
    | ran u q' same' ↦ rw q' (at_tables p (same' ∙ same) (loop-Done p u))
    | failed u c q' same' ↦ rw q' (threw u c refl)
  ])
  | failed v c q same ↦ rw q (threw v c refl)
]

-- The two ways the update can end.
pub data Settled (p : ℤ) (w : World) (r : Outcome Bool × World) : Type 0 where
  rolled_back : r.0 ≡ ok false → r.1.db ≡ w.db → Settled p w r
  committed : (b : Bool) → r.0 ≡ ok b → r.1.db ≡ repositioned p w.db → Settled p w r

-- The attempt to switch autocommit on again.
resume :
    (b : Bool) (w : World)
    → (c : Bool) × ((catch_sql false (statement >> pure b) w).0 ≡ ok c)
      × ((catch_sql false (statement >> pure b) w).1.db ≡ w.db)
resume b w = elim (statement-Ran w) [
  | ran v q same ↦ rw q (b, refl, same)
  | failed v c q same ↦ rw q (false, refl, same)
]

settled :
    (p : ℤ) (w : World)
    → w.stopped ≡ false
    → Done true (repositioned p w.db) (reposition p w)
    → Settled p w (update_playlist_song_position p w)
unfolding update_playlist_song_position
settled p w h (done v q e) =
    simp (h, q) (committed (resume true v).0 (resume true v).1 ((resume true v).2 ∙ e))
settled p w h (threw v c q) = simp (h, q) (rolled_back refl refl)

-- Whatever statements fail, the renumbering of a playlist either leaves every table as it was and
-- answers false, or renumbers the whole playlist; it never throws.
pub update_playlist_song_position-Settled :
    (p : ℤ) (w : World) → Settled p w (update_playlist_song_position p w)
update_playlist_song_position-Settled p w = elim (Bool-cases w.stopped) [
  | inl y ↦ unfold update_playlist_song_position in simp y (rolled_back refl refl)
  | inr y ↦ settled p w y (reposition-Done p w)
]
