-- ===== src/Dao/Playlists/Renumber.antt =====
-- The loop of `updatePlaylistSongPosition`, on the table and on one playlist's rows.
use my_music.Base.{
  ℕ, suc, ◌≡◌, refl, ap, sym, ◌∙◌, ℤ, pos, eq_int, Bool, true, Bool-cases, inl, inr, List, [], ◌∷◌,
  ◌++◌, map, append_assoc, arith, select, All, ◌==◌, ==_refl, ==_iff, if◌then◌else◌,
}
use my_music.Sql.{Entry, World, ok}
use my_music.Sql.Catch.{statement_lem}
use my_music.Dao.Playlists.{move_entry, renumber}
use my_music.Dao.Playlists.Entries.{Fresh, Distinct, number, Fresh-append}

-- The effect of the loop on a list of rows.
abbrev pub moved : ℤ → ℕ → List Entry → List Entry → List Entry
moved p n [] t = t
moved p n (e ∷ es) t =
    moved p (suc n) es (if e.position == n then t else map (move_entry n p e.song_id) t)

with_entries : World → List Entry → World
with_entries w t = record w { db = record w.db { playlist_songs = t } }

renumber_step :
    (p : ℤ) (n : ℕ) (e : Entry) (es : List Entry) (w : World)
    → w.faults ≡ []
    → renumber p n (e ∷ es) w
      ≡ renumber p (suc n) es (record w {
        db = record w.db {
          playlist_songs =
              (if e.position == n
                then w.playlist_songs
                else map (move_entry n p e.song_id) w.playlist_songs);
        };
      })
unfolding renumber
renumber_step p n e es w f = elim (Bool-cases (e.position == n)) [
  | inl y ↦ rw y refl
  | inr y ↦ rw (y, statement_lem w f) refl
]

-- Where no statement fails, the loop ends and changes only `playlist_songs`.
pub renumber-moved :
    (p : ℤ) (n : ℕ) (rows : List Entry) (w : World)
    → w.faults ≡ []
    → renumber p n rows w
      ≡ (ok tt, record w { db = record w.db { playlist_songs = moved p n rows w.playlist_songs } })
renumber-moved p n [] w f = unfold renumber in refl
renumber-moved p n (e ∷ es) w f = renumber_step p n e es w f ∙ renumber-moved p (suc n) es _ f

abbrev pub of_playlist : ℤ → Entry → Bool
of_playlist p e = eq_int (pos e.playlist_id) p

select-move :
    (f : Entry → Bool) (n : ℕ) (p : ℤ) (s : ℕ) (t : List Entry)
    → ((e : Entry) → f (move_entry n p s e) ≡ f e)
    → select f (map (move_entry n p s) t) ≡ map (move_entry n p s) (select f t)
select-move f n p s [] h = refl
select-move f n p s (e ∷ t) h = elim (Bool-cases (f e)) [
  | inl y ↦ rw (h e, y) (ap (λ (r : List Entry). move_entry n p s e ∷ r) (select-move f n p s t h))
  | inr y ↦ rw (h e, y) (select-move f n p s t h)
]

-- A test that does not look at positions sees the loop work on the rows that pass it.
pub select-moved :
    (f : Entry → Bool) (p : ℤ) (n : ℕ) (rows t : List Entry)
    → ((k s : ℕ) (e : Entry) → f (move_entry k p s e) ≡ f e)
    → select f (moved p n rows t) ≡ moved p n rows (select f t)
select-moved f p n [] t h = refl
select-moved f p n (e ∷ es) t h = elim (Bool-cases (e.position == n)) [
  | inl y ↦ rw y (select-moved f p (suc n) es t h)
  | inr y ↦ rw y (
      select-moved f p (suc n) es (map (move_entry n p e.song_id) t) h
      ∙ ap (moved p (suc n) es) (select-move f n p e.song_id t (h n e.song_id)))
]

map-move-Fresh : (n : ℕ) (p : ℤ) (s : ℕ) (t : List Entry) → Fresh s t → map (move_entry n p s) t ≡ t
map-move-Fresh n p s [] h = refl
map-move-Fresh n p s (e ∷ t) h = ground (arith, map-move-Fresh n p s t h.1, ==_iff e.song_id s)

-- No row's song is among the rows before.
abbrev Apart : List Entry → List Entry → Type 0
Apart before = All (λ x. Fresh x.song_id before)

Apart-snoc :
    (before : List Entry) (e : Entry) (n : ℕ) (es : List Entry)
    → Fresh e.song_id es
    → Apart before es
    → Apart (before ++ record e { position = n } ∷ []) es
Apart-snoc before e n [] f a = tt
Apart-snoc before e n (x ∷ es) f a =
    (Fresh-append x.song_id before _ a.0 (λ q. f.0 (sym q)), Apart-snoc before e n es f.1 a.1)

move_here :
    (n : ℕ) (p : ℤ) (e : Entry) (before es : List Entry)
    → of_playlist p e ≡ true
    → Fresh e.song_id before
    → Fresh e.song_id es
    → (if e.position == n
        then before ++ e ∷ es
        else map (move_entry n p e.song_id) (before ++ e ∷ es))
      ≡ (before ++ record e { position = n } ∷ []) ++ es
move_here n p e [] es o fb fe =
    ground (arith, map-move-Fresh n p e.song_id es fe, ==_iff e.position n, ==_refl e.song_id)
move_here n p e (b ∷ before) es o fb fe =
    ground (arith, move_here n p e before es o fb.1 fe, ==_iff b.song_id e.song_id)

-- On distinct rows of one playlist the loop gives each row its rank.
pub moved-number :
    (p : ℤ) (n : ℕ) (before rows : List Entry)
    → All (λ e. of_playlist p e ≡ true) rows
    → Distinct rows
    → Apart before rows
    → moved p n rows (before ++ rows) ≡ before ++ number n rows
moved-number p n before [] o d a = refl
moved-number p n before (e ∷ es) o d a = rw (move_here n p e before es o.0 a.0 d.0) (
    moved-number p (suc n) (before ++ record e { position = n } ∷ []) es o.1 d.1
      (Apart-snoc before e n es d.0 a.1)
    ∙ append_assoc before (record e { position = n } ∷ []) (number (suc n) es))
