-- ===== src/Dao/GetOrCreate.antt =====
-- Calling a get-or-create method twice: `getOrCreateArtist` and `getOrCreatePlaylist` of
-- Server/SessionServer/MysqlDao.cpp.
use my_music.Base.{
  suc, ◌∙◌, ℕ, ◌≡◌, ◌≢◌, refl, Bool, true, false, Option-cases, inl, inr, List, [], ◌∷◌, ◌++◌,
  first, exists_in, none, some, arith, Text, pos, minus_one,
}
use my_music.Sql.{World, ArtistRow, ok, raised, sql_exception}
use my_music.Sql.Catch.{fault_lem, method-ne-sql}
use my_music.Sql.Insert.{insert_record, insertion, Record}
use my_music.Dao.Catalog.{get_or_create_artist}
use my_music.Dao.Playlists.Collect.{IsHealthy}

module _ {A : Type 0} (f : A → Bool) where
  first-exists : (xs : List A) → first f xs ≡ none → exists_in f xs ≡ false
  first-exists [] h = refl
  first-exists (x ∷ xs) h = ground (arith, first-exists xs)

  first-append :
      (xs : List A) (x : A) → first f xs ≡ none → f x ≡ true → first f (xs ++ x ∷ []) ≡ some x
  first-append [] x h e = rw e
  first-append (y ∷ xs) x h e = ground (arith, first-append xs x)

abbrev by_name : Text → World → ArtistRow → Bool
by_name name w r = w.engine.same_text r.name name

known_artist :
    (name : Text) (w : World) (r : ArtistRow)
    → IsHealthy w
    → first (by_name name w) w.artists ≡ some r
    → get_or_create_artist name w ≡ (ok (pos r.id), w)
unfolding get_or_create_artist
known_artist name w r h e = simp (fault_lem w h.no_faults, h.open_pool, e)

new_row : Text → World → ArtistRow
new_row name w = record { id = w.next_artist; name = name }

with_artist : Text → World → World
with_artist name w = record w {
  db = record w.db { artists = w.artists ++ new_row name w ∷ []; next_artist = suc w.next_artist };
}

new_artist :
    (name : Text) (w : World)
    → IsHealthy w
    → first (by_name name w) w.artists ≡ none
    → get_or_create_artist name w ≡ (ok (pos w.next_artist), with_artist name w)
unfolding get_or_create_artist with_artist new_row
new_artist name w h e =
    simp (fault_lem w h.no_faults, h.open_pool, e, first-exists (by_name name w) w.artists e)

with_artist-first :
    (name : Text) (w : World)
    → first (by_name name w) w.artists ≡ none
    → first (by_name name (with_artist name w)) (with_artist name w).artists ≡ some (new_row name w)
unfolding with_artist new_row
with_artist-first name w e = first-append (by_name name w) w.artists _ e (w.engine.same_refl name)

twice_new :
    (name : Text) (w : World)
    → IsHealthy w
    → first (by_name name w) w.artists ≡ none
    → get_or_create_artist name (with_artist name w) ≡ (ok (pos w.next_artist), with_artist name w)
twice_new name w h e =
    known_artist name (with_artist name w) (new_row name w)
      (unfold with_artist in record { open_pool = h.open_pool; no_faults = h.no_faults })
      (with_artist-first name w e)
    ∙ unfold new_row in refl

-- With no fault, a second `getOrCreateArtist` with the same name returns the id of the first and
-- changes nothing, whether the first found the artist or created it.
pub get_or_create_artist_twice :
    (name : Text) (w : World)
    → IsHealthy w
    → get_or_create_artist name (get_or_create_artist name w).1 ≡ get_or_create_artist name w
get_or_create_artist_twice name w h = elim (Option-cases (first (by_name name w) w.artists)) [
  | inl e ↦ rw (new_artist name w h e) (twice_new name w h e)
  | inr (r, e) ↦ rw (known_artist name w r h e) (known_artist name w r h e)
]

-- `insertRecord` throws no `SQLException`, in any state; so the handler of `getOrCreatePlaylist`
-- behind which no value is returned is never entered.
pub insert_record-ne-sql :
    (r : Record) (w : World) (c : ℕ) → (insert_record r w).0 ≢ raised (sql_exception c)
unfolding insert_record
insert_record-ne-sql r w c = method-ne-sql minus_one (insertion r) w c
