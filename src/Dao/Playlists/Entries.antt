-- ===== src/Dao/Playlists/Entries.antt =====
-- The entries of one playlist, as the rows of `playlist_songs` in their order.
use my_music.Base.{
  ℕ, suc, ◌+◌, ◌<◌, ◌≡◌, ◌≢◌, refl, ap, sym, Bool, Bool-cases, inl, inr, List, [], ◌∷◌, ◌++◌, map,
  arith, length, select, some,
}
use my_music.Sql.{Entry}
use my_music.Dao.Playlists.{greatest, after, insert_sorted, order_by_position}

abbrev pub songs : List Entry → List ℕ
songs = map (λ e. e.song_id)

-- The positions are n, n + 1, n + 2, …
abbrev pub Numbered : ℕ → List Entry → Type 0
Numbered n [] = Unit
Numbered n (e ∷ es) = (e.position ≡ n) × Numbered (suc n) es

-- The positions grow along the rows, from above n.
abbrev pub Ranked : ℕ → List Entry → Type 0
Ranked n [] = Unit
Ranked n (e ∷ es) = (n < e.position) × Ranked e.position es

abbrev pub Fresh : ℕ → List Entry → Type 0
Fresh s [] = Unit
Fresh s (e ∷ es) = (e.song_id ≢ s) × Fresh s es

-- The primary key, within one playlist.
abbrev pub Distinct : List Entry → Type 0
Distinct [] = Unit
Distinct (e ∷ es) = Fresh e.song_id es × Distinct es

abbrev pub number : ℕ → List Entry → List Entry
number n [] = []
number n (e ∷ es) = record e { position = n } ∷ number (suc n) es

pub number-Numbered : (n : ℕ) (es : List Entry) → Numbered n (number n es)
number-Numbered n [] = tt
number-Numbered n (e ∷ es) = (refl, number-Numbered (suc n) es)

pub songs-number : (n : ℕ) (es : List Entry) → songs (number n es) ≡ songs es
songs-number n [] = refl
songs-number n (e ∷ es) = ap (λ (r : List ℕ). e.song_id ∷ r) (songs-number (suc n) es)

pub Fresh-number : (s n : ℕ) (es : List Entry) → Fresh s es → Fresh s (number n es)
Fresh-number s n [] h = tt
Fresh-number s n (e ∷ es) h = (h.0, Fresh-number s (suc n) es h.1)

pub Distinct-number : (n : ℕ) (es : List Entry) → Distinct es → Distinct (number n es)
Distinct-number n [] h = tt
Distinct-number n (e ∷ es) h =
    (Fresh-number e.song_id (suc n) es h.0, Distinct-number (suc n) es h.1)

pub Numbered-Ranked : (n : ℕ) (es : List Entry) → Numbered (suc n) es → Ranked n es
Numbered-Ranked n [] h = tt
Numbered-Ranked n (e ∷ es) h =
    let rest = Numbered-Ranked (suc n) es h.1 in
    (omega arith, subst_rank (suc n) e.position es (sym h.0) rest)
  where
    subst_rank : (a b : ℕ) (l : List Entry) → a ≡ b → Ranked a l → Ranked b l
    subst_rank a b l p r = rw p at r

pub Ranked-mono : (m n : ℕ) (es : List Entry) → m < n → Ranked n es → Ranked m es
Ranked-mono m n [] h r = tt
Ranked-mono m n (e ∷ es) h r = (omega arith, r.1)

pub select-Ranked :
    (f : Entry → Bool) (n : ℕ) (es : List Entry) → Ranked n es → Ranked n (select f es)
select-Ranked f n [] r = tt
select-Ranked f n (e ∷ es) r = elim (Bool-cases (f e)) [
  | inl h ↦ rw h (r.0, select-Ranked f e.position es r.1)
  | inr h ↦ rw h (Ranked-mono n e.position (select f es) r.0 (select-Ranked f e.position es r.1))
]

pub select-Fresh : (f : Entry → Bool) (s : ℕ) (es : List Entry) → Fresh s es → Fresh s (select f es)
select-Fresh f s [] h = tt
select-Fresh f s (e ∷ es) h = elim (Bool-cases (f e)) [
  | inl y ↦ rw y (h.0, select-Fresh f s es h.1)
  | inr y ↦ rw y (select-Fresh f s es h.1)
]

pub select-Distinct : (f : Entry → Bool) (es : List Entry) → Distinct es → Distinct (select f es)
select-Distinct f [] h = tt
select-Distinct f (e ∷ es) h = elim (Bool-cases (f e)) [
  | inl y ↦ rw y (select-Fresh f e.song_id es h.0, select-Distinct f es h.1)
  | inr y ↦ rw y (select-Distinct f es h.1)
]

insert_sorted-Ranked :
    (e : Entry) (es : List Entry) → Ranked e.position es → insert_sorted e es ≡ e ∷ es
insert_sorted-Ranked e [] r = refl
insert_sorted-Ranked e (x ∷ es) r = ground arith

-- Rows whose positions grow are in order already.
pub order_by_position-Ranked : (n : ℕ) (es : List Entry) → Ranked n es → order_by_position es ≡ es
order_by_position-Ranked n [] r = refl
order_by_position-Ranked n (e ∷ es) r =
    rw (order_by_position-Ranked e.position es r.1) (insert_sorted-Ranked e es r.1)

greatest-Numbered :
    (n : ℕ) (e : Entry) (es : List Entry)
    → Numbered n (e ∷ es)
    → greatest (e ∷ es) ≡ some (n + length es)
greatest-Numbered n e [] h = ap some (omega arith)
greatest-Numbered n e (x ∷ es) h = rw (greatest-Numbered (suc n) x es h.1) (ap some (omega arith))

-- The next position of a numbered playlist is one past its length.
pub after-greatest : (es : List Entry) → Numbered 1 es → after (greatest es) ≡ 1 + length es
after-greatest [] h = omega arith
after-greatest (e ∷ es) h = rw (greatest-Numbered 1 e es h) (omega arith)

pub Numbered-append :
    (n : ℕ) (es : List Entry) (x : Entry)
    → Numbered n es
    → x.position ≡ n + length es
    → Numbered n (es ++ x ∷ [])
Numbered-append n [] x h p = (omega arith, tt)
Numbered-append n (e ∷ es) x h p = (h.0, Numbered-append (suc n) es x h.1 (omega arith))

pub Fresh-append :
    (s : ℕ) (es : List Entry) (x : Entry) → Fresh s es → x.song_id ≢ s → Fresh s (es ++ x ∷ [])
Fresh-append s [] x h p = (p, tt)
Fresh-append s (e ∷ es) x h p = (h.0, Fresh-append s es x h.1 p)

pub Distinct-append :
    (es : List Entry) (x : Entry) → Distinct es → Fresh x.song_id es → Distinct (es ++ x ∷ [])
Distinct-append [] x d f = (tt, tt)
Distinct-append (e ∷ es) x d f =
    (Fresh-append e.song_id es x d.0 (λ p. f.0 (sym p)), Distinct-append es x d.1 f.1)
