-- ===== src/Uploads/Spool.antt =====
-- What one chunk does to the spool entry of its upload, in memory or in the file.
use my_music.Base.{
  ℕ, ◌≡◌, refl, ap, ℤ, eq_int, eq_int_iff, Bool, true, false, Bool-cases, inl, inr, Option, some,
  Text, text_eq_refl, List, [], ◌++◌, append-nil, ◌+◌, length, leb, not, ◌&&◌,
}
use my_music.Uploads.{
  SpoolKey, same_key, SpoolEntry, Spools, Chunk, stored, complete, contents, append_chunk,
  after_append, put, set_entry, appended, write_file, spooled, take_out, spool_mem_threshold,
}

pub same_key_refl : (k : SpoolKey) → same_key k k ≡ true
same_key_refl (u, s) = rw ((eq_int_iff u u).1 refl, text_eq_refl s) refl

-- An entry and its file keep a text, in one of the two places.
pub data Keeps (key : SpoolKey) (s : Text) (e : SpoolEntry) (st : Spools) : Type 0 where
  in_memory : e.on_disk ≡ false → contents (st.files key) ≡ [] → e.mem ≡ s → Keeps key s e st
  in_file : e.on_disk ≡ true → e.mem ≡ [] → contents (st.files key) ≡ s → Keeps key s e st

-- What the spool holds for a key.
pub record Holds (key : SpoolKey) (total : ℤ) (s : Text) (st : Spools) : Type 0 where
  pub entry : SpoolEntry
  pub there : st.entries key ≡ some entry
  pub named : entry.name ≡ key.1
  pub sized : entry.total ≡ total
  pub keeps : Keeps key s entry st
  pub no_faults : st.disk ≡ []

abbrev pub touched : SpoolEntry → ℕ → ℕ → SpoolEntry
touched e now n = record e { last_active = now; received = n }

pub found_put :
    (key : SpoolKey) (e : SpoolEntry) (f : SpoolKey → Option SpoolEntry)
    → put key (some e) f key ≡ some e
found_put key e f = rw (same_key_refl key) refl

-- The chunk goes to memory.
kept_in_memory :
    (key : SpoolKey) (total : ℤ) (s b : Text) (e : SpoolEntry) (st : Spools)
    → st.disk ≡ []
    → e.name ≡ key.1
    → e.total ≡ total
    → e.on_disk ≡ false
    → contents (st.files key) ≡ []
    → e.mem ≡ s
    → Holds key total (s ++ b) (set_entry key (record e { mem = e.mem ++ b }) st)
kept_in_memory key total s b e st d n t o f c = record {
  entry = record e { mem = e.mem ++ b };
  there = found_put key _ st.entries;
  named = n;
  sized = t;
  keeps = in_memory o f (ap (λ x. x ++ b) c);
  no_faults = d;
}

-- The chunk goes to the file, behind what memory held.
kept_in_file :
    (key : SpoolKey) (total : ℤ) (s b : Text) (e : SpoolEntry) (st : Spools)
    → st.disk ≡ []
    → e.name ≡ key.1
    → e.total ≡ total
    → contents (st.files key) ++ (e.mem ++ b) ≡ s ++ b
    → Holds key total (s ++ b) (appended key (record e { on_disk = true }) b st)
kept_in_file key total s b e st d n t c = record {
  entry = record e { on_disk = true; mem = [] };
  there = found_put key _ st.entries;
  named = n;
  sized = t;
  keeps = in_file refl refl (rw (same_key_refl key) c);
  no_faults = d;
}

write_file_lem :
    (ds : List Bool) (key : SpoolKey) (e : SpoolEntry) (b : Text) (st : Spools)
    → ds ≡ []
    → write_file ds key e b st ≡ (true, appended key e b st)
write_file_lem ds key e b st d = rw d refl

room :
    (e : SpoolEntry) (b : Text)
    → e.on_disk ≡ false
    → leb (length e.mem + length b) spool_mem_threshold ≡ true
    → (not e.on_disk && leb (length e.mem + length b) spool_mem_threshold) ≡ true
room e b o y = simp (o, y)

pub append_chunk-Holds :
    (key : SpoolKey) (total : ℤ) (s b : Text) (e : SpoolEntry) (st : Spools)
    → st.disk ≡ []
    → e.name ≡ key.1
    → e.total ≡ total
    → Keeps key s e st
    → ((append_chunk key e b st).0 ≡ true) × Holds key total (s ++ b) (append_chunk key e b st).1
append_chunk-Holds key total s b e st d n t (in_memory o f c) =
    elim (Bool-cases (leb (length e.mem + length b) spool_mem_threshold)) [
      | inl y ↦ rw (room e b o y) (refl, kept_in_memory key total s b e st d n t o f c)
      | inr y ↦
          simp (o, y, write_file_lem st.disk key (record e { on_disk = true }) b st d)
            (refl, kept_in_file key total s b e st d n t (rw (f, c) refl))
    ]
append_chunk-Holds key total s b e st d n t (in_file o m f) =
    simp (o, write_file_lem st.disk key (record e { on_disk = true }) b st d)
      (refl, kept_in_file key total s b e st d n t (rw (f, m) refl))

pub Keeps-touched :
    (key : SpoolKey) (s : Text) (e : SpoolEntry) (now n : ℕ) (st : Spools)
    → Keeps key s e st
    → Keeps key s (touched e now n) st
Keeps-touched key s e now n st (in_memory o f c) = in_memory o f c
Keeps-touched key s e now n st (in_file o m f) = in_file o m f

spooled_lem :
    (key : SpoolKey) (s : Text) (e : SpoolEntry) (st : Spools)
    → Keeps key s e st
    → spooled key e st ≡ s
spooled_lem key s e st (in_memory o f c) = simp (o, c) (append-nil s)
spooled_lem key s e st (in_file o m f) = simp (o, m, f)

pub after_append_more :
    (key : SpoolKey) (c : Chunk) (r : Bool × Spools)
    → r.0 ≡ true
    → eq_int c.total_size c.trans_size ≡ false
    → after_append key c r ≡ (stored, r.1)
after_append_more key c (true, st) e l = rw l refl
after_append_more key c (false, st) e l = cc

pub after_append_last :
    (key : SpoolKey) (c : Chunk) (r : Bool × Spools)
    → r.0 ≡ true
    → eq_int c.total_size c.trans_size ≡ true
    → after_append key c r ≡ take_out key (r.1.entries key) r.1
after_append_last key c (true, st) e l = rw l refl
after_append_last key c (false, st) e l = cc

pub taken :
    (key : SpoolKey) (total : ℤ) (s : Text) (st : Spools)
    → Holds key total s st
    → (take_out key (st.entries key) st).0 ≡ complete key.1 total s
taken key total s st h = rw (h.there, h.named, h.sized, spooled_lem key s h.entry st h.keeps) refl
