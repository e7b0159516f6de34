-- ===== src/Uploads/Whole.antt =====
-- What is forwarded is what was sent, in memory or through the file.
use mathlib.Core.Bool.{or-true}
use my_music.Base.{
  subst, ℕ, ◌≡◌, refl, sym, ap, ◌∙◌, ℤ, pos, eq_int, Bool, true, false, Bool-cases, inl, inr,
  Option, none, some, Text, List, [], ◌∷◌, ◌++◌, append_assoc, append-nil, All, ◌+◌, length,
}
use my_music.Uploads.{
  SpoolKey, SpoolEntry, Spools, Chunk, stored, complete, safe_name, contents, fresh_entry,
  append_chunk, with_entry, after_append, spool_chunk, begin_upload, sweep, goes, kept_file,
}
use my_music.Uploads.Spool.{
  in_memory, Keeps-touched, same_key_refl, Holds, touched, found_put, append_chunk-Holds,
  after_append_more, after_append_last, taken,
}

-- A chunk whose entry is there.
with_entry_there :
    (key : SpoolKey) (now : ℕ) (c : Chunk) (e : SpoolEntry) (st : Spools)
    → st.entries key ≡ some e
    → with_entry now key c (st.entries key) st
      ≡ after_append key c
          (append_chunk key (touched e now (e.received + length c.bytes)) c.bytes st)
with_entry_there key now c e st h = rw h refl

chunk_first :
    (uid : ℤ) (now : ℕ) (c : Chunk) (st : Spools)
    → eq_int c.seq (pos 1) ≡ true
    → let key : SpoolKey = (uid, safe_name c.name) in
      spool_chunk uid now c st
      ≡ with_entry now key c ((begin_upload now key c st).entries key) (begin_upload now key c st)
unfolding spool_chunk
chunk_first uid now c st q = rw q refl

chunk_later :
    (uid : ℤ) (now : ℕ) (c : Chunk) (st : Spools)
    → eq_int c.seq (pos 1) ≡ false
    → spool_chunk uid now c st
      ≡ with_entry now (uid, safe_name c.name) c (st.entries (uid, safe_name c.name)) st
unfolding spool_chunk
chunk_later uid now c st q = rw q refl

-- The chunk is appended to what the spool holds.
appended-Holds :
    (key : SpoolKey) (now : ℕ) (total : ℤ) (s : Text) (c : Chunk) (st : Spools)
    (h : Holds key total s st)
    → let r =
        append_chunk key (touched h.entry now (h.entry.received + length c.bytes)) c.bytes st in
      (r.0 ≡ true) × Holds key total (s ++ c.bytes) r.1
appended-Holds key now total s c st h =
    append_chunk-Holds key total s c.bytes (touched h.entry now (h.entry.received + length c.bytes))
      st h.no_faults h.named h.sized (Keeps-touched key s h.entry now _ st h.keeps)

-- A chunk behind the first, and not the last.
next_chunk :
    (uid : ℤ) (now : ℕ) (total : ℤ) (s : Text) (c : Chunk) (st : Spools)
    → eq_int c.seq (pos 1) ≡ false
    → eq_int c.total_size c.trans_size ≡ false
    → Holds (uid, safe_name c.name) total s st
    → ((spool_chunk uid now c st).0 ≡ stored)
      × Holds (uid, safe_name c.name) total (s ++ c.bytes) (spool_chunk uid now c st).1
next_chunk uid now total s c st q l h =
    let key : SpoolKey = (uid, safe_name c.name) in
    let a = appended-Holds key now total s c st h in
    rw
      (chunk_later uid now c st q
        ∙ with_entry_there key now c h.entry st h.there
        ∙ after_append_more key c _ a.0 l)
      (refl, a.1)

-- The last chunk.
last_chunk :
    (uid : ℤ) (now : ℕ) (total : ℤ) (s : Text) (c : Chunk) (st : Spools)
    → eq_int c.seq (pos 1) ≡ false
    → eq_int c.total_size c.trans_size ≡ true
    → Holds (uid, safe_name c.name) total s st
    → (spool_chunk uid now c st).0 ≡ complete (safe_name c.name) total (s ++ c.bytes)
last_chunk uid now total s c st q l h =
    let key : SpoolKey = (uid, safe_name c.name) in
    let a = appended-Holds key now total s c st h in
    rw
      (chunk_later uid now c st q
        ∙ with_entry_there key now c h.entry st h.there
        ∙ after_append_last key c _ a.0 l)
      (taken key total (s ++ c.bytes) _ a.1)

abbrev has_file : Option SpoolEntry → Bool
has_file none = false
has_file (some e) = e.on_disk

-- A file of this key is there only if the key's entry says so: none is left from an earlier run.
unfoldable pub IsTidy : SpoolKey → Spools → Type 0
IsTidy key st = has_file (st.entries key) ≡ false → st.files key ≡ none

swept_file :
    (now : ℕ) (key : SpoolKey) (x : Option SpoolEntry) (f : Option Text)
    → (has_file x ≡ false → f ≡ none)
    → contents (kept_file now key key x f) ≡ []
swept_file now key none f t = rw (t refl) refl
swept_file now key (some e) f t =
    let g : goes now key key e ≡ true = simp (same_key_refl key, or-true) in
    elim (Bool-cases e.on_disk) [ inl y ↦ rw (g, y) refl | inr y ↦ rw (g, y, t y) refl ]

begun-file :
    (now : ℕ) (key : SpoolKey) (c : Chunk) (st : Spools)
    → IsTidy key st
    → contents ((begin_upload now key c st).files key) ≡ []
unfolding IsTidy
begun-file now key c st t = swept_file now key (st.entries key) (st.files key) t

begun-Holds :
    (now : ℕ) (key : SpoolKey) (c : Chunk) (st : Spools)
    → st.disk ≡ []
    → contents ((begin_upload now key c st).files key) ≡ []
    → Holds key c.total_size [] (begin_upload now key c st)
begun-Holds now key c st d f = record {
  entry = fresh_entry key.1 c.total_size now;
  there = found_put key (fresh_entry key.1 c.total_size now) (sweep now key st).entries;
  named = refl;
  sized = refl;
  keeps = in_memory refl f refl;
  no_faults = d;
}

-- The first chunk, and not the last.
first_chunk :
    (uid : ℤ) (now : ℕ) (c : Chunk) (st : Spools)
    → eq_int c.seq (pos 1) ≡ true
    → eq_int c.total_size c.trans_size ≡ false
    → st.disk ≡ []
    → IsTidy (uid, safe_name c.name) st
    → ((spool_chunk uid now c st).0 ≡ stored)
      × Holds (uid, safe_name c.name) c.total_size c.bytes (spool_chunk uid now c st).1
first_chunk uid now c st q l d f =
    let key : SpoolKey = (uid, safe_name c.name) in
    let h = begun-Holds now key c st d (begun-file now key c st f) in
    let a = appended-Holds key now c.total_size [] c (begin_upload now key c st) h in
    rw
      (chunk_first uid now c st q
        ∙ with_entry_there key now c h.entry (begin_upload now key c st) h.there
        ∙ after_append_more key c _ a.0 l)
      (refl, a.1)

-- Chunks with the times at which they come.
abbrev pub spool_chunks : ℤ → List (ℕ × Chunk) → Spools → Spools
spool_chunks uid [] st = st
spool_chunks uid ((now, c) ∷ cs) st = spool_chunks uid cs (spool_chunk uid now c st).1

abbrev pub sent : List (ℕ × Chunk) → Text
sent [] = []
sent ((now, c) ∷ cs) = c.bytes ++ sent cs

-- A chunk of this file, neither the first nor the last.
pub record IsMiddle (file : Text) (t : ℕ × Chunk) : Type 0 where
  pub same : safe_name t.1.name ≡ file
  pub behind : eq_int t.1.seq (pos 1) ≡ false
  pub before : eq_int t.1.total_size t.1.trans_size ≡ false

spool_chunks-Holds :
    (uid : ℤ) (file : Text) (total : ℤ) (cs : List (ℕ × Chunk)) (s : Text) (st : Spools)
    → All (IsMiddle file) cs
    → Holds (uid, file) total s st
    → Holds (uid, file) total (s ++ sent cs) (spool_chunks uid cs st)
spool_chunks-Holds uid file total [] s st a h = rw (append-nil s) h
spool_chunks-Holds uid file total ((now, c) ∷ cs) s st a h =
    let m = a.0 in
    let here = subst (λ (x : Text). Holds (uid, x) total s st) (sym m.same) h in
    let r = next_chunk uid now total s c st m.behind m.before here in
    let back =
      subst (λ (x : Text). Holds (uid, x) total (s ++ c.bytes) (spool_chunk uid now c st).1) m.same
        r.1 in
    subst
      (λ (x : Text). Holds (uid, file) total x (spool_chunks uid cs (spool_chunk uid now c st).1))
      (append_assoc s c.bytes (sent cs))
      (spool_chunks-Holds uid file total cs (s ++ c.bytes) (spool_chunk uid now c st).1 a.1 back)

-- An upload in at least two chunks, of which only the first has number 1 and only the last reaches the
-- total, gives the forwarding exactly the bytes sent, in order, whether they stayed in memory or went
-- through the file, and whatever other uploads left in the spool; no write fails, and no file of an
-- earlier run lies at the upload's path.
pub spool_chunk-complete :
    (uid : ℤ) (t : ℕ) (first last : Chunk) (middle : List (ℕ × Chunk)) (now : ℕ) (st : Spools)
    → st.disk ≡ []
    → IsTidy (uid, safe_name first.name) st
    → eq_int first.seq (pos 1) ≡ true
    → eq_int first.total_size first.trans_size ≡ false
    → All (IsMiddle (safe_name first.name)) middle
    → safe_name last.name ≡ safe_name first.name
    → eq_int last.seq (pos 1) ≡ false
    → eq_int last.total_size last.trans_size ≡ true
    → (spool_chunk uid now last (spool_chunks uid ((t, first) ∷ middle) st)).0
      ≡ complete
          (safe_name first.name)
          first.total_size
          ((first.bytes ++ sent middle) ++ last.bytes)
spool_chunk-complete uid t first last middle now st d tidy q l m e ql ll =
    let a = first_chunk uid t first st q l d tidy in
    let h =
      spool_chunks-Holds uid (safe_name first.name) first.total_size middle first.bytes
        (spool_chunk uid t first st).1 m a.1 in
    let back =
      subst
        (λ (x : Text).
          Holds (uid, x) first.total_size (first.bytes ++ sent middle)
            (spool_chunks uid middle (spool_chunk uid t first st).1))
        (sym e) h in
    last_chunk uid now first.total_size (first.bytes ++ sent middle) last _ ql ll back
    ∙ ap (λ (x : Text). complete x first.total_size ((first.bytes ++ sent middle) ++ last.bytes)) e
