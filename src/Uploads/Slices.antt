-- ===== src/Uploads/Slices.antt =====
-- The slices that the client sends: UploadWidget.cpp of MyMusic/MyMusic. The fields that the server does
-- not read (md5, last, last_seq) are left out; `Qt`'s read gives as many bytes as are asked for and there.
use my_music.Base.{
  ℕ, zero, suc, ◌+◌, ◌*◌, ◌<◌, ◌≤◌, ◌≡◌, refl, sym, ap, ◌∙◌, ℤ, pos, eq_int, ◌==◌, ==_iff, ltb,
  Bool-cases, inl, inr, true, false, some, Text, null, List, [], ◌∷◌, ◌++◌, append_assoc,
  append-nil, length, length-append, length-drop, take, drop, take-append-drop, All, arith,
  if◌then◌else◌,
}
use my_music.Uploads.{Spools, Chunk, Progress, rejected, safe_name, spool_chunk}
use my_music.Uploads.Whole.{IsTidy, IsMiddle, spool_chunks, sent}
use my_music.Uploads.Delivered.{delivered, audio, upload_image-spool_chunk}
use my_music.Storage.{extension_of}
use my_music.Storage

abbrev pub max_file_len : ℕ
max_file_len = 1024 * 32

-- The slice behind `seq` others.
abbrev pub slice : ℕ → Text → ℕ → Text → Chunk
slice seq name total buffer = record {
  seq = pos (suc seq);
  name = name;
  bytes = buffer;
  total_size = pos total;
  trans_size = pos (length buffer + seq * max_file_len);
}

-- The loop, behind `seq` slices. Each slice has a byte or more, so the size is fuel enough.
pub slices : ℕ → ℕ → Text → ℕ → Text → List Chunk
slices zero seq name total s = []
slices (suc f) seq name total s =
    let buffer = take max_file_len s in
    let rest = slices f (suc seq) name total (drop max_file_len s) in
    if null s then [] else slice seq name total buffer ∷ rest

unfoldable pub upload_slices : Text → Text → List Chunk
unfolding slices
upload_slices name content = slices (length content) 0 name (length content) content

-- The server's progress at the last slice; slice i arrives at `clock i`.
pub last_progress : ℤ → (ℕ → ℕ) → ℕ → List Chunk → Spools → Progress
last_progress uid clock i [] st = rejected
last_progress uid clock i (c ∷ []) st = (spool_chunk uid (clock i) c st).0
last_progress uid clock i (c ∷ d ∷ cs) st =
    last_progress uid clock (suc i) (d ∷ cs) (spool_chunk uid (clock i) c st).1

abbrev stamped : (ℕ → ℕ) → ℕ → List Chunk → List (ℕ × Chunk)
stamped clock i [] = []
stamped clock i (c ∷ cs) = (clock i, c) ∷ stamped clock (suc i) cs

last_progress-append :
    (uid : ℤ) (clock : ℕ → ℕ) (i : ℕ) (cs : List Chunk) (c : Chunk) (st : Spools)
    → (now : ℕ) × (last_progress uid clock i (cs ++ c ∷ []) st
        ≡ (spool_chunk uid now c (spool_chunks uid (stamped clock i cs) st)).0)
unfolding last_progress
last_progress-append uid clock i [] c st = (clock i, refl)
last_progress-append uid clock i (b ∷ []) c st = (clock (suc i), refl)
last_progress-append uid clock i (b ∷ d ∷ cs) c st =
    last_progress-append uid clock (suc i) (d ∷ cs) c (spool_chunk uid (clock i) b st).1

-- Slices behind the first one: what is in front of the last, and the last.
record Ends (clock : ℕ → ℕ) (i : ℕ) (name s : Text) (l : List Chunk) : Type 0 where
  front : List Chunk
  last : Chunk
  parts : l ≡ front ++ last ∷ []
  middle : All (IsMiddle (safe_name name)) (stamped clock i front)
  same_name : last.name ≡ name
  late : eq_int last.seq (pos 1) ≡ false
  full : eq_int last.total_size last.trans_size ≡ true
  whole : sent (stamped clock i front) ++ last.bytes ≡ s

length-take : (k : ℕ) (s : Text) → k ≤ length s → length (take k s) ≡ k
length-take k s h =
    let e = ap (λ (x : Text). length x) (take-append-drop k s) in
    omega (arith, e, length-append (take k s) (drop k s), length-drop k s)

no_text : (s : Text) → length s ≡ 0 → s ≡ []
no_text [] e = refl
no_text (b ∷ s) e = absurd (omega arith)

null-length : (s : Text) → 0 < length s → null s ≡ false
null-length [] h = absurd (omega arith)
null-length (b ∷ s) h = refl

==-lt : (a b : ℕ) → a < b → (b == a) ≡ false
==-lt a b h = ground arith

slices-nil : (f seq total : ℕ) (name : Text) → slices f seq name total [] ≡ []
unfolding slices
slices-nil zero seq total name = refl
slices-nil (suc f) seq total name = refl

slices-Ends :
    (clock : ℕ → ℕ) (i f seq total : ℕ) (name s : Text)
    → 0 < seq
    → 0 < length s
    → length s ≤ f
    → seq * max_file_len + length s ≡ total
    → Ends clock i name s (slices f seq name total s)
unfolding slices
slices-Ends clock i zero seq total name s p q h e = absurd (omega arith)
slices-Ends clock i (suc f) seq total name s p q h e =
    elim (Bool-cases (ltb max_file_len (length s))) [
      | inl y ↦
          let more : max_file_len < length s = ground arith in
          let t = length-take max_file_len s (omega arith) in
          let r =
            slices-Ends clock (suc i) f (suc seq) total name (drop max_file_len s) (omega arith)
              (omega (arith, length-drop max_file_len s))
              (omega (arith, length-drop max_file_len s))
              (omega (arith, length-drop max_file_len s)) in
          rw (null-length s q) (record {
            front = slice seq name total (take max_file_len s) ∷ r.front;
            last = r.last;
            parts = rw r.parts refl;
            middle = (
              record {
                same = refl;
                behind = ==-lt 1 (suc seq) (omega arith);
                before = rw t (==-lt (max_file_len + seq * max_file_len) total (omega arith));
              },
              r.middle,
            );
            same_name = r.same_name;
            late = r.late;
            full = r.full;
            whole =
                append_assoc (take max_file_len s) (sent (stamped clock (suc i) r.front))
                  r.last.bytes
                ∙ rw r.whole (take-append-drop max_file_len s);
          })
      | inr y ↦
          let less : length s ≤ max_file_len = ground arith in
          let d = no_text (drop max_file_len s) (omega (arith, length-drop max_file_len s)) in
          let t : take max_file_len s ≡ s =
            sym (append-nil (take max_file_len s)) ∙ rw d at (take-append-drop max_file_len s) in
          rw (null-length s q, d, slices-nil f (suc seq) total name)
            (record {
              front = [];
              last = slice seq name total (take max_file_len s);
              parts = refl;
              middle = tt;
              same_name = refl;
              late = ==-lt 1 (suc seq) (omega arith);
              full = rw t ((==_iff total (length s + seq * max_file_len)).1 (omega arith));
              whole = t;
            })
    ]

sliced :
    (secret : Text) (sizes : List ℕ) (uid : ℤ) (clock : ℕ → ℕ) (name content : Text) (n : ℕ)
    (st : Spools)
    → max_file_len < length content
    → length content ≡ n
    → st.disk ≡ []
    → IsTidy (uid, safe_name name) st
    → delivered secret sizes
        (last_progress uid clock 0 (slices n 0 name (length content) content) st)
      ≡ some (
          Storage.stored
            (extension_of (audio (safe_name name) (length content)))
            (length content)
            content)
unfolding slices
sliced secret sizes uid clock name content zero st long e d tidy = absurd (omega arith)
sliced secret sizes uid clock name content (suc f) st long e d tidy =
    let total = length content in
    let left = drop max_file_len content in
    let c = slice 0 name total (take max_file_len content) in
    let t = length-take max_file_len content (omega arith) in
    let r =
      slices-Ends clock 1 f 1 total name left (omega arith)
        (omega (arith, length-drop max_file_len content))
        (omega (arith, length-drop max_file_len content))
        (omega (arith, length-drop max_file_len content)) in
    let (now, p) = last_progress-append uid clock 0 (c ∷ r.front) r.last st in
    let whole : (take max_file_len content ++ sent (stamped clock 1 r.front)) ++ r.last.bytes
        ≡ content =
      append_assoc (take max_file_len content) (sent (stamped clock 1 r.front)) r.last.bytes
      ∙ rw r.whole (take-append-drop max_file_len content) in
    let u =
      upload_image-spool_chunk secret sizes uid (clock 0) c r.last (stamped clock 1 r.front) now st
        d tidy refl (rw t (==-lt (max_file_len + 0 * max_file_len) total (omega arith))) r.middle
        (ap safe_name r.same_name) r.late r.full (rw whole refl) in
    rw (null-length content (omega arith), r.parts) (ap (delivered secret sizes) p ∙ rw whole at u)

-- If a file has more than one slice's bytes, and fewer than 2 ^ 31, its slices arrive in order, no write of
-- the spool fails, no file of an earlier run lies at its path, and both servers share the secret: at the
-- last slice the storage server gets, and stores, exactly the file's bytes.
pub last_progress-upload_slices :
    (secret : Text) (sizes : List ℕ) (uid : ℤ) (clock : ℕ → ℕ) (name content : Text) (st : Spools)
    → max_file_len < length content
    → length content < 2147483648
    → st.disk ≡ []
    → IsTidy (uid, safe_name name) st
    → delivered secret sizes (last_progress uid clock 0 (upload_slices name content) st)
      ≡ some (
          Storage.stored
            (extension_of (audio (safe_name name) (length content)))
            (length content)
            content)
unfolding upload_slices slices
last_progress-upload_slices secret sizes uid clock name content st long short d tidy =
    sliced secret sizes uid clock name content (length content) st long refl d tidy
