-- ===== src/Storage/Received.antt =====
-- What the storage server writes is the file that the session server read.
use my_music.Base.{
  Option, none, Bool-cases, inl, inr, text_eq, text_eq_iff, ℕ, zero, suc, ◌-◌, ◌≤◌, ◌≡◌, refl, ap,
  ◌∙◌, Bool, true, false, some, Text, codes, text_eq_refl, List, [], ◌∷◌, ◌++◌, length,
  length-append, arith,
}
use my_music.Storage.{
  Message, FileMetadata, data_of, upload_callback, upload_audio, upload_image, read_chunks,
  extension_of, stored, finish, receive_stream, metadata, chunk_data,
}
use my_music.Storage.Chunks.{joined, joined-read_chunks}

-- With as many bytes as remain on the stream, the loop finishes and writes them all.
upload_callback-joined :
    (ms : List Message) (r : ℕ) → r ≡ length (joined ms) → (upload_callback ms r).0 ≡ true
unfolding upload_callback
upload_callback-joined [] zero e = refl
upload_callback-joined [] (suc r) e = absurd (omega arith)
upload_callback-joined (m ∷ ms) zero e = refl
upload_callback-joined (m ∷ ms) (suc r) e =
    upload_callback-joined ms _ (omega (arith, length-append (data_of m) (joined ms)))

nothing_left : (s : Text) → length s ≡ 0 → s ≡ []
nothing_left [] e = refl
nothing_left (b ∷ s) e = absurd (omega arith)

upload_callback-writes :
    (ms : List Message) (r : ℕ) → r ≡ length (joined ms) → (upload_callback ms r).1 ≡ joined ms
unfolding upload_callback
upload_callback-writes [] zero e = refl
upload_callback-writes [] (suc r) e = absurd (omega arith)
upload_callback-writes (m ∷ ms) zero e = rw (nothing_left (joined (m ∷ ms)) (omega arith)) refl
upload_callback-writes (m ∷ ms) (suc r) e =
    ap (λ (t : Text). data_of m ++ t)
      (upload_callback-writes ms _ (omega (arith, length-append (data_of m) (joined ms))))

finish_whole :
    (m : FileMetadata) (r : Bool × Text) (s : Text)
    → r.0 ≡ true
    → r.1 ≡ s
    → finish m r ≡ stored (extension_of m) m.file_size s
finish_whole m (true, t) s e q = rw q refl
finish_whole m (false, t) s e q = cc

-- With the shared secret, and with the size that the content has, the storage server stores exactly the
-- content, however the read callback divides it, under an extension from the file's name or type.
pub upload_image-upload_audio :
    (secret name : Text) (sizes : List ℕ) (content : Text)
    → upload_image secret
        (some (codes "Bearer " ++ secret))
        (upload_audio name (length content) sizes content)
      ≡ stored
          (extension_of (record {
            filename = name;
            file_size = length content;
            mime_type = codes "audio/mpeg";
          }))
          (length content)
          content
unfolding upload_image upload_audio
upload_image-upload_audio secret name sizes content =
    let whole = joined-read_chunks (length content) sizes content (omega arith) in
    let chunks = read_chunks (length content) sizes content in
    rw (text_eq_refl (codes "Bearer " ++ secret)) (
      finish_whole
        (record { filename = name; file_size = length content; mime_type = codes "audio/mpeg" })
        (upload_callback chunks (length content)) content
        (upload_callback-joined chunks (length content) (rw whole refl))
        (upload_callback-writes chunks (length content) (rw whole refl) ∙ whole))

upload_callback-length :
    (ms : List Message) (r : ℕ)
    → (upload_callback ms r).0 ≡ true
    → r ≤ length (upload_callback ms r).1
unfolding upload_callback
upload_callback-length [] zero e = omega arith
upload_callback-length [] (suc r) e = cc
upload_callback-length (m ∷ ms) zero e = omega arith
upload_callback-length (m ∷ ms) (suc r) e = omega (
  arith,
  upload_callback-length ms (suc r - length (data_of m)) e,
  length-append (data_of m) (upload_callback ms (suc r - length (data_of m))).1,
)

finish-length :
    (m : FileMetadata) (r : Bool × Text) (ext t : Text) (n : ℕ)
    → finish m r ≡ stored ext n t
    → (r.0 ≡ true) × (r.1 ≡ t) × (m.file_size ≡ n)
finish-length m (true, s) ext t n e = (refl, cc e, cc e)
finish-length m (false, s) ext t n e = cc

receive_stream-length :
    (stream : List Message) (ext t : Text) (n : ℕ)
    → receive_stream stream ≡ stored ext n t
    → n ≤ length t
receive_stream-length [] ext t n e = cc
receive_stream-length (metadata m ∷ stream) ext t n e =
    let f = finish-length m (upload_callback stream m.file_size) ext t n e in
    omega (arith, f, upload_callback-length stream m.file_size f.0, ap (λ (x : Text). length x) f.1)
receive_stream-length (chunk_data c ∷ stream) ext t n e = cc

-- Whatever arrives on the stream, a file is stored only for a client with the shared secret, and with
-- at least as many bytes as its metadata announced.
pub upload_image-stored :
    (secret : Text) (actual : Option Text) (stream : List Message) (ext t : Text) (n : ℕ)
    → upload_image secret actual stream ≡ stored ext n t
    → (actual ≡ some (codes "Bearer " ++ secret)) × (n ≤ length t)
unfolding upload_image
upload_image-stored secret none stream ext t n e = cc
upload_image-stored secret (some a) stream ext t n e =
    elim (Bool-cases (text_eq a (codes "Bearer " ++ secret))) [
      | inl y ↦ (
        ap some ((text_eq_iff a (codes "Bearer " ++ secret)).0 y),
        receive_stream-length stream ext t n (rw y at e),
      )
      | inr y ↦ let f = (rw y at e) in cc f
    ]
