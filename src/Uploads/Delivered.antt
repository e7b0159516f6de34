-- ===== src/Uploads/Delivered.antt =====
-- An upload from the client's chunks to the file at the storage server.
use my_music.Base.{
  ℕ, ◌≡◌, ap, ◌∙◌, ℤ, pos, negsuc, eq_int, true, false, Option, none, some, Text, codes, List, [],
  ◌∷◌, ◌++◌, length, All,
}
use my_music.Uploads.{Spools, Chunk, Progress, rejected, stored, complete, safe_name, spool_chunk}
use my_music.Uploads.Whole.{IsTidy, IsMiddle, spool_chunks, sent, spool_chunk-complete}
use my_music.Storage.{FileMetadata, Status, upload_audio, upload_image, extension_of}
use my_music.Storage
use my_music.Storage.Received.{upload_image-upload_audio}

-- What the storage server does with a complete upload; both sides have the same secret. A negative size
-- is no size of a file.
abbrev pub delivered : Text → List ℕ → Progress → Option Status
delivered secret sizes (complete name (pos n) content) =
    some
      (upload_image secret (some (codes "Bearer " ++ secret)) (upload_audio name n sizes content))
delivered secret sizes (complete name (negsuc n) content) = none
delivered secret sizes rejected = none
delivered secret sizes stored = none

abbrev pub audio : Text → ℕ → FileMetadata
audio name size = record { filename = name; file_size = size; mime_type = codes "audio/mpeg" }

-- If the chunks of an upload (at least two, of which only the first has number 1 and only the last
-- reaches the total) announce the number of bytes that they have together, the storage server stores
-- exactly these bytes, in order, under the cleaned name's extension, however the forwarding divides them;
-- no write fails, no file of an earlier run lies at the upload's path, and both sides share the secret.
pub upload_image-spool_chunk :
    (secret : Text) (sizes : List ℕ) (uid : ℤ) (t : ℕ) (first last : Chunk)
    (middle : List (ℕ × Chunk)) (now : ℕ) (st : Spools)
    → st.disk ≡ []
    → IsTidy (uid, safe_name first.name) st
    → eq_int first.seq (pos 1) ≡ true
    → eq_int first.total_size first.trans_size ≡ false
    → All (IsMiddle (safe_name first.name)) middle
    → safe_name last.name ≡ safe_name first.name
    → eq_int last.seq (pos 1) ≡ false
    → eq_int last.total_size last.trans_size ≡ true
    → first.total_size ≡ pos (length ((first.bytes ++ sent middle) ++ last.bytes))
    → let whole = (first.bytes ++ sent middle) ++ last.bytes in
      delivered secret sizes
        (spool_chunk uid now last (spool_chunks uid ((t, first) ∷ middle) st)).0
      ≡ some (
          Storage.stored
            (extension_of (audio (safe_name first.name) (length whole)))
            (length whole)
            whole)
upload_image-spool_chunk secret sizes uid t first last middle now st d tidy q l m e ql ll total =
    let whole = (first.bytes ++ sent middle) ++ last.bytes in
    ap (delivered secret sizes)
      (spool_chunk-complete uid t first last middle now st d tidy q l m e ql ll)
    ∙ ap (λ (x : ℤ). delivered secret sizes (complete (safe_name first.name) x whole)) total
    ∙ ap some (upload_image-upload_audio secret (safe_name first.name) sizes whole)
