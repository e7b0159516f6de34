-- ===== src/Tests/Uploads.antt =====
-- A file of six bytes in three chunks.
use my_music.Base.{ℕ, ◌≡◌, refl, pos, none, some, Text, [], ◌∷◌, codes}
use my_music.Base.{Option, if◌then◌else◌}
use my_music.Sql.{ok}
use my_music.Redis.{eq_key, user_token}
use my_music.Dao.Catalog.{Song, get_or_create_album}
use my_music.Logic.{success, check_token}
use my_music.Uploads.Metadata.{MetaReq, upload_meta_type_handler, upload_meta_type_handler-names}
use my_music.Tests.Memory.{Store, memory}
use my_music.Tests.Tables.{library}
use my_music.Uploads.{cleared_song, Chunk, Spools, spool_chunk, complete}
use my_music.Uploads.Delivered.{delivered, audio, upload_image-spool_chunk}
use my_music.Storage.{extension_of}
use my_music.Storage
use my_music.Uploads.Whole.{IsTidy, spool_chunks, spool_chunk-complete}

abbrev no_spools : Spools
no_spools = record { entries = λ k. none; files = λ k. none; disk = [] }

abbrev chunk : ℕ → Text → ℕ → Chunk
chunk n bytes sent = record {
  seq = pos n;
  name = codes "a/b.mp3";
  bytes = bytes;
  total_size = pos 6;
  trans_size = pos sent;
}

spool_chunk-complete_example :
    (spool_chunk (pos 1) 12 (chunk 3 (codes "ef") 6) (
      spool_chunks
        (pos 1)
        ((10, chunk 1 (codes "ab") 2) ∷ (11, chunk 2 (codes "cd") 4) ∷ [])
        no_spools)).0
    ≡ complete (codes "a_b.mp3") (pos 6) (codes "abcdef")
spool_chunk-complete_example =
    spool_chunk-complete (pos 1) 10 (chunk 1 (codes "ab") 2) (chunk 3 (codes "ef") 6)
      ((11, chunk 2 (codes "cd") 4) ∷ []) 12 no_spools refl (unfold IsTidy in λ e. refl) refl refl
      (record { same = refl; behind = refl; before = refl }, tt) refl refl refl

upload_image-spool_chunk_example :
    delivered
      (codes "k")
      (2 ∷ [])
      (spool_chunk (pos 1) 12 (chunk 3 (codes "ef") 6) (
        spool_chunks
          (pos 1)
          ((10, chunk 1 (codes "ab") 2) ∷ (11, chunk 2 (codes "cd") 4) ∷ [])
          no_spools)).0
    ≡ some (Storage.stored (extension_of (audio (codes "a_b.mp3") 6)) 6 (codes "abcdef"))
upload_image-spool_chunk_example =
    upload_image-spool_chunk (codes "k") (2 ∷ []) (pos 1) 10 (chunk 1 (codes "ab") 2)
      (chunk 3 (codes "ef") 6) ((11, chunk 2 (codes "cd") 4) ∷ []) 12 no_spools refl
      (unfold IsTidy in λ e. refl) refl refl
      (record { same = refl; behind = refl; before = refl }, tt) refl refl refl refl

-- User 1 holds the token "t".
abbrev uploader : Store
uploader k = if eq_key k (user_token (pos 1)) then some (codes "t", none) else none

abbrev meta : MetaReq
meta = record {
  token = codes "t";
  title = codes "new";
  album = codes "x";
  artists = codes "ann/bob";
  icon = [];
  description = [];
  release_date = [];
  track = pos 1;
  duration = pos 200;
}

abbrev no_upload : Text → Text → Text → Option Text
no_upload name bytes mime = none

upload_meta_type_handler-names_example :
    (p : Song) × (upload_meta_type_handler memory no_upload
        (pos 7)
        (pos 1)
        meta
        uploader
        cleared_song
        library
      ≡ (ok (success, p), library))
    × (p.title ≡ codes "new")
    × (p.album_title ≡ codes "x")
    × (p.artist_names ≡ codes "ann" ∷ codes "bob" ∷ [])
upload_meta_type_handler-names_example =
    upload_meta_type_handler-names memory no_upload (pos 7) (pos 1) (pos 2) meta uploader
      cleared_song (codes "ann") (codes "bob" ∷ []) library library (unfold check_token in refl)
      refl (unfold get_or_create_album in refl) refl
      ((refl, (refl, (refl, (refl, tt)))), ((refl, (refl, (refl, (refl, tt)))), tt)) refl
