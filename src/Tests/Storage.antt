-- ===== src/Tests/Storage.antt =====
-- A short file on its way to the storage server.
use my_music.Base.{◌≤◌, ◌≡◌, refl, some, List, [], ◌∷◌, ◌++◌, codes, length}
use my_music.Storage.{
  upload_callback, Message, metadata, chunk_data, upload_audio, upload_image, extension_of, stored,
}
use my_music.Storage.Received.{upload_image-upload_audio, upload_image-stored}

upload_image-upload_audio_example :
    upload_image
      (codes "key")
      (some (codes "Bearer " ++ codes "key"))
      (upload_audio (codes "a.mp3") 6 (4 ∷ []) (codes "abcdef"))
    ≡ stored
        (extension_of
          (record { filename = codes "a.mp3"; file_size = 6; mime_type = codes "audio/mpeg" }))
        6
        (codes "abcdef")
upload_image-upload_audio_example =
    upload_image-upload_audio (codes "key") (codes "a.mp3") (4 ∷ []) (codes "abcdef")

-- A stream with more than was announced.
abbrev long_stream : List Message
long_stream =
    metadata (record { filename = codes "x"; file_size = 3; mime_type = codes "image/png" })
    ∷ chunk_data (codes "ab")
    ∷ chunk_data (codes "cd")
    ∷ []

upload_image-stored_example :
    (some (codes "Bearer k") ≡ some (codes "Bearer " ++ codes "k")) × (3 ≤ length (codes "abcd"))
upload_image-stored_example =
    upload_image-stored (codes "k") (some (codes "Bearer k")) long_stream (codes "png")
      (codes "abcd") 3 (unfold upload_image upload_callback extension_of in refl)
