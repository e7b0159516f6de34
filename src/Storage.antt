-- ===== src/Storage.antt =====
-- A file on its way to FastDFS: `UploadAudio` of Server/SessionServer/StorageGrpcClient.cpp, and
-- `UploadImage` with its callback of Server/StorageServer/StorageServer/gRPC/StorageServiceImpl.cpp.
-- A gRPC stream is the list of the messages that arrive; the socket takes the bytes that it grants.
pub mod Chunks
pub mod Received
use my_music.Base.{
  ℕ, zero, suc, ◌-◌, ◌+◌, ◌*◌, ℤ, pos, Bool, true, false, ◌&&◌, ◌||◌, not, Option, none, some, Text,
  text_eq, codes, null, List, [], ◌∷◌, ◌++◌, length, take, drop, min, max, ltb, leb, ◌==◌,
  if◌then◌else◌,
}

pub record FileMetadata : Type 0 where
  pub filename : Text
  pub file_size : ℕ
  pub mime_type : Text

-- UploadImageRequest, a oneof.
pub data Message : Type 0 where
  metadata : FileMetadata → Message
  chunk_data : Text → Message

abbrev pub chunk_size : ℕ
chunk_size = 256 * 1024

-- What one call of the read callback gives of a text that is left; it never gives more than is asked
-- for. The sizes are the file's choice, at least a byte while there are some; with none left it gives
-- all it can.
abbrev pub granted : List ℕ → ℕ → ℕ → ℕ
granted [] wanted there = min wanted there
granted (s ∷ sizes) wanted there = max 1 (min s (min wanted there))

abbrev pub later : List ℕ → List ℕ
later [] = []
later (s ∷ sizes) = sizes

-- The loop of `UploadAudio` over the callback: the chunks, until it gives nothing. The fuel bounds the
-- calls.
pub read_chunks : ℕ → List ℕ → Text → List Message
read_chunks zero sizes s = []
read_chunks (suc f) sizes [] = []
read_chunks (suc f) sizes (b ∷ s) =
    let k = granted sizes chunk_size (length (b ∷ s)) in
    let rest = read_chunks f (later sizes) (drop k (b ∷ s)) in chunk_data (take k (b ∷ s)) ∷ rest

-- What `UploadAudio` writes, if no write fails. Each call gives a byte or more.
unfoldable pub upload_audio : Text → ℕ → List ℕ → Text → List Message
unfolding read_chunks
upload_audio file_name file_size sizes content =
    metadata
      (record { filename = file_name; file_size = file_size; mime_type = codes "audio/mpeg" })
    ∷ read_chunks (length content) sizes content

-- `request.chunk_data()`; of another message it is empty.
abbrev pub data_of : Message → Text
data_of (metadata m) = []
data_of (chunk_data t) = t

-- The loop of `upload_callback`, by the size that remains; what it wrote, and whether it finished.
-- A stream that ends early stops it. More bytes than remain are written all the same. Every `write` to
-- FastDFS is taken to succeed in the end: the branch of one that fails is left out.
unfoldable pub upload_callback : List Message → ℕ → Bool × Text
upload_callback stream zero = (true, [])
upload_callback [] (suc r) = (false, [])
upload_callback (m ∷ stream) (suc r) =
    let rest = upload_callback stream (suc r - length (data_of m)) in (rest.0, data_of m ++ rest.1)

-- The text behind the last c.
abbrev pub behind_last : ℕ → Text → Option Text
behind_last c [] = none
behind_last c (x ∷ s) =
    let rest = behind_last c s in
    elim rest [ some t ↦ some t | none ↦ if x == c then some s else none ]

abbrev pub is_alnum : ℕ → Bool
is_alnum c =
    (leb b'0' c && leb c b'9') || ((leb b'A' c && leb c b'Z') || (leb b'a' c && leb c b'z'))

abbrev pub all_alnum : Text → Bool
all_alnum [] = true
all_alnum (c ∷ s) = is_alnum c && all_alnum s

abbrev pub valid_suffix : Text → Bool
valid_suffix suffix = not (null suffix) && (leb (length suffix) 8 && all_alnum suffix)

abbrev pub mime_suffix : Text → Text
mime_suffix mime = elim (behind_last b'/' mime) [ none ↦ mime | some t ↦ t ]

-- The extension of the stored file.
unfoldable pub extension_of : FileMetadata → Text
extension_of m = elim (behind_last b'.' m.filename) [
  | none ↦ mime_suffix m.mime_type
  | some suffix ↦ if valid_suffix suffix then suffix else mime_suffix m.mime_type
]

pub data Status : Type 0 where
  unauthenticated cancelled : Status
  -- The extension, the size that FastDFS is told, and what the callback wrote.
  stored : Text → ℕ → Text → Status

abbrev pub finish : FileMetadata → Bool × Text → Status
finish m (true, written) = stored (extension_of m) m.file_size written
finish m (false, written) = cancelled

-- The first message must be the metadata.
abbrev pub receive_stream : List Message → Status
receive_stream (metadata m ∷ stream) = finish m (upload_callback stream m.file_size)
receive_stream _ = cancelled

-- The service: `actual` is the authorization of the client, if any. FastDFS calls the callback and
-- stores what it writes.
unfoldable pub upload_image : Text → Option Text → List Message → Status
upload_image secret actual stream = elim actual [
  | none ↦ unauthenticated
  | some a ↦
      if text_eq a (codes "Bearer " ++ secret) then receive_stream stream else unauthenticated
]
