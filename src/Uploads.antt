-- ===== src/Uploads.antt =====
-- The spool of `UploadFileHandler` in Server/SessionServer/LogicSystem.cpp: the chunks of an upload
-- are kept in memory, above 8 MB in a temporary file, and forwarded after the last one.
-- A chunk's bytes are what `decode_base64` gives. A map of keys is a function; the digits of a uid hold
-- neither ':' nor '_', so the pair of uid and name stands for the spool key and for the file's path.
-- A write of the file may fail when the file is opened; it is not cut short in the middle.
pub mod Spool
pub mod Whole
pub mod Delivered
pub mod Metadata
pub mod Slices
use my_music.Base.{
  ℕ, ◌*◌, ◌+◌, ◌-◌, ℤ, pos, eq_int, Bool, true, false, not, ◌&&◌, ◌||◌, Option, none, some, Text,
  text_eq, List, [], ◌∷◌, ◌++◌, map, length, ltb, leb, ◌==◌, if◌then◌else◌,
}
use my_music.Sql.{World, Outcome, ok, raised}
use my_music.Dao.Catalog.{Song, get_or_create_song}
use my_music.Redis.{Redis}
use my_music.Logic.{ErrorCode, success, ether_invalid, token_invalid, check_token}

abbrev pub SpoolKey : Type 0
SpoolKey = ℤ × Text

abbrev pub same_key : SpoolKey → SpoolKey → Bool
same_key (u, s) (v, t) = eq_int u v && text_eq s t

pub record SpoolEntry : Type 0 where
  pub name : Text
  pub total : ℤ
  pub received : ℕ
  pub mem : Text
  -- `tmp_path` is not empty.
  pub on_disk : Bool
  pub last_active : ℕ

pub record Spools : Type 0 where
  pub entries : SpoolKey → Option SpoolEntry
  pub files : SpoolKey → Option Text
  -- Whether the next writes can open their file; with none left they can.
  pub disk : List Bool

pub record Chunk : Type 0 where
  pub seq : ℤ
  pub name : Text
  pub bytes : Text
  pub total_size : ℤ
  pub trans_size : ℤ

pub data Progress : Type 0 where
  rejected stored : Progress
  -- The last chunk is there: name, total and what the read callback gives.
  complete : Text → ℤ → Text → Progress

abbrev pub spool_mem_threshold : ℕ
spool_mem_threshold = 8 * 1024 * 1024

abbrev pub spool_stale_seconds : ℕ
spool_stale_seconds = 600

abbrev pub safe_char : ℕ → ℕ
safe_char c = if c == b'/' || (c == b'\\' || c == b':') then b'_' else c

abbrev pub safe_name : Text → Text
safe_name = map safe_char

abbrev pub put : {A : Type 0} → SpoolKey → Option A → (SpoolKey → Option A) → SpoolKey → Option A
put k v f k' = if same_key k' k then v else f k'

abbrev pub goes : ℕ → SpoolKey → SpoolKey → SpoolEntry → Bool
goes now key k e = ltb spool_stale_seconds (now - e.last_active) || same_key k key

abbrev pub kept_entry : ℕ → SpoolKey → SpoolKey → Option SpoolEntry → Option SpoolEntry
kept_entry now key k none = none
kept_entry now key k (some e) = if goes now key k e then none else some e

abbrev pub kept_file : ℕ → SpoolKey → SpoolKey → Option SpoolEntry → Option Text → Option Text
kept_file now key k none f = f
kept_file now key k (some e) f = if goes now key k e && e.on_disk then none else f

-- The sweep of a first chunk: stale entries and the one of the same key, with their files.
abbrev pub sweep : ℕ → SpoolKey → Spools → Spools
sweep now key st = record st {
  entries = λ k. kept_entry now key k (st.entries k);
  files = λ k. kept_file now key k (st.entries k) (st.files k);
}

abbrev pub fresh_entry : Text → ℤ → ℕ → SpoolEntry
fresh_entry name total now = record {
  name = name;
  total = total;
  received = 0;
  mem = [];
  on_disk = false;
  last_active = now;
}

abbrev pub contents : Option Text → Text
contents none = []
contents (some s) = s

abbrev pub begin_upload : ℕ → SpoolKey → Chunk → Spools → Spools
begin_upload now key c st =
    let st' = sweep now key st in
    record st' { entries = put key (some (fresh_entry key.1 c.total_size now)) st'.entries }

abbrev pub set_entry : SpoolKey → SpoolEntry → Spools → Spools
set_entry key e st = record st { entries = put key (some e) st.entries }

-- The file is opened at its end (`std::ios::app`); memory goes first.
abbrev pub appended : SpoolKey → SpoolEntry → Text → Spools → Spools
appended key e bytes st = record (set_entry key (record e { mem = [] }) st) {
  files = put key (some (contents (st.files key) ++ (e.mem ++ bytes))) st.files;
}

abbrev pub write_file : List Bool → SpoolKey → SpoolEntry → Text → Spools → Bool × Spools
write_file [] key e bytes st = (true, appended key e bytes st)
write_file (true ∷ ds) key e bytes st = (true, appended key e bytes (record st { disk = ds }))
write_file (false ∷ ds) key e bytes st = (false, set_entry key e (record st { disk = ds }))

abbrev pub append_chunk : SpoolKey → SpoolEntry → Text → Spools → Bool × Spools
append_chunk key e bytes st =
    if not e.on_disk && leb (length e.mem + length bytes) spool_mem_threshold
    then (true, set_entry key (record e { mem = e.mem ++ bytes }) st)
    else write_file st.disk key (record e { on_disk = true }) bytes st

-- The read callback: memory first, then the file.
abbrev pub spooled : SpoolKey → SpoolEntry → Spools → Text
spooled key e st = e.mem ++ (if e.on_disk then contents (st.files key) else [])

abbrev pub remove_entry : SpoolKey → SpoolEntry → Spools → Spools
remove_entry key e st = record st {
  entries = put key none st.entries;
  files = if e.on_disk then put key none st.files else st.files;
}

abbrev pub take_out : SpoolKey → Option SpoolEntry → Spools → Progress × Spools
take_out key none st = (rejected, st)
take_out key (some e) st = (complete e.name e.total (spooled key e st), remove_entry key e st)

abbrev pub after_append : SpoolKey → Chunk → Bool × Spools → Progress × Spools
after_append key c (false, st) = (rejected, st)
after_append key c (true, st) =
    if eq_int c.total_size c.trans_size then take_out key (st.entries key) st else (stored, st)

abbrev pub with_entry : ℕ → SpoolKey → Chunk → Option SpoolEntry → Spools → Progress × Spools
with_entry now key c none st = (rejected, st)
with_entry now key c (some e) st = after_append key c (
    append_chunk key (record e { last_active = now; received = e.received + length c.bytes })
      c.bytes st)

-- The part of the handler below the token's check, up to the forwarding.
unfoldable pub spool_chunk : ℤ → ℕ → Chunk → Spools → Progress × Spools
spool_chunk uid now c st =
    let key : SpoolKey = (uid, safe_name c.name) in
    let st' = if eq_int c.seq (pos 1) then begin_upload now key c st else st in
    with_entry now key c (st'.entries key) st'

abbrev pub cleared_song : Song
cleared_song = record {
  title = [];
  album_title = [];
  duration = pos 0;
  track_number = pos 0;
  file_url = [];
  artist_names = [];
}

abbrev pub song_done : Song → Outcome ℤ × World → ErrorCode × Song × World
song_done song (ok id, w) = (success, cleared_song, w)
song_done song (raised e, w) = (ether_invalid, song, w)

-- The forwarding, with the pending song of `_song`; `upload_audio` gives the URL or fails.
pub forward :
    (Text → ℤ → Text → Option Text) → Text → ℤ → Text → Song → World → ErrorCode × Song × World
forward upload_audio name total content song w = elim (upload_audio name total content) [
  | none ↦ (ether_invalid, song, w)
  | some url ↦
      song_done (record song { file_url = url })
        (get_or_create_song (record song { file_url = url }) w)
]

-- The answer once the chunk is spooled.
abbrev pub after_spool :
    (Text → ℤ → Text → Option Text)
    → Song
    → World
    → Progress × Spools
    → ErrorCode × Spools × Song × World
after_spool upload_audio song w (rejected, st) = (ether_invalid, st, song, w)
after_spool upload_audio song w (stored, st) = (success, st, song, w)
after_spool upload_audio song w (complete name total content, st) =
    let (e, song', w') = forward upload_audio name total content song w in (e, st, song', w')

-- The whole handler: `user` is the session's uid, `now` the time.
unfoldable pub upload_file_handler :
    {S : Type 0}
    → Redis S
    → (Text → ℤ → Text → Option Text)
    → ℤ
    → ℕ
    → Text
    → Chunk
    → S
    → Spools
    → Song
    → World
    → ErrorCode × Spools × Song × World
upload_file_handler redis upload_audio user now token c s st song w =
    if check_token redis user token s
    then after_spool upload_audio song w (spool_chunk user now c st)
    else (token_invalid, st, song, w)
