-- ===== src/ImgFmt.antt =====
-- Server/SessionServer/Common/Tools/ImgFmtInspector/ImgFmtInspector.cpp: the format of an image from
-- its first bytes. `buffer[i]` is read only below the size that is tested before it.
pub mod Signature
use my_music.Base.{
  ℕ, suc, Text, Bool, true, false, ◌&&◌, ◌||◌, List, [], ◌∷◌, ◌==◌, ltb, leb, if◌then◌else◌, length,
  drop, codes,
}

pub data ImageFormat : Type 0 where
  jpeg png gif bmp tiff webp unknown : ImageFormat

-- `buffer[i]`.
abbrev pub byte_at : Text → ℕ → ℕ
byte_at s i = elim (drop i s) [ [] ↦ 0 | b ∷ r ↦ b ]

-- `memcmp(buffer + i, t, n) == 0` with `n` the length of the literal t.
abbrev pub same_bytes : Text → ℕ → Text → Bool
same_bytes s i [] = true
same_bytes s i (b ∷ t) = byte_at s i == b && same_bytes s (suc i) t

abbrev pub is_jpeg : Text → Bool
is_jpeg s = leb 3 (length s) && byte_at s 0 == 0xFF && byte_at s 1 == 0xD8 && byte_at s 2 == 0xFF

abbrev pub is_png : Text → Bool
is_png s =
    leb 8 (length s)
    && byte_at s 0 == 0x89
    && byte_at s 1 == b'P'
    && byte_at s 2 == b'N'
    && byte_at s 3 == b'G'
    && byte_at s 4 == 0x0D
    && byte_at s 5 == 0x0A
    && byte_at s 6 == 0x1A
    && byte_at s 7 == 0x0A

abbrev pub is_gif : Text → Bool
is_gif s =
    leb 6 (length s)
    && byte_at s 0 == b'G'
    && byte_at s 1 == b'I'
    && byte_at s 2 == b'F'
    && byte_at s 3 == b'8'
    && (byte_at s 4 == b'7' || byte_at s 4 == b'9')
    && byte_at s 5 == b'a'

abbrev pub is_bmp : Text → Bool
is_bmp s = leb 2 (length s) && byte_at s 0 == b'B' && byte_at s 1 == b'M'

abbrev pub is_tiff : Text → Bool
is_tiff s =
    leb 4 (length s)
    && ((byte_at s 0 == b'I' && byte_at s 1 == b'I' && byte_at s 2 == 0x2A && byte_at s 3 == 0)
        || (byte_at s 0 == b'M' && byte_at s 1 == b'M' && byte_at s 2 == 0 && byte_at s 3 == 0x2A))

abbrev pub is_webp : Text → Bool
is_webp s = leb 12 (length s) && same_bytes s 0 (codes "RIFF") && same_bytes s 8 (codes "WEBP")

-- The ladder of tests, behind the first guard.
abbrev pub ladder : Text → ImageFormat
ladder s =
    if is_jpeg s
    then jpeg
    else if is_png s
    then png
    else if is_gif s
    then gif
    else if is_bmp s
    then bmp
    else if is_tiff s
    then tiff
    else if is_webp s
    then webp
    else unknown

pub detect_image_format : Text → ImageFormat
detect_image_format s = if ltb (length s) 12 then unknown else ladder s

abbrev pub extension_of : ImageFormat → Text
extension_of jpeg = codes "jpg"
extension_of png = codes "png"
extension_of gif = codes "gif"
extension_of bmp = codes "bmp"
extension_of tiff = codes "tiff"
extension_of webp = codes "webp"
extension_of unknown = []

abbrev pub mime_of : ImageFormat → Text
mime_of jpeg = codes "image/jpeg"
mime_of png = codes "image/png"
mime_of gif = codes "image/gif"
mime_of bmp = codes "image/bmp"
mime_of tiff = codes "image/tiff"
mime_of webp = codes "image/webp"
mime_of unknown = []

unfoldable pub get_image_extension : Text → Text
unfolding detect_image_format
get_image_extension s = extension_of (detect_image_format s)

unfoldable pub get_image_mime_type : Text → Text
unfolding detect_image_format
get_image_mime_type s = mime_of (detect_image_format s)
