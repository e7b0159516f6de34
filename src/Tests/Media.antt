-- ===== src/Tests/Media.antt =====
-- An image header and an encoded text.
use my_music.Base.{◌↔◌, Text, some, [], ◌∷◌, ◌++◌, ◌≤◌, ◌≡◌, arith, codes, length}
use my_music.ImgFmt.{detect_image_format, gif}
use my_music.ImgFmt.Signature.{IsFormat, detect_image_format_iff}
use my_music.Url.{url_encode, url_decode}
use my_music.Url.RoundTrip.{url_decode-url_encode}

url_decode-url_encode_example : url_decode (url_encode (codes "a b&c")) ≡ some (codes "a b&c")
url_decode-url_encode_example =
    url_decode-url_encode (codes "a b&c")
      (omega arith, (omega arith, (omega arith, (omega arith, (omega arith, tt)))))

abbrev a_gif : Text
a_gif = codes "GIF89a" ++ 1 ∷ 0 ∷ 1 ∷ 0 ∷ 0 ∷ 0 ∷ []

detect_image_format_iff_example :
    (detect_image_format a_gif ≡ gif) ↔ ((12 ≤ length a_gif) × IsFormat gif a_gif)
detect_image_format_iff_example = detect_image_format_iff a_gif gif (λ e. cc)
