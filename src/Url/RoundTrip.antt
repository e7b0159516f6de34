-- ===== src/Url/RoundTrip.antt =====
-- Decoding undoes encoding.
use my_music.Base.{
  ℕ, ◌/◌, ◌%◌, ◌<◌, ◌≡◌, refl, Text, false, Bool-cases, inl, inr, some, [], ◌∷◌, ◌++◌, ◌==◌, arith,
  ==_iff, All,
}
use my_music.Url.{
  to_hex, from_hex, is_plain, encode_byte, url_encode, cons_byte, hex_byte, url_decode,
}

from_hex-to_hex : (x : ℕ) → x < 16 → from_hex (to_hex x) ≡ some x
from_hex-to_hex x h = ground arith

hex_byte_lem :
    (c : ℕ) → c < 256 → hex_byte (from_hex (to_hex (c / 16))) (from_hex (to_hex (c % 16))) ≡ some c
hex_byte_lem c h =
    rw (from_hex-to_hex (c / 16) (omega arith), from_hex-to_hex (c % 16) (omega arith))
      (ground arith)

plain_step :
    (c : ℕ) (s : Text)
    → (c == b'+') ≡ false
    → (c == b'%') ≡ false
    → url_decode (c ∷ s) ≡ cons_byte (some c) (url_decode s)
unfolding url_decode
plain_step c [] p q = rw (p, q)
plain_step c (d ∷ []) p q = rw (p, q)
plain_step c (d ∷ e ∷ s) p q = rw (p, q)

plus_step : (s : Text) → url_decode (b'+' ∷ s) ≡ cons_byte (some b' ') (url_decode s)
unfolding url_decode
plus_step [] = refl
plus_step (d ∷ []) = refl
plus_step (d ∷ e ∷ s) = refl

percent_step :
    (d e : ℕ) (s : Text)
    → url_decode (b'%' ∷ d ∷ e ∷ s) ≡ cons_byte (hex_byte (from_hex d) (from_hex e)) (url_decode s)
unfolding url_decode
percent_step d e s = refl

decode-encode_byte :
    (c : ℕ) (s : Text)
    → c < 256
    → url_decode (encode_byte c ++ s) ≡ cons_byte (some c) (url_decode s)
decode-encode_byte c s h = elim (Bool-cases (is_plain c)) [
  | inl y ↦ rw y (plain_step c s (ground arith) (ground arith))
  | inr y ↦ elim (Bool-cases (c == b' ')) [
    | inl z ↦ rw (y, z) (cc (plus_step s, (==_iff c b' ').0 z))
    | inr z ↦ rw (y, z) (rw (percent_step (to_hex (c / 16)) (to_hex (c % 16)) s, hex_byte_lem c h))
  ]
]

-- Every text of bytes comes back from its encoding, and no assert fails on the way.
pub url_decode-url_encode : (s : Text) → All (λ c. c < 256) s → url_decode (url_encode s) ≡ some s
unfolding url_encode
url_decode-url_encode [] h = unfold url_decode in refl
url_decode-url_encode (c ∷ s) h =
    rw (decode-encode_byte c (url_encode s) h.0, url_decode-url_encode s h.1)
