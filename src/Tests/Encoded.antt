-- ===== src/Tests/Encoded.antt =====
-- Four bytes in Base64, for URLs and without padding.
use my_music.Base.{
  ℕ, ◌+◌, ◌-◌, ◌*◌, ◌/◌, ◌%◌, ◌==◌, ◌≡◌, refl, Text, List, [], ◌∷◌, true, false, leb, arith,
  if◌then◌else◌,
}
use my_music.Base64.{decode_base64}
use my_music.Base64.Encoding.{encode, ReadsLetters, Regroups}
use my_music.Base64.RoundTrip.{decode_base64-encode}

abbrev six_bits : ℕ → ℕ
six_bits c =
    if leb 97 c
    then c - 71
    else if leb 65 c
    then c - 65
    else if c == 61
    then 0
    else if leb 48 c
    then c + 4
    else if c == 43
    then 62
    else 63

abbrev bytes_of : List ℕ → Text
bytes_of (a ∷ b ∷ c ∷ d ∷ rest) =
    (a * 4 + b / 16) ∷ (b % 16 * 16 + c / 4) ∷ (c % 4 * 64 + d) ∷ bytes_of rest
bytes_of few = []

six_bits-ReadsLetters : ReadsLetters six_bits
six_bits-ReadsLetters = (λ n h. ground arith, refl)

bytes_of-Regroups : Regroups bytes_of
bytes_of-Regroups = (refl, λ a b c d rest i j k l. refl)

decode_base64-encode_example :
    decode_base64 six_bits bytes_of (encode true false (251 ∷ 255 ∷ 0 ∷ 65 ∷ []))
    ≡ 251 ∷ 255 ∷ 0 ∷ 65 ∷ []
decode_base64-encode_example =
    decode_base64-encode six_bits bytes_of six_bits-ReadsLetters bytes_of-Regroups true false
      (251 ∷ 255 ∷ 0 ∷ 65 ∷ []) (omega arith, (omega arith, (omega arith, (omega arith, tt))))
