-- ===== src/Base64/Encoding.antt =====
-- The encodings of RFC 4648, and what boost's two iterators do.
use my_music.Base.{
  ℕ, ◌+◌, ◌-◌, ◌*◌, ◌/◌, ◌%◌, ◌<◌, ◌==◌, ◌≡◌, Text, List, [], ◌∷◌, Bool, ltb, if◌then◌else◌,
}
use my_music.Base64.{equals_sign}

-- The alphabet of the RFC, and the one for URLs and file names.
abbrev pub letter : ℕ → ℕ
letter n =
    if ltb n 26
    then n + 65
    else if ltb n 52
    then n + 71
    else if ltb n 62
    then n - 4
    else if n == 62
    then 43
    else 47

abbrev pub symbol : Bool → ℕ → ℕ
symbol for_url n =
    if for_url then (if n == 62 then 45 else if n == 63 then 95 else letter n) else letter n

-- The encoding, for URLs or not, padded or not.
unfoldable pub encode : Bool → Bool → Text → Text
encode u p [] = []
encode u p (a ∷ []) =
    symbol u (a / 4) ∷ symbol u (a % 4 * 16) ∷ (if p then equals_sign ∷ equals_sign ∷ [] else [])
encode u p (a ∷ b ∷ []) =
    symbol u (a / 4)
    ∷ symbol u (a % 4 * 16 + b / 16)
    ∷ symbol u (b % 16 * 4)
    ∷ (if p then equals_sign ∷ [] else [])
encode u p (a ∷ b ∷ c ∷ rest) =
    symbol u (a / 4)
    ∷ symbol u (a % 4 * 16 + b / 16)
    ∷ symbol u (b % 16 * 4 + c / 64)
    ∷ symbol u (c % 64)
    ∷ encode u p rest

-- What boost's iterators do: the characters of the alphabet are their numbers, '=' is 0, and four numbers
-- of six bits are three bytes.
abbrev pub ReadsLetters : (ℕ → ℕ) → Type 0
ReadsLetters from_base64 =
    ((n : ℕ) → n < 64 → from_base64 (letter n) ≡ n) × (from_base64 equals_sign ≡ 0)

abbrev pub Regroups : (List ℕ → Text) → Type 0
Regroups regroup =
    (regroup [] ≡ [])
    × ((a b c d : ℕ) (rest : List ℕ)
        → a < 64
        → b < 64
        → c < 64
        → d < 64
        → regroup (a ∷ b ∷ c ∷ d ∷ rest)
          ≡ (a * 4 + b / 16) ∷ (b % 16 * 16 + c / 4) ∷ (c % 4 * 64 + d) ∷ regroup rest)
