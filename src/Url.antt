-- ===== src/Url.antt =====
-- Server/GateServer/HttpConnection.cpp: percent encoding and the query of a GET request.
-- A failed `assert` is `none`. `isalnum` is that of the C locale.
pub mod RoundTrip
use my_music.Base.{
  ℕ, ◌+◌, ◌-◌, ◌*◌, ◌/◌, ◌%◌, Text, Bool, true, false, ◌&&◌, ◌||◌, Option, none, some, List, [],
  ◌∷◌, ◌++◌, ◌==◌, ltb, leb, if◌then◌else◌,
}

abbrev pub to_hex : ℕ → ℕ
to_hex x = if ltb 9 x then x + 55 else x + 48

abbrev pub from_hex : ℕ → Option ℕ
from_hex x =
    if leb b'A' x && leb x b'Z'
    then some (x - b'A' + 10)
    else if leb b'a' x && leb x b'z'
    then some (x - b'a' + 10)
    else if leb b'0' x && leb x b'9'
    then some (x - b'0')
    else none

abbrev pub is_alnum : ℕ → Bool
is_alnum c = (leb b'0' c && leb c b'9') || (leb b'A' c && leb c b'Z') || (leb b'a' c && leb c b'z')

abbrev pub is_plain : ℕ → Bool
is_plain c = is_alnum c || c == b'-' || c == b'_' || c == b'.' || c == b'~'

abbrev pub encode_byte : ℕ → Text
encode_byte c =
    if is_plain c
    then c ∷ []
    else if c == b' '
    then b'+' ∷ []
    else b'%' ∷ to_hex (c / 16) ∷ to_hex (c % 16) ∷ []

pub url_encode : Text → Text
url_encode [] = []
url_encode (c ∷ s) = encode_byte c ++ url_encode s

abbrev pub cons_byte : Option ℕ → Option Text → Option Text
cons_byte none r = none
cons_byte (some c) none = none
cons_byte (some c) (some r) = some (c ∷ r)

-- `strTemp += hight * 16 + low`, an unsigned char.
abbrev pub hex_byte : Option ℕ → Option ℕ → Option ℕ
hex_byte (some h) (some l) = some ((h * 16 + l) % 256)
hex_byte _ _ = none

-- The assert asks for two characters behind the percent sign.
unfoldable pub url_decode : Text → Option Text
url_decode [] = some []
url_decode (c ∷ []) =
    if c == b'+' then some (b' ' ∷ []) else if c == b'%' then none else some (c ∷ [])
url_decode (c ∷ d ∷ []) =
    let rest = url_decode (d ∷ []) in
    if c == b'+'
    then cons_byte (some b' ') rest
    else if c == b'%'
    then none
    else cons_byte (some c) rest
url_decode (c ∷ d ∷ e ∷ s) =
    let rest = url_decode (d ∷ e ∷ s) in
    let behind = url_decode s in
    if c == b'+'
    then cons_byte (some b' ') rest
    else if c == b'%'
    then cons_byte (hex_byte (from_hex d) (from_hex e)) behind
    else cons_byte (some c) rest

-- The text before and behind the first byte c.
abbrev pub split_at : ℕ → Text → Option (Text × Text)
split_at c [] = none
split_at c (x ∷ s) =
    let rest = split_at c s in
    if x == c then some ([], s) else (elim rest [ none ↦ none | some (a, b) ↦ some (x ∷ a, b) ])

abbrev pub to_first : ℕ → List Text → List Text
to_first x [] = (x ∷ []) ∷ []
to_first x (f ∷ fs) = (x ∷ f) ∷ fs

abbrev pub split_on : ℕ → Text → List Text
split_on c [] = [] ∷ []
split_on c (x ∷ s) = let rest = split_on c s in if x == c then [] ∷ rest else to_first x rest

abbrev pub assign :
    Option Text → Option Text → Option (List (Text × Text)) → Option (List (Text × Text))
assign (some k) (some v) (some rest) = some ((k, v) ∷ rest)
assign _ _ _ = none

-- The assignments to `_get_params`, in order; a piece without '=', such as an empty last one, is
-- skipped. A failed assert of `UrlDecode` is `none`.
pub get_params : List Text → Option (List (Text × Text))
get_params [] = some []
get_params (p ∷ ps) =
    let rest = get_params ps in
    elim (split_at b'=' p) [ none ↦ rest | some (k, v) ↦ assign (url_decode k) (url_decode v) rest ]

abbrev pub with_url : Text → Option (List (Text × Text)) → Option (Text × List (Text × Text))
with_url url none = none
with_url url (some params) = some (url, params)

-- `_get_url` and the assignments to `_get_params`.
pub pre_parse_get_param : Text → Option (Text × List (Text × Text))
unfolding get_params
pre_parse_get_param target = elim (split_at b'?' target) [
  | none ↦ some (target, [])
  | some (url, query) ↦ with_url url (get_params (split_on b'&' query))
]
