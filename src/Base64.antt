-- ===== src/Base64.antt =====
-- `decode_base64` of Server/SessionServer/LogicSystem.cpp. Two of boost's iterators are parameters:
-- `from_base64` gives the six bits of a character (binary_from_base64), and `regroup` puts the bits of
-- such numbers together to bytes (transform_width).
pub mod Encoding
pub mod RoundTrip
use my_music.Base.{
  ℕ, zero, suc, ◌+◌, ◌-◌, ◌*◌, ◌/◌, ◌%◌, ◌==◌, Text, List, [], ◌∷◌, ◌++◌, map, not, select, length,
  take, if◌then◌else◌,
}

abbrev pub equals_sign : ℕ
equals_sign = 61

abbrev pub repeated : ℕ → ℕ → Text
repeated zero c = []
repeated (suc k) c = c ∷ repeated k c

-- `std::replace` twice: '-' becomes '+', '_' becomes '/'.
abbrev pub replace : ℕ → ℕ
replace c = if c == 45 then 43 else if c == 95 then 47 else c

abbrev pub pad_chars : Text → ℕ
pad_chars val = (4 - length val % 4) % 4

-- `resize`, which fills with zeros.
abbrev pub resize : ℕ → Text → Text
resize n out = take n out ++ repeated (n - length out) 0

abbrev pub valid_chars : Text → ℕ
valid_chars tmp = length (select (λ c. not (c == equals_sign)) tmp)

module _ (from_base64 : ℕ → ℕ) (regroup : List ℕ → Text) where
  abbrev pub truncated : Text → Text
  truncated tmp = resize (valid_chars tmp * 3 / 4) (regroup (map from_base64 tmp))

  pub decode_base64 : Text → Text
  decode_base64 [] = []
  decode_base64 (c ∷ cs) =
      let val = c ∷ cs in truncated (map replace (val ++ repeated (pad_chars val) equals_sign))
