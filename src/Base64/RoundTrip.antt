-- ===== src/Base64/RoundTrip.antt =====
-- Every Base64 encoding of RFC 4648 is decoded to its bytes.
use my_music.Base.{
  ℕ, suc, ◌+◌, ◌-◌, ◌*◌, ◌/◌, ◌%◌, ◌<◌, ◌==◌, ◌≡◌, refl, Text, List, [], ◌∷◌, ◌++◌, map, append-nil,
  Bool, true, false, length, length-append, take, All, arith,
}
use my_music.Base64.{
  equals_sign, repeated, replace, pad_chars, resize, valid_chars, truncated, decode_base64,
}
use my_music.Base64.Encoding.{letter, symbol, encode, ReadsLetters, Regroups}

replace-symbol : (u : Bool) (n : ℕ) → n < 64 → replace (symbol u n) ≡ letter n
replace-symbol u n h = ground arith

symbol_valid : (n : ℕ) → n < 64 → (letter n == equals_sign) ≡ false
symbol_valid n h = ground arith

abbrev pub IsByte : ℕ → Type 0
IsByte b = b < 256

padded :
    (u p : Bool) (s : Text)
    → encode u p s ++ repeated (pad_chars (encode u p s)) equals_sign ≡ encode u true s
unfolding encode
padded u p [] = refl
padded u true (a ∷ []) = refl
padded u false (a ∷ []) = refl
padded u true (a ∷ b ∷ []) = refl
padded u false (a ∷ b ∷ []) = refl
padded u p (a ∷ b ∷ c ∷ rest) =
    let n = length (encode u p rest) in
    let same : (4 - suc (suc (suc (suc n))) % 4) % 4 ≡ (4 - n % 4) % 4 = omega arith in
    rw (same, padded u p rest) refl

replaced :
    (u : Bool) (s : Text) → All IsByte s → map replace (encode u true s) ≡ encode false true s
unfolding encode
replaced u [] h = refl
replaced u (a ∷ []) h =
    rw
      (
        replace-symbol u (a / 4) (omega (arith, h)),
        replace-symbol u (a % 4 * 16) (omega (arith, h)),
      )
      refl
replaced u (a ∷ b ∷ []) h =
    rw
      (
        replace-symbol u (a / 4) (omega (arith, h)),
        replace-symbol u (a % 4 * 16 + b / 16) (omega (arith, h)),
        replace-symbol u (b % 16 * 4) (omega (arith, h)),
      )
      refl
replaced u (a ∷ b ∷ c ∷ rest) (i, (j, (k, h))) =
    rw
      (
        replace-symbol u (a / 4) (omega arith),
        replace-symbol u (a % 4 * 16 + b / 16) (omega arith),
        replace-symbol u (b % 16 * 4 + c / 64) (omega arith),
        replace-symbol u (c % 64) (omega arith),
        replaced u rest h,
      )
      refl

valid_cons : (n : ℕ) (t : Text) → n < 64 → valid_chars (letter n ∷ t) ≡ suc (valid_chars t)
valid_cons n t h = rw (symbol_valid n h) refl

valid_encode : (s : Text) → All IsByte s → valid_chars (encode false true s) * 3 / 4 ≡ length s
unfolding encode
valid_encode [] h = refl
valid_encode (a ∷ []) h =
    rw
      (
        valid_cons (a / 4) (letter (a % 4 * 16) ∷ equals_sign ∷ equals_sign ∷ [])
            (omega (arith, h)),
        valid_cons (a % 4 * 16) (equals_sign ∷ equals_sign ∷ []) (omega (arith, h)),
      )
      refl
valid_encode (a ∷ b ∷ []) h =
    let z = b % 16 * 4 in
    let y = a % 4 * 16 + b / 16 in
    rw
      (
        valid_cons (a / 4) (letter y ∷ letter z ∷ equals_sign ∷ []) (omega (arith, h)),
        valid_cons y (letter z ∷ equals_sign ∷ []) (omega (arith, h)),
        valid_cons z (equals_sign ∷ []) (omega (arith, h)),
      )
      refl
valid_encode (a ∷ b ∷ c ∷ rest) (i, (j, (k, h))) =
    let t = encode false true rest in
    let x = c % 64 in
    let z = b % 16 * 4 + c / 64 in
    let y = a % 4 * 16 + b / 16 in
    omega (
      arith,
      valid_cons (a / 4) (letter y ∷ letter z ∷ letter x ∷ t) (omega arith),
      valid_cons y (letter z ∷ letter x ∷ t) (omega arith),
      valid_cons z (letter x ∷ t) (omega arith),
      valid_cons x t (omega arith),
      valid_encode rest h,
    )

take-append : (s t : Text) → take (length s) (s ++ t) ≡ s
take-append [] t = refl
take-append (b ∷ s) t = rw (take-append s t)

resize-append : (s t : Text) → resize (length s) (s ++ t) ≡ s
resize-append s t =
    let none_left : length s - length (s ++ t) ≡ 0 = omega (arith, length-append s t) in
    rw (none_left, take-append s t) (append-nil s)

-- The bytes that the '=' characters give.
abbrev left_over : Text → Text
left_over [] = []
left_over (a ∷ []) = 0 ∷ 0 ∷ []
left_over (a ∷ b ∷ []) = 0 ∷ []
left_over (a ∷ b ∷ c ∷ rest) = left_over rest

module _ (from_base64 : ℕ → ℕ) (regroup : List ℕ → Text) (reads : ReadsLetters from_base64)
    (groups : Regroups regroup) where
  regrouped :
      (s : Text) → All IsByte s → regroup (map from_base64 (encode false true s)) ≡ s ++ left_over s
  unfolding encode
  regrouped [] h = groups.0
  regrouped (a ∷ []) h =
      let x = a % 4 * 16 in
      let one : a / 4 * 4 + x / 16 ≡ a = omega (arith, h) in
      let two : x % 16 * 16 + 0 / 4 ≡ 0 = omega arith in
      rw
        (
          reads.0 (a / 4) (omega (arith, h)),
          reads.0 x (omega (arith, h)),
          reads.1,
          groups.1 (a / 4) x 0 0 [] (omega (arith, h)) (omega (arith, h)) (omega arith)
              (omega arith),
          groups.0,
          one,
          two,
        )
        refl
  regrouped (a ∷ b ∷ []) h =
      let x = a % 4 * 16 + b / 16 in
      let y = b % 16 * 4 in
      let one : a / 4 * 4 + x / 16 ≡ a = omega (arith, h) in
      let two : x % 16 * 16 + y / 4 ≡ b = omega (arith, h) in
      let three : y % 4 * 64 + 0 ≡ 0 = omega arith in
      rw
        (
          reads.0 (a / 4) (omega (arith, h)),
          reads.0 x (omega (arith, h)),
          reads.0 y (omega (arith, h)),
          reads.1,
          groups.1 (a / 4) x y 0 [] (omega (arith, h)) (omega (arith, h)) (omega arith)
              (omega arith),
          groups.0,
          one,
          two,
          three,
        )
        refl
  regrouped (a ∷ b ∷ c ∷ rest) (i, (j, (k, h))) =
      let x = a % 4 * 16 + b / 16 in
      let y = b % 16 * 4 + c / 64 in
      let z = c % 64 in
      let one : a / 4 * 4 + x / 16 ≡ a = omega arith in
      let two : x % 16 * 16 + y / 4 ≡ b = omega arith in
      let three : y % 4 * 64 + z ≡ c = omega arith in
      rw
        (
          reads.0 (a / 4) (omega arith),
          reads.0 x (omega arith),
          reads.0 y (omega arith),
          reads.0 z (omega arith),
          groups.1 (a / 4) x y z (map from_base64 (encode false true rest)) (omega arith)
              (omega arith) (omega arith) (omega arith),
          regrouped rest h,
          one,
          two,
          three,
        )
        refl

  decode_base64_lem :
      (t : Text)
      → decode_base64 from_base64 regroup t
        ≡ truncated from_base64 regroup (map replace (t ++ repeated (pad_chars t) equals_sign))
  unfolding decode_base64
  decode_base64_lem [] = rw (groups.0) refl
  decode_base64_lem (c ∷ cs) = refl

  -- A text of bytes that is encoded in Base64, with the alphabet of RFC 4648 or the one for URLs, padded
  -- or not, is decoded to itself.
  pub decode_base64-encode :
      (u p : Bool) (s : Text) → All IsByte s → decode_base64 from_base64 regroup (encode u p s) ≡ s
  decode_base64-encode u p s h =
      rw
        (
          decode_base64_lem (encode u p s),
          padded u p s,
          replaced u s h,
          valid_encode s h,
          regrouped s h,
        )
        (resize-append s (left_over s))
