-- ===== src/Redis/Counts/Decimal.antt =====
-- Decimal numbers: what `to_string` writes, `stoi` reads.
use my_music.Base.{
  ℕ, suc, zero, ◌+◌, ◌-◌, ◌*◌, ◌/◌, ◌%◌, ◌≤◌, ◌<◌, ◌≡◌, refl, ◌∙◌, ℤ, pos, negsuc, Bool-cases, inl,
  inr, some, true, false, Text, [], ◌∷◌, ◌++◌, ltb, leb, ◌==◌, null, All, arith,
}
use my_music.Redis.Counts.{
  digits, to_string, read_digits, read_number, is_digit, stoi, stoi_signed, int_max, is_space,
}

abbrev AllDigits : Text → Type 0
AllDigits = All (λ c. is_digit c ≡ true)

append-AllDigits : (s t : Text) → AllDigits s → AllDigits t → AllDigits (s ++ t)
append-AllDigits [] t a b = b
append-AllDigits (c ∷ s) t a b = (a.0, append-AllDigits s t a.1 b)

digit : (n : ℕ) → n < 10 → is_digit (b'0' + n) ≡ true
digit n h = ground arith

digits-AllDigits : (f n : ℕ) → AllDigits (digits f n)
unfolding digits
digits-AllDigits zero n = (digit (n % 10) (omega arith), tt)
digits-AllDigits (suc f) n = elim (Bool-cases (ltb n 10)) [
  | inl y ↦ rw y (digit n (ground arith), tt)
  | inr y ↦ rw y (
      append-AllDigits (digits f (n / 10)) _ (digits-AllDigits f (n / 10))
        (digit (n % 10) (omega arith), tt))
]

read_digits-append :
    (a : ℕ) (s t : Text) → AllDigits s → read_digits a (s ++ t) ≡ read_digits (read_digits a s) t
unfolding read_digits
read_digits-append a [] t h = refl
read_digits-append a (c ∷ s) t h = rw h.0 (read_digits-append (a * 10 + (c - b'0')) s t h.1)

read_digits-digit : (a c : ℕ) → c < 10 → read_digits a ((b'0' + c) ∷ []) ≡ a * 10 + c
unfolding read_digits
read_digits-digit a c h = rw (digit c h) (omega arith)

read_digits-digits : (f n : ℕ) → n ≤ f → read_digits 0 (digits f n) ≡ n
unfolding digits
read_digits-digits zero n h = read_digits-digit 0 (n % 10) (omega arith) ∙ omega arith
read_digits-digits (suc f) n h = elim (Bool-cases (ltb n 10)) [
  | inl y ↦ rw y (read_digits-digit 0 n (ground arith) ∙ omega arith)
  | inr y ↦ rw y (
      let small : 10 ≤ n = ground arith in
      read_digits-append 0 (digits f (n / 10)) _ (digits-AllDigits f (n / 10))
      ∙ rw (read_digits-digits f (n / 10) (omega arith))
          (read_digits-digit (n / 10) (n % 10) (omega arith) ∙ omega arith))
]

null-append : (s t : Text) → null t ≡ false → null (s ++ t) ≡ false
null-append [] t h = h
null-append (c ∷ s) t h = refl

null-digits : (f n : ℕ) → null (digits f n) ≡ false
unfolding digits
null-digits zero n = refl
null-digits (suc f) n = elim (Bool-cases (ltb n 10)) [
  | inl y ↦ rw y refl
  | inr y ↦ rw y (null-append (digits f (n / 10)) _ refl)
]

read_number-digits :
    (s : Text) → null s ≡ false → AllDigits s → read_number s ≡ some (read_digits 0 s)
read_number-digits [] e h = cc
read_number-digits (c ∷ s) e h = rw h.0 refl

no_sign :
    (c : ℕ)
    → is_digit c ≡ true
    → (is_space c ≡ false) × ((c == b'-') ≡ false) × ((c == b'+') ≡ false)
no_sign c h = (ground arith, ground arith, ground arith)

stoi-positive :
    (s : Text) (n : ℕ)
    → null s ≡ false
    → AllDigits s
    → read_digits 0 s ≡ n
    → n ≤ int_max
    → stoi s ≡ some (pos n)
unfolding stoi stoi_signed
stoi-positive [] n e h r b = cc
stoi-positive (c ∷ s) n e h r b =
    let (x, y, z) = no_sign c h.0 in
    let m : leb n int_max ≡ true = ground arith in
    rw (x, y, z, read_number-digits (c ∷ s) refl h, r, m) refl

stoi-negative :
    (s : Text) (n : ℕ)
    → null s ≡ false
    → AllDigits s
    → read_digits 0 s ≡ suc n
    → n ≤ int_max
    → stoi (b'-' ∷ s) ≡ some (negsuc n)
unfolding stoi stoi_signed
stoi-negative s n e h r b =
    let m : leb n int_max ≡ true = ground arith in rw (read_number-digits s e h, r, m) refl

-- The magnitude of an int.
abbrev pub IsInt : ℤ → Type 0
IsInt (pos n) = n ≤ int_max
IsInt (negsuc n) = n ≤ int_max

-- Every int is read back from its decimal text.
pub stoi-to_string : (i : ℤ) → IsInt i → stoi (to_string i) ≡ some i
unfolding to_string
stoi-to_string (pos n) h =
    stoi-positive (digits n n) n (null-digits n n) (digits-AllDigits n n)
      (read_digits-digits n n (omega arith)) h
stoi-to_string (negsuc n) h =
    stoi-negative (digits (suc n) (suc n)) n (null-digits (suc n) (suc n))
      (digits-AllDigits (suc n) (suc n)) (read_digits-digits (suc n) (suc n) (omega arith)) h

pub null-to_string : (i : ℤ) → null (to_string i) ≡ false
unfolding to_string
null-to_string (pos n) = null-digits n n
null-to_string (negsuc n) = refl
