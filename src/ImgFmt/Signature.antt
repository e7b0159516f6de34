-- ===== src/ImgFmt/Signature.antt =====
-- An independent reading of the formats: a list of signatures, each with the place of every byte
-- that it fixes; the order of the ladder does not matter for them.
use my_music.Base.{
  ◌↔◌, ℕ, ◌≤◌, ◌≡◌, ◌≢◌, refl, sym, ◌⊎◌, inl, inr, Text, Bool, true, Bool-cases, List, [], ◌∷◌,
  arith, length, if◌then◌else◌, ltb,
}
use my_music.ImgFmt.{
  ImageFormat, jpeg, png, gif, bmp, tiff, webp, unknown, byte_at, is_jpeg, is_png, is_gif, is_bmp,
  is_tiff, is_webp, ladder, detect_image_format,
}

-- The places and the bytes that a signature fixes.
abbrev pub Signed : Text → List (ℕ × ℕ) → Type 0
Signed s [] = Unit
Signed s ((i, b) ∷ r) = (byte_at s i ≡ b) × Signed s r

abbrev pub IsFormat : ImageFormat → Text → Type 0
IsFormat jpeg s = Signed s ((0, 0xFF) ∷ (1, 0xD8) ∷ (2, 0xFF) ∷ [])
IsFormat png s = Signed s (
    (0, 0x89)
    ∷ (1, 0x50)
    ∷ (2, 0x4E)
    ∷ (3, 0x47)
    ∷ (4, 0x0D)
    ∷ (5, 0x0A)
    ∷ (6, 0x1A)
    ∷ (7, 0x0A)
    ∷ [])
IsFormat gif s =
    Signed s ((0, 0x47) ∷ (1, 0x49) ∷ (2, 0x46) ∷ (3, 0x38) ∷ (4, 0x37) ∷ (5, 0x61) ∷ [])
    ⊎ Signed s ((0, 0x47) ∷ (1, 0x49) ∷ (2, 0x46) ∷ (3, 0x38) ∷ (4, 0x39) ∷ (5, 0x61) ∷ [])
IsFormat bmp s = Signed s ((0, 0x42) ∷ (1, 0x4D) ∷ [])
IsFormat tiff s =
    Signed s ((0, 0x49) ∷ (1, 0x49) ∷ (2, 0x2A) ∷ (3, 0) ∷ [])
    ⊎ Signed s ((0, 0x4D) ∷ (1, 0x4D) ∷ (2, 0) ∷ (3, 0x2A) ∷ [])
IsFormat webp s = Signed s (
    (0, 0x52)
    ∷ (1, 0x49)
    ∷ (2, 0x46)
    ∷ (3, 0x46)
    ∷ (8, 0x57)
    ∷ (9, 0x45)
    ∷ (10, 0x42)
    ∷ (11, 0x50)
    ∷ [])
IsFormat unknown s = Unit

abbrev passed : ImageFormat → Text → Bool
passed jpeg = is_jpeg
passed png = is_png
passed gif = is_gif
passed bmp = is_bmp
passed tiff = is_tiff
passed webp = is_webp
passed unknown = λ s. true

abbrev Chosen : ImageFormat → Bool → Bool → Bool → Bool → Bool → Bool → Type 0
Chosen jpeg a b c d e g = a ≡ true
Chosen png a b c d e g = b ≡ true
Chosen gif a b c d e g = c ≡ true
Chosen bmp a b c d e g = d ≡ true
Chosen tiff a b c d e g = e ≡ true
Chosen webp a b c d e g = g ≡ true
Chosen unknown a b c d e g = Unit

-- A rung of the ladder is taken only if its test passes.
rung :
    (f : ImageFormat) (a b c d e g : Bool)
    → (if a
        then jpeg
        else if b
        then png
        else if c
        then gif
        else if d
        then bmp
        else if e
        then tiff
        else if g
        then webp
        else unknown)
      ≡ f
    → Chosen f a b c d e g
rung jpeg a b c d e g h = ground arith
rung unknown a b c d e g h = tt
rung _ a b c d e g h = ground arith

ladder-passed : (s : Text) (f : ImageFormat) → ladder s ≡ f → passed f s ≡ true
ladder-passed s jpeg h =
    rung jpeg (is_jpeg s) (is_png s) (is_gif s) (is_bmp s) (is_tiff s) (is_webp s) h
ladder-passed s png h =
    rung png (is_jpeg s) (is_png s) (is_gif s) (is_bmp s) (is_tiff s) (is_webp s) h
ladder-passed s gif h =
    rung gif (is_jpeg s) (is_png s) (is_gif s) (is_bmp s) (is_tiff s) (is_webp s) h
ladder-passed s bmp h =
    rung bmp (is_jpeg s) (is_png s) (is_gif s) (is_bmp s) (is_tiff s) (is_webp s) h
ladder-passed s tiff h =
    rung tiff (is_jpeg s) (is_png s) (is_gif s) (is_bmp s) (is_tiff s) (is_webp s) h
ladder-passed s webp h =
    rung webp (is_jpeg s) (is_png s) (is_gif s) (is_bmp s) (is_tiff s) (is_webp s) h
ladder-passed s unknown h = refl

passed-IsFormat : (s : Text) (f : ImageFormat) → passed f s ≡ true → IsFormat f s
passed-IsFormat s jpeg h = ground arith
passed-IsFormat s unknown h = tt
passed-IsFormat s _ h = ground arith

detect_sound :
    (s : Text) (f : ImageFormat)
    → f ≢ unknown
    → detect_image_format s ≡ f
    → (12 ≤ length s) × IsFormat f s
unfolding detect_image_format
detect_sound s f n h = elim (Bool-cases (ltb (length s) 12)) [
  | inl y ↦ absurd (n (sym (rw y at h)))
  | inr y ↦ (ground arith, passed-IsFormat s f (ladder-passed s f (rw y at h)))
]

detect_complete :
    (s : Text) (f : ImageFormat)
    → f ≢ unknown
    → (12 ≤ length s) × IsFormat f s
    → detect_image_format s ≡ f
unfolding detect_image_format
detect_complete s jpeg n h = ground arith
detect_complete s unknown n h = absurd (n refl)
detect_complete s _ n h = ground arith

-- A format other than `unknown` is reported exactly for the data of at least 12 bytes that have the
-- format's bytes in their places; the order of the tests does not matter.
pub detect_image_format_iff :
    (s : Text) (f : ImageFormat)
    → f ≢ unknown
    → (detect_image_format s ≡ f) ↔ ((12 ≤ length s) × IsFormat f s)
detect_image_format_iff s f n = (detect_sound s f n, detect_complete s f n)
