-- ===== src/Tests/Slices.antt =====
-- A file of 100000 bytes, in four slices.
use my_music.Base.{ℕ, suc, zero, ◌≡◌, refl, pos, none, some, Text, [], ◌∷◌, codes, length, arith}
use my_music.Uploads.{Spools}
use my_music.Uploads.Whole.{IsTidy}
use my_music.Uploads.Delivered.{delivered, audio}
use my_music.Uploads.Slices.{upload_slices, last_progress, last_progress-upload_slices}
use my_music.Storage.{extension_of}
use my_music.Storage

zeros : ℕ → Text
zeros zero = []
zeros (suc n) = 0 ∷ zeros n

length-zeros : (n : ℕ) → length (zeros n) ≡ n
unfolding zeros
length-zeros zero = refl
length-zeros (suc n) = omega (arith, length-zeros n)

abbrev big : Text
big = zeros 100000

abbrev empty_spool : Spools
empty_spool = record { entries = λ k. none; files = λ k. none; disk = [] }

last_progress-upload_slices_example :
    delivered
      (codes "k")
      (7 ∷ [])
      (last_progress (pos 1) (λ i. i) 0 (upload_slices (codes "a.mp3") big) empty_spool)
    ≡ some (Storage.stored (extension_of (audio (codes "a.mp3") (length big))) (length big) big)
last_progress-upload_slices_example =
    last_progress-upload_slices (codes "k") (7 ∷ []) (pos 1) (λ i. i) (codes "a.mp3") big
      empty_spool (omega (arith, length-zeros 100000)) (omega (arith, length-zeros 100000)) refl
      (unfold IsTidy in λ e. refl)
