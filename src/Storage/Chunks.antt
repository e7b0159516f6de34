-- ===== src/Storage/Chunks.antt =====
-- The chunks that the client sends are the file, none of them empty or too long.
use my_music.Base.{
  ℕ, zero, suc, ◌≤◌, ◌<◌, ◌≡◌, refl, Text, List, [], ◌∷◌, ◌++◌, length, take, drop, length-drop,
  take-append-drop, All, arith,
}
use my_music.Storage.{Message, chunk_size, granted, later, read_chunks, data_of}

abbrev pub joined : List Message → Text
joined [] = []
joined (m ∷ ms) = data_of m ++ joined ms

granted_bounds :
    (sizes : List ℕ) (there : ℕ)
    → 0 < there
    → (0 < granted sizes chunk_size there)
      × (granted sizes chunk_size there ≤ there)
      × (granted sizes chunk_size there ≤ chunk_size)
granted_bounds [] there h = omega arith
granted_bounds (s ∷ sizes) there h = omega arith

-- The loop ends with the whole file read.
pub joined-read_chunks :
    (f : ℕ) (sizes : List ℕ) (s : Text) → length s ≤ f → joined (read_chunks f sizes s) ≡ s
unfolding read_chunks
joined-read_chunks zero sizes [] h = refl
joined-read_chunks zero sizes (b ∷ s) h = absurd (omega arith)
joined-read_chunks (suc f) sizes [] h = refl
joined-read_chunks (suc f) sizes (b ∷ s) h =
    let k = granted sizes chunk_size (length (b ∷ s)) in
    let g = granted_bounds sizes (length (b ∷ s)) (omega arith) in
    rw
      (joined-read_chunks f (later sizes) (drop k (b ∷ s))
        (omega (arith, g, length-drop k (b ∷ s))))
      (take-append-drop k (b ∷ s))

length-take_le : {A : Type 0} (k : ℕ) (s : List A) → length (take k s) ≤ k
length-take_le zero s = omega arith
length-take_le (suc k) [] = omega arith
length-take_le (suc k) (b ∷ s) = omega (arith, length-take_le k s)

abbrev pub Fits : Message → Type 0
Fits m = length (data_of m) ≤ chunk_size

pub read_chunks-Fits : (f : ℕ) (sizes : List ℕ) (s : Text) → All Fits (read_chunks f sizes s)
unfolding read_chunks
read_chunks-Fits zero sizes s = tt
read_chunks-Fits (suc f) sizes [] = tt
read_chunks-Fits (suc f) sizes (b ∷ s) =
    let k = granted sizes chunk_size (length (b ∷ s)) in
    let g = granted_bounds sizes (length (b ∷ s)) (omega arith) in
    (omega (arith, length-take_le k (b ∷ s), g), read_chunks-Fits f (later sizes) (drop k (b ∷ s)))
