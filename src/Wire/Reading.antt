-- ===== src/Wire/Reading.antt =====
-- Reading back what was sent, however the network cuts the stream.
use my_music.Base.{
  ℕ, zero, suc, ◌-◌, ◌/◌, ◌%◌, ◌^◌, ◌≤◌, ◌<◌, ◌≡◌, refl, ap, ◌∙◌, Text, false, some, List, [], ◌∷◌,
  ◌++◌, arith, length, take, drop, length-drop, take-append-drop, All, ltb,
}
use my_music.Wire.{
  Message, network_short, host_short, granted, later, Stream, async_read_len, async_read_full,
  max_length, id_too_large, read_message, receive, behind, short_values,
}

granted_bounds :
    (sizes : List ℕ) (wanted there : ℕ)
    → 0 < wanted
    → 0 < there
    → (0 < granted sizes wanted there)
      × (granted sizes wanted there ≤ wanted)
      × (granted sizes wanted there ≤ there)
granted_bounds [] wanted there h g = omega arith
granted_bounds (s ∷ sizes) wanted there h g = omega arith

take-append_exact :
    {A : Type 0} (k : ℕ) (body rest : List A)
    → k ≤ length body
    → take k (body ++ rest) ≡ take k body
take-append_exact zero body rest h = refl
take-append_exact (suc k) [] rest h = absurd (omega arith)
take-append_exact (suc k) (b ∷ body) rest h = rw (take-append_exact k body rest (omega arith))

drop-append_exact :
    {A : Type 0} (k : ℕ) (body rest : List A)
    → k ≤ length body
    → drop k (body ++ rest) ≡ drop k body ++ rest
drop-append_exact zero body rest h = refl
drop-append_exact (suc k) [] rest h = absurd (omega arith)
drop-append_exact (suc k) (b ∷ body) rest h = drop-append_exact k body rest (omega arith)

-- One read and the reads behind it.
joined :
    (k f m : ℕ) (sizes : List ℕ) (body rest : Text) (left : List ℕ)
    → k ≤ length body
    → async_read_len f m (sizes, drop k body ++ rest) ≡ some (drop k body, (left, rest))
    → behind (take k (body ++ rest)) (async_read_len f m (sizes, drop k (body ++ rest)))
      ≡ some (body, (left, rest))
joined k f m sizes body rest left h e =
    rw (take-append_exact k body rest h, drop-append_exact k body rest h, e)
      (ap (λ (t : Text). some (t, (left, rest))) (take-append-drop k body))

-- The reads take exactly the bytes wanted.
async_read_len_lem :
    (f n : ℕ) (sizes : List ℕ) (body rest : Text)
    → length body ≡ n
    → n ≤ f
    → (left : List ℕ) × (async_read_len f n (sizes, body ++ rest) ≡ some (body, (left, rest)))
unfolding async_read_len
async_read_len_lem f zero sizes [] rest e h = (sizes, refl)
async_read_len_lem f zero sizes (b ∷ body) rest e h = absurd (omega arith)
async_read_len_lem zero (suc n) sizes body rest e h = absurd (omega arith)
async_read_len_lem (suc f) (suc n) sizes [] rest e h = absurd (omega arith)
async_read_len_lem (suc f) (suc n) sizes (b ∷ body) rest e h =
    let k = granted sizes (suc n) (length ((b ∷ body) ++ rest)) in
    let g =
      granted_bounds sizes (suc n) (length ((b ∷ body) ++ rest)) (omega arith) (omega arith) in
    let short : k ≤ length (b ∷ body) = omega arith in
    let ih =
      async_read_len_lem f (suc n - k) (later sizes) (drop k (b ∷ body)) rest
        (omega (arith, length-drop k (b ∷ body))) (omega arith) in
    (ih.0, joined k f (suc n - k) (later sizes) (b ∷ body) rest ih.0 short ih.1)

-- Whatever pieces the network delivers, a read of as many bytes as `body` has returns `body` and
-- leaves what comes behind it.
pub async_read_full_lem :
    (sizes : List ℕ) (body rest : Text)
    → (left : List ℕ) × (async_read_full (length body) (sizes, body ++ rest)
        ≡ some (body, (left, rest)))
unfolding async_read_full
async_read_full_lem sizes body rest =
    async_read_len_lem (length body) (length body) sizes body rest refl (omega arith)

abbrev pub frame : Message → Text
frame m = network_short m.id ++ network_short (length m.body) ++ m.body

-- What the frame format can carry from the client: an id that is a positive short, and a length below
-- 2 ^ 16.
abbrev pub Fits : Message → Type 0
Fits m = (m.id < 2 ^ 15) × (length m.body < short_values)

host_short-network : (n : ℕ) → n < short_values → host_short (n / 256 % 256) (n % 256) ≡ n
host_short-network n h = omega arith

read_message-frame :
    (m : Message) (sizes : List ℕ) (rest : Text)
    → Fits m
    → (left : List ℕ) × (read_message (sizes, frame m ++ rest) ≡ some (m, (left, rest)))
unfolding read_message
read_message-frame m sizes rest h =
    let head =
      async_read_full_lem sizes (network_short m.id ++ network_short (length m.body))
        (m.body ++ rest) in
    let body = async_read_full_lem head.0 m.body rest in
    let small : id_too_large m.id ≡ false = ground arith in
    let short : ltb max_length (length m.body) ≡ false = ground arith in
    (
      body.0,
      simp (
        head.1,
        host_short-network m.id (omega arith),
        host_short-network (length m.body) h.1,
        small,
        short,
        body.1,
      ),
    )

abbrev pub frames : List Message → Text
frames [] = []
frames (m ∷ ms) = frame m ++ frames ms

receive_nil : (f : ℕ) (sizes : List ℕ) → receive f (sizes, []) ≡ []
unfolding receive read_message async_read_full
receive_nil zero sizes = refl
receive_nil (suc f) sizes = refl

receive_step :
    (f : ℕ) (s s' : Stream) (m : Message)
    → read_message s ≡ some (m, s')
    → receive (suc f) s ≡ m ∷ receive f s'
unfolding receive
receive_step f s s' m h = rw (h, receive)

-- The server takes from a client's stream exactly the messages that were framed into it, in order,
-- however the network cuts the stream into reads; a fuel of one per message is enough.
pub receive-frames :
    (ms : List Message) (f : ℕ) (sizes : List ℕ)
    → All Fits ms
    → length ms ≤ f
    → receive f (sizes, frames ms) ≡ ms
receive-frames [] f sizes h l = receive_nil f sizes
receive-frames (m ∷ ms) zero sizes h l = absurd (omega arith)
receive-frames (m ∷ ms) (suc f) sizes h l =
    let r = read_message-frame m sizes (frames ms) h.0 in
    receive_step f (sizes, frame m ++ frames ms) (r.0, frames ms) m r.1
    ∙ ap (λ (x : List Message). m ∷ x) (receive-frames ms f r.0 h.1 (omega arith))
