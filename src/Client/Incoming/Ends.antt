-- ===== src/Client/Incoming/Ends.antt =====
-- The reader's loop ends, whatever arrives.
use my_music.Base.{
  ℕ, zero, suc, ◌+◌, ◌<◌, ◌≤◌, ◌≡◌, refl, Bool-cases, inl, inr, true, false, Text, List, ◌++◌, ltb,
  length, length-drop, drop, arith, if◌then◌else◌,
}
use my_music.Wire.{Message}
use my_music.Client.Incoming.{Receiver, read_head, take_body, read_loop, ready_read}

-- The conditions of the loop's two returns.
abbrev pub Returned : Receiver → Type 0
Returned r =
    (if r.b_recv_pending then ltb (length r.buffer) r.message_len else ltb (length r.buffer) 4)
    ≡ true

module _ (read_short : Text → ℕ → ℕ × ℕ) where
  take_body-Returned :
      (r : Receiver) (rest : Receiver → List Message × Receiver)
      → Returned
          (rest (record r { b_recv_pending = false; buffer = drop r.message_len r.buffer })).1
      → Returned (take_body read_short r rest).1
  take_body-Returned r rest h = elim (Bool-cases (ltb (length r.buffer) r.message_len)) [
    | inl y ↦ simp y
    | inr y ↦ simp y h
  ]

  started :
      (f : ℕ) (r : Receiver) (p : ℕ)
      → r.b_recv_pending ≡ false
      → length r.buffer < f
      → Returned (read_loop read_short f r p).1
  unfolding read_loop
  started zero r p e h = absurd (omega arith)
  started (suc f) r p e h = elim (Bool-cases (ltb (length r.buffer) 4)) [
    | inl y ↦ simp (e, y)
    | inr y ↦
        let (g, q) = read_head read_short r p in
        let big : 4 ≤ length r.buffer = ground arith in
        simp (e, y)
          (take_body-Returned g (λ r'. read_loop read_short f r' q)
            (started f (record g { b_recv_pending = false; buffer = drop g.message_len g.buffer }) q
              refl (omega (arith, length-drop g.message_len g.buffer, length-drop 4 r.buffer))))
  ]

  returned :
      (f : ℕ) (r : Receiver) (p : ℕ)
      → 1 + length r.buffer < f
      → Returned (read_loop read_short f r p).1
  unfolding read_loop
  returned zero r p h = absurd (omega arith)
  returned (suc f) r p h = elim (Bool-cases r.b_recv_pending) [
    | inl y ↦ simp y (
        take_body-Returned r (λ r'. read_loop read_short f r' p)
          (started f (record r { b_recv_pending = false; buffer = drop r.message_len r.buffer }) p
            refl (omega (arith, length-drop r.message_len r.buffer))))
    | inr y ↦ started (suc f) r p y (omega arith)
  ]

  -- Whatever bytes arrive, in whatever state, and wherever the stream stands, the loop of `readyRead` ends
  -- by one of its returns: with a message begun whose body is not all there, or none and less than a header.
  pub ready_read-Returned :
      (bytes : Text) (r : Receiver) → Returned (ready_read read_short bytes r).1
  unfolding ready_read
  ready_read-Returned bytes r =
      let r' : Receiver = record r { buffer = r.buffer ++ bytes } in
      returned (suc (suc (length r'.buffer))) r' 0 (omega arith)
