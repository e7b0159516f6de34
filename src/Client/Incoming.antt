-- ===== src/Client/Incoming.antt =====
-- The reader of MyMusic/MyMusic/tcpmanager.cpp: what `readyRead` makes of the bytes that arrive. The
-- stream of `QDataStream` on the buffer is a parameter: `read_short` gives the number at a position and
-- the position behind it.
pub mod Ends
pub mod Whole
use my_music.Base.{
  ℕ, zero, suc, ◌+◌, ◌*◌, ◌≡◌, Text, Bool, true, false, List, [], ◌∷◌, ◌++◌, ltb, if◌then◌else◌,
  length, take, drop,
}
use my_music.Wire.{Message}

pub record Receiver : Type 0 where
  pub buffer : Text
  pub b_recv_pending : Bool
  pub message_id : ℕ
  pub message_len : ℕ

-- What the stream does where two bytes are there: big-endian, two bytes further.
abbrev pub ReadsShorts : (Text → ℕ → ℕ × ℕ) → Type 0
ReadsShorts read_short =
    (before rest : Text) (a b : ℕ)
    → read_short (before ++ a ∷ b ∷ rest) (length before) ≡ (a * 256 + b, length before + 2)

module _ (read_short : Text → ℕ → ℕ × ℕ) where
  -- `stream >> _message_id >> _message_len` at a position, and the removal of four bytes, which leaves
  -- the stream's position.
  abbrev pub read_head : Receiver → ℕ → Receiver × ℕ
  read_head r p =
      let (id, p1) = read_short r.buffer p in
      let (len, p2) = read_short r.buffer p1 in
      (record r { buffer = drop 4 r.buffer; message_id = id; message_len = len }, p2)

  -- The body, if it is there; `rest` are the rounds behind it.
  abbrev pub take_body : Receiver → (Receiver → List Message × Receiver) → List Message × Receiver
  take_body r rest =
      let behind =
        rest (record r { b_recv_pending = false; buffer = drop r.message_len r.buffer }) in
      if ltb (length r.buffer) r.message_len
      then ([], record r { b_recv_pending = true })
      else (record { id = r.message_id; body = take r.message_len r.buffer } ∷ behind.0, behind.1)

  -- The loop, with the stream at position p: the messages that go to `handleMsg`, and the state at the
  -- return.
  pub read_loop : ℕ → Receiver → ℕ → List Message × Receiver
  read_loop zero r p = ([], r)
  read_loop (suc f) r p =
      let h = read_head r p in
      let pending = take_body r (λ r'. read_loop f r' p) in
      let started = take_body h.0 (λ r'. read_loop f r' h.1) in
      if r.b_recv_pending then pending else if ltb (length r.buffer) 4 then ([], r) else started

  -- `readyRead` with the bytes that `readAll` gives. A round that goes on took a header, or was the first.
  unfoldable pub ready_read : Text → Receiver → List Message × Receiver
  unfolding read_loop
  ready_read bytes r =
      let r' : Receiver = record r { buffer = r.buffer ++ bytes } in
      read_loop (suc (suc (length r'.buffer))) r' 0

  pub receive_all : List Text → Receiver → List Message × Receiver
  receive_all [] r = ([], r)
  receive_all (bytes ∷ more) r =
      let (ms, r') = ready_read bytes r in let (ms', r'') = receive_all more r' in (ms ++ ms', r'')
