-- ===== src/Wire/Sending.antt =====
-- The two senders: `SendNode` of Server/SessionServer/MessageNode.h, and `slot_send_data` of
-- MyMusic/MyMusic/tcpmanager.cpp.
use my_music.Base.{
  zero, suc, ap, Option, ◌↔◌, Bool-cases, inl, inr, ◌<◌, ℕ, ◌%◌, ◌^◌, ◌≤◌, ◌<◌, ◌≡◌, refl, Text,
  true, false, none, some, List, [], ◌∷◌, ◌++◌, arith, length, take, All,
}
use my_music.Wire.{Message, send_node, network_short, is_negative, short_values, receive}
use my_music.Wire.Reading.{frame, frames, Fits, receive-frames}

pub take_all : {A : Type 0} (s : List A) → take (length s) s ≡ s
take_all [] = refl
take_all (b ∷ s) = rw (take_all s)

-- A text of less than 2 ^ 15 bytes is sent as its frame.
pub send_node-frame :
    (id : ℕ) (msg : Text)
    → length msg < 2 ^ 15
    → send_node id msg ≡ some (frame (record { id = id; body = msg }))
unfolding send_node
send_node-frame id msg h =
    let whole : length msg % short_values ≡ length msg = omega arith in
    let small : is_negative (length msg) ≡ false = ground arith in simp (whole, small, take_all msg)

length-take_le : {A : Type 0} (k : ℕ) (s : List A) → length (take k s) ≤ k
length-take_le zero s = omega arith
length-take_le (suc k) [] = omega arith
length-take_le (suc k) (b ∷ s) = omega (arith, length-take_le k s)

abbrev size_of : Option Text → ℕ
size_of none = 0
size_of (some s) = length s

sent_whole :
    (id : ℕ) (msg : Text)
    → is_negative (length msg % short_values) ≡ false
    → send_node id msg ≡ some (frame (record { id = id; body = msg }))
    → length msg < 2 ^ 15
unfolding send_node
sent_whole id msg y h =
    let sizes = ap size_of (rw y at h) in
    ground (arith, length-take_le (length msg % short_values) msg)

sent_negative :
    (id : ℕ) (msg : Text) → is_negative (length msg % short_values) ≡ true → send_node id msg ≡ none
unfolding send_node
sent_negative id msg y = simp y

-- `SendNode` builds the frame of its message exactly when the text has less than 2 ^ 15 bytes. On a
-- longer text the copy leaves the buffer or the text is cut.
pub send_node_iff :
    (id : ℕ) (msg : Text)
    → (send_node id msg ≡ some (frame (record { id = id; body = msg }))) ↔ (length msg < 2 ^ 15)
send_node_iff id msg = (
  λ h. elim (Bool-cases (is_negative (length msg % short_values))) [
    | inl y ↦ absurd (cc (sent_negative id msg y, h))
    | inr y ↦ sent_whole id msg y h
  ],
  send_node-frame id msg,
)

-- `slot_send_data`: the length is cut to 16 bits, the data is not.
pub slot_send_data : Message → Text
slot_send_data m = network_short m.id ++ network_short (length m.body % short_values) ++ m.body

pub send_all : List Message → Text
send_all [] = []
send_all (m ∷ ms) = slot_send_data m ++ send_all ms

slot_send_data-frame : (m : Message) → Fits m → slot_send_data m ≡ frame m
unfolding slot_send_data
slot_send_data-frame m h =
    let whole : length m.body % short_values ≡ length m.body = omega arith in simp whole

send_all-frames : (ms : List Message) → All Fits ms → send_all ms ≡ frames ms
unfolding send_all
send_all-frames [] h = refl
send_all-frames (m ∷ ms) h = rw (slot_send_data-frame m h.0, send_all-frames ms h.1)

-- What the client sends, the server puts on its queue: the same messages in the same order, however the
-- stream is cut, if every id is a positive short and every body is below 2 ^ 16 bytes.
pub receive-send_all :
    (ms : List Message) (sizes : List ℕ)
    → All Fits ms
    → receive (length ms) (sizes, send_all ms) ≡ ms
receive-send_all ms sizes h =
    rw (send_all-frames ms h) (receive-frames ms (length ms) sizes h (omega arith))
