-- ===== src/Client/Incoming/Whole.antt =====
-- Each message of the server arrives whole, however it is cut.
use my_music.Base.{
  ℕ, zero, suc, ◌+◌, ◌*◌, ◌/◌, ◌%◌, ◌^◌, ◌<◌, ◌≤◌, ◌≡◌, refl, sym, ap, ◌∙◌, Bool, Bool-cases, inl,
  inr, true, false, some, Text, List, [], ◌∷◌, ◌++◌, append_assoc, append-nil, ltb, lt→ltb, length,
  length-append, drop, All, arith,
}
use my_music.Wire.{Message, send_node}
use my_music.Wire.Reading.{frame}
use my_music.Wire.Sending.{send_node-frame, take_all}
use my_music.Client.Incoming.{Receiver, ReadsShorts, take_body, read_loop, ready_read, receive_all}

abbrev pub concat : List Text → Text
concat [] = []
concat (t ∷ ts) = t ++ concat ts

drop_all : (s : Text) → drop (length s) s ≡ []
drop_all [] = refl
drop_all (b ∷ s) = drop_all s

-- No message is begun, or one is with some bytes of its body.
abbrev pub idle : ℕ → ℕ → Text → Receiver
idle id len s = record { buffer = s; b_recv_pending = false; message_id = id; message_len = len }

abbrev begun : Bool → Message → Text → Receiver
begun q m s = record {
  buffer = s;
  b_recv_pending = q;
  message_id = m.id;
  message_len = length m.body;
}

-- A message and the pieces in which its bytes arrive.
pub record Delivery : Type 0 where
  pub message : Message
  pub pieces : List Text

abbrev pub all_pieces : List Delivery → List Text
all_pieces [] = []
all_pieces (d ∷ ds) = d.pieces ++ all_pieces ds

abbrev pub all_messages : List Delivery → List Message
all_messages [] = []
all_messages (d ∷ ds) = d.message ∷ all_messages ds

abbrev pub Sent : Delivery → Type 0
Sent d =
    (d.message.id < 2 ^ 16)
    × ((length d.message.body < 2 ^ 15)
        × (send_node d.message.id d.message.body ≡ some (concat d.pieces)))

no_text : (s t : Text) → s ++ t ≡ [] → (s ≡ []) × (t ≡ [])
no_text [] t e = (refl, e)
no_text (b ∷ s) t e = cc

nothing_behind : (s t : Text) → length (s ++ t) ≤ length s → t ≡ []
nothing_behind s [] h = refl
nothing_behind s (b ∷ t) h = absurd (omega (arith, length-append s (b ∷ t)))

module _ (read_short : Text → ℕ → ℕ × ℕ) (reads : ReadsShorts read_short) where
  idle_read : (f id len p : ℕ) → read_loop read_short f (idle id len []) p ≡ ([], idle id len [])
  unfolding read_loop
  idle_read zero id len p = refl
  idle_read (suc f) id len p = refl

  -- A body that is there is taken; one that is not is waited for.
  take_body-full :
      (q : Bool) (m : Message) (f p : ℕ)
      → take_body read_short (begun q m m.body) (λ r'. read_loop read_short f r' p)
        ≡ (m ∷ [], idle m.id (length m.body) [])
  take_body-full q m f p =
      let full : ltb (length m.body) (length m.body) ≡ false = ground arith in
      simp (full, take_all m.body, drop_all m.body, idle_read f m.id (length m.body) p)

  take_body-part :
      (q : Bool) (m : Message) (s : Text) (f p : ℕ)
      → length s < length m.body
      → take_body read_short (begun q m s) (λ r'. read_loop read_short f r' p)
        ≡ ([], begun true m s)
  take_body-part q m s f p h = rw (lt→ltb (length s) (length m.body) h) refl

  nothing_more :
      (id len : ℕ) (ps : List Text)
      → concat ps ≡ []
      → receive_all read_short ps (idle id len []) ≡ ([], idle id len [])
  unfolding receive_all ready_read
  nothing_more id len [] e = refl
  nothing_more id len (t ∷ ps) e =
      let (a, b) = no_text t (concat ps) e in
      rw (a, idle_read 2 id len 0, nothing_more id len ps b) refl

  Taken : Message → List Text → Receiver → Type 0
  Taken m ps r = receive_all read_short ps r ≡ (m ∷ [], idle m.id (length m.body) [])

  abbrev followed : List Text → List Message × Receiver → List Message × Receiver
  followed ps x = (x.0 ++ (receive_all read_short ps x.1).0, (receive_all read_short ps x.1).1)

  take_rest :
      (q : Bool) (m : Message) (s : Text) (ps : List Text) (f p : ℕ)
      → s ++ concat ps ≡ m.body
      → ((length s < length m.body) → Taken m ps (begun true m s))
      → followed ps (take_body read_short (begun q m s) (λ r'. read_loop read_short f r' p))
        ≡ (m ∷ [], idle m.id (length m.body) [])
  unfolding Taken
  take_rest q m s ps f p e ih = elim (Bool-cases (ltb (length s) (length m.body))) [
    | inl y ↦
        let h : length s < length m.body = ground arith in
        rw (take_body-part q m s f p h, ih h) refl
    | inr y ↦
        let h : length m.body ≤ length s = ground arith in
        let b = nothing_behind s (concat ps) (rw e h) in
        let whole : s ≡ m.body = sym (append-nil s) ∙ rw b at e in
        rw (whole, take_body-full q m f p, nothing_more m.id (length m.body) ps b) refl
  ]

  feed_body :
      (m : Message) (ps : List Text) (s : Text)
      → s ++ concat ps ≡ m.body
      → length s < length m.body
      → Taken m ps (begun true m s)
  unfolding Taken receive_all ready_read read_loop
  feed_body m [] s e h = absurd (omega (arith, ap (λ (t : Text). length t) e, length-append s []))
  feed_body m (t ∷ ps) s e h =
      let e' : (s ++ t) ++ concat ps ≡ m.body = append_assoc s t (concat ps) ∙ e in
      take_rest true m (s ++ t) ps (suc (length (s ++ t))) 0 e' (feed_body m ps (s ++ t) e')

  -- The round that finds a header.
  head_round :
      (m : Message) (id len f : ℕ) (u : Text) (ps : List Text)
      → m.id < 2 ^ 16
      → length m.body < 2 ^ 16
      → u ++ concat ps ≡ frame m
      → 4 ≤ length u
      → followed ps (read_loop read_short (suc f) (idle id len u) 0)
        ≡ (m ∷ [], idle m.id (length m.body) [])
  unfolding read_loop
  head_round m id len f [] ps i l e h = absurd (omega arith)
  head_round m id len f (x ∷ []) ps i l e h = absurd (omega arith)
  head_round m id len f (x ∷ y ∷ []) ps i l e h = absurd (omega arith)
  head_round m id len f (x ∷ y ∷ z ∷ []) ps i l e h = absurd (omega arith)
  head_round m id len f (x ∷ y ∷ z ∷ w ∷ v) ps i l e h =
      let ex : x ≡ m.id / 256 % 256 = cc e in
      let ey : y ≡ m.id % 256 = cc e in
      let ez : z ≡ length m.body / 256 % 256 = cc e in
      let ew : w ≡ length m.body % 256 = cc e in
      let ev : v ++ concat ps ≡ m.body = cc e in
      let big : ltb (length (x ∷ y ∷ z ∷ w ∷ v)) 4 ≡ false = ground arith in
      let id' : x * 256 + y ≡ m.id = omega arith in
      let len' : z * 256 + w ≡ length m.body = omega arith in
      rw (big, reads [] (z ∷ w ∷ v) x y, reads (x ∷ y ∷ []) v z w, id', len')
        (take_rest false m v ps f 4 ev (feed_body m ps v ev))

  -- The round that finds less than a header.
  short_round :
      (f id len : ℕ) (u : Text)
      → ltb (length u) 4 ≡ true
      → read_loop read_short (suc f) (idle id len u) 0 ≡ ([], idle id len u)
  unfolding read_loop
  short_round f id len u h = rw h refl

  feed_head :
      (m : Message) (id len : ℕ) (ps : List Text) (s : Text)
      → m.id < 2 ^ 16
      → length m.body < 2 ^ 16
      → s ++ concat ps ≡ frame m
      → length s < 4
      → Taken m ps (idle id len s)
  unfolding Taken receive_all ready_read
  feed_head m id len [] s i l e h =
      absurd (omega (arith, ap (λ (t : Text). length t) e, length-append s []))
  feed_head m id len (t ∷ ps) s i l e h =
      let e' : (s ++ t) ++ concat ps ≡ frame m = append_assoc s t (concat ps) ∙ e in
      elim (Bool-cases (ltb (length (s ++ t)) 4)) [
        | inl y ↦
            rw (short_round (suc (length (s ++ t))) id len (s ++ t) y)
              (feed_head m id len ps (s ++ t) i l e' (ground arith))
        | inr y ↦ head_round m id len (suc (length (s ++ t))) (s ++ t) ps i l e' (ground arith)
      ]

  receive_all-append :
      (ps qs : List Text) (r : Receiver)
      → receive_all read_short (ps ++ qs) r ≡ followed qs (receive_all read_short ps r)
  unfolding receive_all
  receive_all-append [] qs r = refl
  receive_all-append (t ∷ ps) qs r =
      rw
        (
          receive_all-append ps qs (ready_read read_short t r).1,
          append_assoc (ready_read read_short t r).0,
        )
        refl

  received_one : (d : Delivery) (id len : ℕ) → Sent d → Taken d.message d.pieces (idle id len [])
  received_one d id len h =
      let e = send_node-frame d.message.id d.message.body h.1.0 in
      let e' : concat d.pieces ≡ frame d.message = cc (e, h.1.1) in
      feed_head d.message id len d.pieces [] h.0 (omega (arith, h.1.0)) e' (omega arith)

  -- Messages that `SendNode` frames, one after the other, each cut into pieces in any way, no piece with
  -- bytes of two messages: the client hands each of them to `handleMsg`, whole and in order, and keeps
  -- nothing, if every id fits 16 bits, every body is below 2 ^ 15 bytes and no message was begun before.
  pub receive_all-deliveries :
      (ds : List Delivery) (id len : ℕ)
      → All Sent ds
      → ((receive_all read_short (all_pieces ds) (idle id len [])).0 ≡ all_messages ds)
        × ((receive_all read_short (all_pieces ds) (idle id len [])).1.buffer ≡ [])
  unfolding receive_all Taken
  receive_all-deliveries [] id len h = (refl, refl)
  receive_all-deliveries (d ∷ ds) id len h =
      let e = received_one d id len h.0 in
      let (a, b) = receive_all-deliveries ds d.message.id (length d.message.body) h.1 in
      rw (receive_all-append d.pieces (all_pieces ds) (idle id len []), e)
        (ap (λ x. d.message ∷ x) a, b)
