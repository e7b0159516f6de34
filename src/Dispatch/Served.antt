-- ===== src/Dispatch/Served.antt =====
-- Every message that comes is served, in its order, while the server runs.
use my_music.Base.{
  ℕ, ◌-◌, ◌≤◌, ◌≡◌, refl, sym, ap, subst, ◌∙◌, Bool, Bool-cases, inl, inr, false, List, [], ◌∷◌,
  ◌++◌, append_assoc, append-nil, select, arith,
}
use my_music.Wire.{Message}
use my_music.Dispatch.{
  has_handler, Worker, ready, found_empty, asleep, ended, LogicQueue, notify_one, run_step,
}
use my_music.Dispatch.Kept.{Steps, idle_queue, Stands, IsServed-Steps}

-- The worker's part: its rounds, and notifications that are given.
pub data Work : LogicQueue → LogicQueue → Type 0 where
  rest : {q : LogicQueue} → Work q q
  run : {q t : LogicQueue} → Work (run_step q.worker q) t → Work q t
  noticed : {q t : LogicQueue} → 1 ≤ q.notices → Work (notify_one q) t → Work q t

-- The worker and the notifications can bring every message that came to its handler.
abbrev pub Serves : LogicQueue → Type 0
Serves q =
    (t : LogicQueue) × (Work q t × ((t.msg_que ≡ []) × (t.handled ≡ select has_handler q.pushed)))

abbrev standing : Worker → Bool → List Message → ℕ → List Message → List Message → LogicQueue
standing w stop ms n called came = record {
  msg_que = ms;
  b_stop = stop;
  worker = w;
  notices = n;
  handled = called;
  pushed = came;
}

one_round : (q r : LogicQueue) → run_step q.worker q ≡ r → r.pushed ≡ q.pushed → Serves r → Serves q
one_round q r e same (t, (w, (none_left, all))) =
    (t, (run (subst (λ x. Work x t) (sym e) w), (none_left, all ∙ ap (select has_handler) same)))

rounds_left :
    (stop : Bool) (ms : List Message) (n : ℕ) (called came : List Message)
    → stop ≡ false
    → called ++ select has_handler ms ≡ select has_handler came
    → Serves (standing ready stop ms n called came)
unfolding run_step
rounds_left stop [] n called came s e =
    (standing ready stop [] n called came, (rest, (refl, sym (append-nil called) ∙ e)))
rounds_left stop (m ∷ ms) n called came s e =
    let q = standing ready stop (m ∷ ms) n called came in
    elim (Bool-cases (has_handler m)) [
      | inl y ↦
          let f = append_assoc called (m ∷ []) (select has_handler ms) ∙ rw y at e in
          one_round q (standing ready stop ms n (called ++ m ∷ []) came) (rw (s, y) refl) refl
            (rounds_left stop ms n (called ++ m ∷ []) came s f)
      | inr y ↦
          one_round q (standing ready stop ms n called came) (rw (s, y) refl) refl
            (rounds_left stop ms n called came s (rw y at e))
    ]

left_to_do :
    (w : Worker) (stop : Bool) (ms : List Message) (n : ℕ) (called came : List Message)
    → stop ≡ false
    → called ++ select has_handler ms ≡ select has_handler came
    → Stands w ms n stop
    → Serves (standing w stop ms n called came)
left_to_do ready stop ms n called came s e h = rounds_left stop ms n called came s e
left_to_do found_empty stop ms n called came s e h =
    (standing found_empty stop ms n called came, (rest, (h, sym (append-nil called) ∙ rw h at e)))
left_to_do asleep stop [] n called came s e h =
    (standing asleep stop [] n called came, (rest, (refl, sym (append-nil called) ∙ e)))
left_to_do asleep stop (m ∷ ms) n called came s e h =
    let (t, (w, done)) = rounds_left stop (m ∷ ms) (n - 1) called came s e in
    (t, (noticed (omega (arith, h)) w, done))
left_to_do ended stop ms n called came s e h = absurd (cc (s, h))

-- Whatever the threads do before, in any order, wake-ups without a notification included: as long as the
-- server is not being destroyed, the thread's rounds and the notifications that are still to come bring
-- every message that was pushed and whose id has a handler to its handler, once and in the order of the
-- pushes, and no other message.
pub Steps-Serves : {q : LogicQueue} → Steps idle_queue q → q.b_stop ≡ false → Serves q
Steps-Serves {q} all s =
    let h = IsServed-Steps all in
    left_to_do q.worker q.b_stop q.msg_que q.notices q.handled q.pushed s h.fifo h.stands
