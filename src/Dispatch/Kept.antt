-- ===== src/Dispatch/Kept.antt =====
-- What holds of the queue whatever its threads do, in any order.
use my_music.Base.{
  ℕ, suc, ◌-◌, ◌≤◌, ◌==◌, ◌≡◌, refl, sym, ap, ◌∙◌, min, Bool, Bool-cases, inl, inr, true, false,
  false≢true, List, [], ◌∷◌, ◌++◌, append_assoc, select, length, length-append, arith,
  if◌then◌else◌,
}
use my_music.Wire.{Message}
use my_music.Dispatch.{
  has_handler, Worker, ready, found_empty, asleep, ended, LogicQueue, push_msg, woken, notify_one,
  drain, take_message, run_step, destroy,
}

abbrev pub has_lock : Worker → Bool
has_lock ready = false
has_lock found_empty = true
has_lock asleep = false
has_lock ended = false

-- A message is pushed when the lock is free. A wait may end without a notification.
pub data Step (q : LogicQueue) : LogicQueue → Type 0 where
  pushed_one : (m : Message) → has_lock q.worker ≡ false → Step q (push_msg m q)
  given : 1 ≤ q.notices → Step q (notify_one q)
  ran : Step q (run_step q.worker q)
  spurious : Step q (record q { worker = woken q.worker })
  destroyed : Step q (destroy q)

pub data Steps (q : LogicQueue) : LogicQueue → Type 0 where
  begin : Steps q q
  next : {r s : LogicQueue} → Steps q r → Step r s → Steps q s

abbrev pub idle_queue : LogicQueue
idle_queue = record {
  msg_que = [];
  b_stop = false;
  worker = ready;
  notices = 0;
  handled = [];
  pushed = [];
}

-- Where the thread may stand while the server runs.
abbrev pub Stands : Worker → List Message → ℕ → Bool → Type 0
Stands ready ms n stop = Unit
Stands found_empty ms n stop = ms ≡ []
Stands asleep ms n stop = min 1 (length ms) ≤ n
Stands ended ms n stop = stop ≡ true

pub record IsServed (q : LogicQueue) : Type 0 where
  pub fifo : q.handled ++ select has_handler q.msg_que ≡ select has_handler q.pushed
  pub stands : Stands q.worker q.msg_que q.notices q.b_stop

select-append :
    (ms ns : List Message)
    → select has_handler (ms ++ ns) ≡ select has_handler ms ++ select has_handler ns
select-append [] ns = refl
select-append (m ∷ ms) ns = elim (Bool-cases (has_handler m)) [
  | inl y ↦ rw (y, select-append ms ns) refl
  | inr y ↦ rw (y, select-append ms ns) refl
]

pushed_fifo :
    (m : Message) (q : LogicQueue)
    → IsServed q
    → q.handled ++ select has_handler (q.msg_que ++ m ∷ [])
      ≡ select has_handler (q.pushed ++ m ∷ [])
pushed_fifo m q h =
    rw (select-append q.msg_que (m ∷ []), select-append q.pushed (m ∷ []), ← h.fifo)
      (sym (append_assoc q.handled (select has_handler q.msg_que) (select has_handler (m ∷ []))))

still_pushed :
    (m : Message) (w : Worker) (ms : List Message) (n : ℕ) (stop : Bool)
    → has_lock w ≡ false
    → Stands w ms n stop
    → Stands w (ms ++ m ∷ []) (if length (ms ++ m ∷ []) == 1 then suc n else n) stop
still_pushed m ready ms n stop e h = tt
still_pushed m found_empty ms n stop e h = absurd (false≢true (sym e))
still_pushed m ended ms n stop e h = h
still_pushed m asleep ms n stop e h = ground (arith, length-append ms (m ∷ []))

still_woken :
    (w : Worker) (ms : List Message) (n k : ℕ) (stop : Bool)
    → Stands w ms n stop
    → Stands (woken w) ms k stop
still_woken ready ms n k stop h = h
still_woken found_empty ms n k stop h = h
still_woken asleep ms n k stop h = tt
still_woken ended ms n k stop h = h

still_destroyed :
    (w : Worker) (ms : List Message) (n : ℕ) (stop : Bool)
    → Stands w ms n stop
    → Stands w ms (suc n) true
still_destroyed ready ms n stop h = tt
still_destroyed found_empty ms n stop h = h
still_destroyed asleep ms n stop h = omega arith
still_destroyed ended ms n stop h = refl

drain-IsServed :
    (ms : List Message) (q : LogicQueue)
    → q.handled ++ select has_handler ms ≡ select has_handler q.pushed
    → q.b_stop ≡ true
    → IsServed (drain ms q)
drain-IsServed [] q e s = record { fifo = e; stands = s }
drain-IsServed (m ∷ ms) q e s = elim (Bool-cases (has_handler m)) [
  | inl y ↦ rw y (
      drain-IsServed ms (record q { handled = q.handled ++ m ∷ [] })
        (append_assoc q.handled (m ∷ []) (select has_handler ms) ∙ rw y at e) s)
  | inr y ↦ rw y (drain-IsServed ms q (rw y at e) s)
]

take_message-IsServed :
    (ms : List Message) (q : LogicQueue)
    → q.msg_que ≡ ms
    → q.worker ≡ ready
    → IsServed q
    → IsServed (take_message ms q)
take_message-IsServed [] q e w h = record { fifo = h.fifo; stands = e }
take_message-IsServed (m ∷ ms) q e w h =
    let f = rw e at h.fifo in
    elim (Bool-cases (has_handler m)) [
      | inl y ↦
          rw (y, w)
            (record {
              fifo = append_assoc q.handled (m ∷ []) (select has_handler ms) ∙ rw y at f;
              stands = tt;
            })
      | inr y ↦ rw (y, w) (record { fifo = rw y at f; stands = tt })
    ]

run_step-IsServed :
    (w : Worker) (q : LogicQueue) → q.worker ≡ w → IsServed q → IsServed (run_step w q)
unfolding run_step
run_step-IsServed ready q e h = elim (Bool-cases q.b_stop) [
  | inl y ↦ simp y (drain-IsServed q.msg_que q h.fifo y)
  | inr y ↦ simp y (take_message-IsServed q.msg_que q refl e h)
]
run_step-IsServed found_empty q e h =
    let none_there : q.msg_que ≡ [] = rw e at h.stands in
    record {
      fifo = h.fifo;
      stands = omega (arith, ap (λ (ms : List Message). length ms) none_there);
    }
run_step-IsServed asleep q e h = h
run_step-IsServed ended q e h = h

IsServed-Step : {q r : LogicQueue} → Step q r → IsServed q → IsServed r
IsServed-Step {q} (pushed_one m free) h = record {
  fifo = pushed_fifo m q h;
  stands = still_pushed m q.worker q.msg_que q.notices q.b_stop free h.stands;
}
IsServed-Step {q} (given n) h = record {
  fifo = h.fifo;
  stands = still_woken q.worker q.msg_que q.notices (q.notices - 1) q.b_stop h.stands;
}
IsServed-Step {q} ran h = run_step-IsServed q.worker q refl h
IsServed-Step {q} spurious h = record {
  fifo = h.fifo;
  stands = still_woken q.worker q.msg_que q.notices q.notices q.b_stop h.stands;
}
IsServed-Step {q} destroyed h = record {
  fifo = h.fifo;
  stands = still_destroyed q.worker q.msg_que q.notices q.b_stop h.stands;
}

pub IsServed-Steps : {q : LogicQueue} → Steps idle_queue q → IsServed q
IsServed-Steps begin = record { fifo = refl; stands = tt }
IsServed-Steps (next all one) = IsServed-Step one (IsServed-Steps all)
