-- ===== src/Dispatch.antt =====
-- The queue of Server/SessionServer/LogicSystem.cpp: `PustMsg`, `Run`, `RegisterCallBack` and the
-- destructor, as steps of the threads between uses of the lock. What a handler does is modelled by the
-- handlers' modules; here a call of one is its message.
pub mod Kept
pub mod Served
use my_music.Base.{
  ℕ, zero, suc, ◌+◌, ◌-◌, ◌==◌, ◌≡◌, Bool, true, false, ◌&&◌, ◌||◌, not, List, [], ◌∷◌, ◌++◌, null,
  select, length, exists_in, if◌then◌else◌,
}
use my_music.Wire.{Message}

-- The ids that `RegisterCallBack` binds to a handler.
abbrev pub registered : List ℕ
registered = 1004 ∷ 1012 ∷ 1006 ∷ 1008 ∷ 1015 ∷ 1017 ∷ 1019 ∷ []

abbrev pub has_handler : Message → Bool
has_handler m = exists_in (λ id. m.id == id) registered

-- The thread of `Run`: before it takes the lock; with the lock, on its way into `wait`; waiting; over.
pub data Worker : Type 0 where
  ready : Worker
  found_empty : Worker
  asleep : Worker
  ended : Worker

-- `handled` are the calls of handlers, in order, and `pushed` the messages that came; `notices` are
-- notifications that are still to be given.
pub record LogicQueue : Type 0 where
  pub msg_que : List Message
  pub b_stop : Bool
  pub worker : Worker
  pub notices : ℕ
  pub handled : List Message
  pub pushed : List Message

-- `PustMsg`: the first message in the queue is notified, after the lock.
abbrev pub push_msg : Message → LogicQueue → LogicQueue
push_msg m q =
    let que = q.msg_que ++ m ∷ [] in
    record q {
      msg_que = que;
      notices = if length que == 1 then suc q.notices else q.notices;
      pushed = q.pushed ++ m ∷ [];
    }

abbrev pub woken : Worker → Worker
woken ready = ready
woken found_empty = found_empty
woken asleep = ready
woken ended = ended

abbrev pub notify_one : LogicQueue → LogicQueue
notify_one q = record q { notices = q.notices - 1; worker = woken q.worker }

-- What is left of a queue on a stop: each message that has a handler goes to it.
abbrev pub drain : List Message → LogicQueue → LogicQueue
drain [] q = record q { msg_que = []; worker = ended }
drain (m ∷ ms) q =
    let called = drain ms (record q { handled = q.handled ++ m ∷ [] }) in
    let skipped = drain ms q in if has_handler m then called else skipped

abbrev pub take_message : List Message → LogicQueue → LogicQueue
take_message [] q = record q { worker = found_empty }
take_message (m ∷ ms) q =
    if has_handler m
    then record q { handled = q.handled ++ m ∷ []; msg_que = ms }
    else record q { msg_que = ms }

-- A part of `Run` under one lock: a round, or the beginning of `wait`, which gives the lock back.
unfoldable pub run_step : Worker → LogicQueue → LogicQueue
run_step ready q = if q.b_stop then drain q.msg_que q else take_message q.msg_que q
run_step found_empty q = record q { worker = asleep }
run_step asleep q = q
run_step ended q = q

-- The destructor sets the flag without the lock, and notifies.
abbrev pub destroy : LogicQueue → LogicQueue
destroy q = record q { b_stop = true; notices = suc q.notices }
