-- ===== src/Wire/Outbox.antt =====
-- The send queue of a session: `Session::Send` and `HandleWrite` of Server/SessionServer/Session.cpp.
-- The socket reports each started write once, as done or as failed; a write that fails closes the
-- session and leaves its text at the front of the queue.
use my_music.Base.{
  ℕ, suc, ◌+◌, ◌-◌, ◌≤◌, ◌≡◌, refl, sym, ap, ◌∙◌, Bool, true, false, List, [], ◌∷◌, ◌++◌,
  append_assoc, append-nil, arith, length, length-append, null, ltb, ◌&&◌, if◌then◌else◌, Text,
}

pub record Outbox : Type 0 where
  pub queue : List Text
  -- The nodes handed to `async_write`, in order, and how many of those writes are not reported yet.
  pub started : List Text
  pub in_flight : ℕ
  -- A write has failed.
  pub is_closed : Bool

abbrev pub max_send_queue : ℕ
max_send_queue = 1024

abbrev pub start_write : List Text → Outbox → Outbox
start_write [] o = o
start_write (node ∷ rest) o = record o {
  started = o.started ++ node ∷ [];
  in_flight = suc o.in_flight;
}

pub send : Text → Outbox → Outbox
send node o =
    if ltb max_send_queue (length o.queue)
    then o
    else (let o' = record o { queue = o.queue ++ node ∷ [] } in
        if ltb 0 (length o.queue) then o' else start_write o'.queue o')

abbrev pub pop : List Text → List Text
pop [] = []
pop (x ∷ xs) = xs

-- The report of a write; the flag says whether it failed. What a failure does besides the queue,
-- DealExceptionSession, is in Logic/Login.
pub handle_write : Bool → Outbox → Outbox
handle_write true o = record o { in_flight = o.in_flight - 1; is_closed = true }
handle_write false o =
    let o' = record o { queue = pop o.queue; in_flight = o.in_flight - 1 } in
    start_write o'.queue o'

pub data Event : Type 0 where
  sends : Text → Event
  -- A write that is in flight is reported as done.
  written : Event
  -- A write that is in flight is reported as failed.
  failed : Event

pub step : Event → Outbox → Outbox
unfolding handle_write
step (sends node) o = send node o
step written o = if ltb 0 o.in_flight then handle_write false o else o
step failed o = if ltb 0 o.in_flight then handle_write true o else o

pub run : List Event → Outbox → Outbox
unfolding step
run [] o = o
run (e ∷ es) o = run es (step e o)

abbrev pub empty : Outbox
empty = record { queue = []; started = []; in_flight = 0; is_closed = false }

-- The texts that `Send` takes rather than drops.
abbrev pub accepted : List Event → Outbox → List Text
accepted [] o = []
accepted (sends node ∷ es) o =
    let rest = accepted es (step (sends node) o) in
    if ltb max_send_queue (length o.queue) then rest else node ∷ rest
accepted (written ∷ es) o = accepted es (step written o)
accepted (failed ∷ es) o = accepted es (step failed o)

-- One write is in flight exactly while the queue holds something and no write has failed; a failed text
-- is still in the queue; and the queue has at most one more than `MAX_SEND_QUEUE` nodes.
pub record IsOrderly (o : Outbox) : Type 0 where
  pub single : o.in_flight ≡ (if o.is_closed then 0 else if null o.queue then 0 else 1)
  pub stuck : (o.is_closed && null o.queue) ≡ false
  pub bounded : length o.queue ≤ max_send_queue + 1

-- What one event does: the queue stays orderly, `taken` comes behind what was started and what waits,
-- and after a failure nothing is started.
record Goes (o o' : Outbox) (taken : List Text) : Type 0 where
  orderly : IsOrderly o'
  same : o'.started ++ pop o'.queue ≡ (o.started ++ pop o.queue) ++ taken
  closed : o.is_closed ≡ true → (o'.is_closed ≡ true) × (o'.started ≡ o.started)

send_queue :
    (q : List Text) (c : Bool) (node : Text) (o : Outbox)
    → o.queue ≡ q
    → o.is_closed ≡ c
    → IsOrderly o
    → Goes o (send node o) (if ltb max_send_queue (length o.queue) then [] else node ∷ [])
unfolding send
send_queue [] c node o e k v = record {
  orderly = record { single = ground arith; stuck = ground arith; bounded = ground arith };
  same = ground (arith, append-nil o.started, append-nil (o.started ++ node ∷ []));
  closed = λ h. absurd (ground (arith, v.stuck));
}
send_queue (x ∷ q) c node o e k v = record {
  orderly = record {
    single = ground arith;
    stuck = ground arith;
    bounded = ground (arith, length-append q (node ∷ []));
  };
  same = ground (arith, append_assoc o.started q (node ∷ []), append-nil (o.started ++ q));
  closed = λ h. ground arith;
}

written_queue :
    (q : List Text) (c : Bool) (o : Outbox)
    → o.queue ≡ q
    → o.is_closed ≡ c
    → IsOrderly o
    → Goes o (step written o) []
unfolding step
written_queue q true o e k v = record {
  orderly = ground (arith, v);
  same = ground (arith, append-nil (o.started ++ pop o.queue));
  closed = λ h. ground arith;
}
written_queue [] false o e k v = record {
  orderly = ground (arith, v);
  same = ground (arith, append-nil (o.started ++ pop o.queue));
  closed = λ h. ground arith;
}
written_queue (x ∷ []) false o e k v = record {
  orderly = record { single = ground arith; stuck = ground arith; bounded = ground arith };
  same = ground (arith, append-nil o.started);
  closed = λ h. absurd (cc (h, k));
}
written_queue (x ∷ y ∷ q) false o e k v = record {
  orderly = record { single = ground arith; stuck = ground arith; bounded = ground arith };
  same = ground (arith, append_assoc o.started (y ∷ []) q, append-nil (o.started ++ y ∷ q));
  closed = λ h. absurd (cc (h, k));
}

failed_queue : (o : Outbox) → IsOrderly o → Goes o (step failed o) []
unfolding step
failed_queue o v = record {
  orderly = record { single = ground arith; stuck = ground arith; bounded = ground arith };
  same = ground (arith, append-nil (o.started ++ pop o.queue));
  closed = λ h. ground arith;
}

if-append :
    (b : Bool) (x : Text) (rest : List Text)
    → (if b then [] else x ∷ []) ++ rest ≡ (if b then rest else x ∷ rest)
if-append true x rest = refl
if-append false x rest = refl

one-Goes : (e : Event) (o : Outbox) → IsOrderly o → Goes o (step e o) (accepted (e ∷ []) o)
unfolding step
one-Goes (sends node) o v = send_queue o.queue o.is_closed node o refl refl v
one-Goes written o v = written_queue o.queue o.is_closed o refl refl v
one-Goes failed o v = failed_queue o v

accepted-cons :
    (e : Event) (es : List Event) (o : Outbox)
    → accepted (e ∷ es) o ≡ accepted (e ∷ []) o ++ accepted es (step e o)
accepted-cons (sends node) es o =
    sym (if-append (ltb max_send_queue (length o.queue)) node (accepted es (step (sends node) o)))
accepted-cons written es o = refl
accepted-cons failed es o = refl

run-Goes : (es : List Event) (o : Outbox) → IsOrderly o → Goes o (run es o) (accepted es o)
unfolding run
run-Goes [] o v = record {
  orderly = v;
  same = sym (append-nil (o.started ++ pop o.queue));
  closed = λ h. (h, refl);
}
run-Goes (e ∷ es) o v =
    let s = one-Goes e o v in
    let r = run-Goes es (step e o) s.orderly in
    record {
      orderly = r.orderly;
      same =
          r.same
          ∙ ap (λ (t : List Text). t ++ accepted es (step e o)) s.same
          ∙ append_assoc (o.started ++ pop o.queue) (accepted (e ∷ []) o) (accepted es (step e o))
          ∙ ap (λ (t : List Text). (o.started ++ pop o.queue) ++ t) (sym (accepted-cons e es o));
      closed = λ h. let a = s.closed h in let b = r.closed a.0 in (b.0, b.1 ∙ a.1);
    }

-- From an orderly queue, whatever is sent and whether the writes are reported as done or as failed, the
-- queue stays orderly, and what was started and what still waits behind it are together the accepted
-- texts, in the order in which they were sent: nothing accepted is lost, doubled or overtaken. Once a
-- write has failed, no other write is ever started.
pub run-IsOrderly :
    (es : List Event) (o : Outbox)
    → IsOrderly o
    → IsOrderly (run es o)
      × ((run es o).started ++ pop (run es o).queue ≡ (o.started ++ pop o.queue) ++ accepted es o)
      × (o.is_closed ≡ true → (run es o).started ≡ o.started)
run-IsOrderly es o v = let g = run-Goes es o v in (g.orderly, g.same, λ h. (g.closed h).1)
