-- ===== src/BlockQueue/Order.antt =====
-- Nothing is lost, doubled or overtaken in the queue, and it never grows past its capacity.
use my_music.Base.{
  ◌≤◌, ◌≡◌, refl, sym, ap, ◌∙◌, Bool, true, false, Bool-cases, inl, inr, Option, none, some, List,
  [], ◌∷◌, ◌++◌, append-nil, append_assoc, length, length-append, leb-gt, arith,
}
use my_music.BlockQueue.{
  BlockQueue, full, push_back, Popped, waits, refused, got, pop_item, pop, clear, close,
}

pub data Call (A : Type 0) : Type 0 where
  call_push_back : A → Call A
  call_pop : Bool → Call A
  call_clear call_close : Call A

-- What went in, what came out (taken or thrown away), and the queue.
pub record Trace (A : Type 0) : Type 0 where
  pub pushed : List A
  pub out : List A
  pub queue : BlockQueue A

module _ {A : Type 0} where
  abbrev pub after_push : A → Option (BlockQueue A) → Trace A → Trace A
  after_push a none t = t
  after_push a (some b) t = record { pushed = t.pushed ++ a ∷ []; out = t.out; queue = b }

  abbrev pub after_pop : Popped A × BlockQueue A → Trace A → Trace A
  after_pop (got a, b) t = record { pushed = t.pushed; out = t.out ++ a ∷ []; queue = b }
  after_pop (waits, b) t = record t { queue = b }
  after_pop (refused, b) t = record t { queue = b }

  abbrev pub after_clear : List A × BlockQueue A → Trace A → Trace A
  after_clear (l, b) t = record { pushed = t.pushed; out = t.out ++ l; queue = b }

  pub call : Call A → Trace A → Trace A
  call (call_push_back a) t = after_push a (push_back a t.queue) t
  call (call_pop woken) t = after_pop (pop woken t.queue) t
  call call_clear t = after_clear (clear t.queue) t
  call call_close t = after_clear (close t.queue) t

  pub calls : List (Call A) → Trace A → Trace A
  unfolding call
  calls [] t = t
  calls (c ∷ cs) t = calls cs (call c t)

  pub record IsOrdered (t : Trace A) : Type 0 where
    pub order : t.out ++ t.queue.q ≡ t.pushed
    pub bound : length t.queue.q ≤ t.queue.capacity

  push_back-IsOrdered :
      (a : A) (t : Trace A) → IsOrdered t → IsOrdered (after_push a (push_back a t.queue) t)
  unfolding push_back
  push_back-IsOrdered a t o = elim (Bool-cases (full t.queue)) [
    | inl y ↦ rw y o
    | inr y ↦ rw y (record {
      order =
          sym (append_assoc t.out t.queue.q (a ∷ [])) ∙ ap (λ (l : List A). l ++ a ∷ []) o.order;
      bound =
          omega
            (arith, leb-gt t.queue.capacity (length t.queue.q) y, length-append t.queue.q (a ∷ []));
    })
  ]

  pop_item-IsOrdered :
      (l : List A) (woken : Bool) (t : Trace A)
      → l ≡ t.queue.q
      → IsOrdered t
      → IsOrdered (after_pop (pop_item l woken t.queue) t)
  pop_item-IsOrdered [] woken t e o = record { order = o.order; bound = o.bound }
  pop_item-IsOrdered (a ∷ l) woken t e o = record {
    order = append_assoc t.out (a ∷ []) l ∙ rw e o.order;
    bound = omega (arith, o.bound, ap (λ (x : List A). length x) e);
  }

  pop-IsOrdered :
      (woken : Bool) (t : Trace A) → IsOrdered t → IsOrdered (after_pop (pop woken t.queue) t)
  unfolding pop
  pop-IsOrdered false t o = pop_item-IsOrdered t.queue.q false t refl o
  pop-IsOrdered true t o = elim (Bool-cases t.queue.is_close) [
    | inl y ↦ simp y (record { order = o.order; bound = o.bound })
    | inr y ↦ simp y (pop_item-IsOrdered t.queue.q true t refl o)
  ]

  clear-IsOrdered : (t : Trace A) → IsOrdered t → IsOrdered (after_clear (clear t.queue) t)
  unfolding clear
  clear-IsOrdered t o = record {
    order = append-nil (t.out ++ t.queue.q) ∙ o.order;
    bound = omega arith;
  }

  close-IsOrdered : (t : Trace A) → IsOrdered t → IsOrdered (after_clear (close t.queue) t)
  unfolding close clear
  close-IsOrdered t o = record {
    order = append-nil (t.out ++ t.queue.q) ∙ o.order;
    bound = omega arith;
  }

  call-IsOrdered : (c : Call A) (t : Trace A) → IsOrdered t → IsOrdered (call c t)
  unfolding call
  call-IsOrdered (call_push_back a) t o = push_back-IsOrdered a t o
  call-IsOrdered (call_pop woken) t o = pop-IsOrdered woken t o
  call-IsOrdered call_clear t o = clear-IsOrdered t o
  call-IsOrdered call_close t o = close-IsOrdered t o

  -- Whatever calls the threads make, in whatever order: what came out of the queue and what is still in it
  -- are together what went in, in the same order, and the queue holds no more than its capacity; if both
  -- held before.
  pub calls-IsOrdered : (cs : List (Call A)) (t : Trace A) → IsOrdered t → IsOrdered (calls cs t)
  unfolding calls
  calls-IsOrdered [] t o = o
  calls-IsOrdered (c ∷ cs) t o = calls-IsOrdered cs (call c t) (call-IsOrdered c t o)
