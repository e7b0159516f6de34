-- ===== src/BlockQueue.antt =====
-- The bounded queue between the player's threads: MyMusic/MyMusic/Common/blockqueue.h. Each method runs
-- under the lock, so a step is one method; one that has to wait is `none` and comes again.
pub mod Order
use my_music.Base.{
  ℕ, Bool, true, false, Option, none, some, List, [], ◌∷◌, ◌++◌, length, leb, if◌then◌else◌,
}

pub record BlockQueue (A : Type 0) : Type 0 where
  pub q : List A
  pub capacity : ℕ
  pub is_close : Bool

pub data Popped (A : Type 0) : Type 0 where
  waits refused : Popped A
  got : A → Popped A

module _ {A : Type 0} where
  abbrev pub empty : BlockQueue A → Bool
  empty b = elim b.q [ [] ↦ true | a ∷ rest ↦ false ]

  abbrev pub full : BlockQueue A → Bool
  full b = leb b.capacity (length b.q)

  -- A producer waits while the queue is full.
  unfoldable pub push_back : A → BlockQueue A → Option (BlockQueue A)
  push_back a b = if full b then none else some (record b { q = b.q ++ a ∷ [] })

  -- A consumer waits while the queue is empty; `woken` says whether it did. One that is woken when the
  -- queue is closed goes away without an item.
  abbrev pub pop_item : List A → Bool → BlockQueue A → Popped A × BlockQueue A
  pop_item [] woken b = (waits, b)
  pop_item (a ∷ rest) woken b = (got a, record b { q = rest })

  unfoldable pub pop : Bool → BlockQueue A → Popped A × BlockQueue A
  pop woken b =
      if woken
      then (if b.is_close then (refused, b) else pop_item b.q woken b)
      else pop_item b.q woken b

  -- What is thrown away, and the queue behind it.
  unfoldable pub clear : BlockQueue A → List A × BlockQueue A
  clear b = (b.q, record b { q = [] })

  -- `Close` sets the flag before `clear` takes the lock; the two are one step here. `clear` hands the items
  -- to its callback, if there is one: they are the list that is thrown away.
  unfoldable pub close : BlockQueue A → List A × BlockQueue A
  unfolding clear
  close b = clear (record b { is_close = true })
