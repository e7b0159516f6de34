-- ===== src/Tests/Queue.antt =====
-- Two producers and a consumer on a queue of capacity 2.
use my_music.Base.{ℕ, refl, true, false, List, [], ◌∷◌, arith}
use my_music.BlockQueue.Order.{
  Call, call_push_back, call_pop, call_clear, call_close, Trace, calls, IsOrdered, calls-IsOrdered,
}

abbrev start : Trace ℕ
start = record { pushed = []; out = []; queue = record { q = []; capacity = 2; is_close = false } }

abbrev work : List (Call ℕ)
work =
    call_push_back 1
    ∷ call_push_back 2
    ∷ call_push_back 3
    ∷ call_pop false
    ∷ call_push_back 3
    ∷ call_clear
    ∷ call_pop false
    ∷ call_close
    ∷ call_pop true
    ∷ []

calls-IsOrdered_example : IsOrdered (calls work start)
calls-IsOrdered_example = calls-IsOrdered work start (record { order = refl; bound = omega arith })
