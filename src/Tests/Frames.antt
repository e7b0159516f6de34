-- ===== src/Tests/Frames.antt =====
-- Two messages on the wire, and a short run of a send queue.
use my_music.Base.{true, false, ◌↔◌, ◌<◌, ◌^◌, some, List, [], ◌∷◌, ◌++◌, ◌≡◌, refl, arith, codes}
use my_music.Wire.{Message, receive, send_node}
use my_music.Wire.Reading.{frame}
use my_music.Wire.Sending.{send_all, receive-send_all, send_node_iff}
use my_music.Wire.Outbox.{
  Event, sends, written, failed, empty, run, pop, accepted, IsOrderly, run-IsOrderly,
}

abbrev two_messages : List Message
two_messages = record { id = 1005; body = codes "{}" } ∷ record { id = 1019; body = [] } ∷ []

receive-send_all_example : receive 2 (3 ∷ 0 ∷ 1 ∷ 9 ∷ [], send_all two_messages) ≡ two_messages
receive-send_all_example =
    receive-send_all two_messages (3 ∷ 0 ∷ 1 ∷ 9 ∷ [])
      ((omega arith, omega arith), ((omega arith, omega arith), tt))

abbrev some_sends : List Event
some_sends =
    sends (codes "a")
    ∷ sends (codes "b")
    ∷ written
    ∷ sends (codes "c")
    ∷ failed
    ∷ sends (codes "d")
    ∷ written
    ∷ []

run-IsOrderly_example :
    IsOrderly (run some_sends empty)
    × ((run some_sends empty).started ++ pop (run some_sends empty).queue
        ≡ accepted some_sends empty)
    × (false ≡ true → (run some_sends empty).started ≡ [])
run-IsOrderly_example =
    run-IsOrderly some_sends empty (record { single = refl; stuck = refl; bounded = omega arith })

send_node_iff_example :
    (send_node 1006 (codes "{}") ≡ some (frame (record { id = 1006; body = codes "{}" })))
    ↔ (2 < 2 ^ 15)
send_node_iff_example = send_node_iff 1006 (codes "{}")
