-- ===== src/Tests/Incoming.antt =====
-- Two messages at the client's reader, and a stream that reads shorts.
use my_music.Base.{ℕ, ◌+◌, ◌*◌, ◌≡◌, refl, Text, List, [], ◌∷◌, ◌++◌, length, drop, arith, codes}
use my_music.Wire.Sending.{send_node-frame}
use my_music.Client.Incoming.{ReadsShorts, ready_read, receive_all}
use my_music.Client.Incoming.Ends.{Returned, ready_read-Returned}
use my_music.Client.Incoming.Whole.{
  Delivery, all_pieces, all_messages, idle, receive_all-deliveries,
}

abbrev pub number : Text → ℕ
number [] = 0
number (a ∷ []) = 0
number (a ∷ b ∷ rest) = a * 256 + b

abbrev pub read_short : Text → ℕ → ℕ × ℕ
read_short s p = (number (drop p s), p + 2)

drop-append : (s t : Text) → drop (length s) (s ++ t) ≡ t
drop-append [] t = refl
drop-append (b ∷ s) t = drop-append s t

pub read_short-ReadsShorts : ReadsShorts read_short
read_short-ReadsShorts before rest a b = rw (drop-append before (a ∷ b ∷ rest)) refl

-- A login answer in three pieces, one inside the header, and an empty message.
abbrev two_deliveries : List Delivery
two_deliveries =
    record {
      message = record { id = 1006; body = codes "{}" };
      pieces = (3 ∷ []) ∷ (238 ∷ 0 ∷ 2 ∷ 123 ∷ []) ∷ (125 ∷ []) ∷ [];
    }
    ∷ record { message = record { id = 1019; body = [] }; pieces = (3 ∷ 251 ∷ 0 ∷ 0 ∷ []) ∷ [] }
    ∷ []

receive_all-deliveries_example :
    ((receive_all read_short (all_pieces two_deliveries) (idle 0 0 [])).0
      ≡ all_messages two_deliveries)
    × ((receive_all read_short (all_pieces two_deliveries) (idle 0 0 [])).1.buffer ≡ [])
receive_all-deliveries_example =
    receive_all-deliveries read_short read_short-ReadsShorts two_deliveries 0 0 (
      (omega arith, (omega arith, send_node-frame 1006 (codes "{}") (omega arith))),
      ((omega arith, (omega arith, send_node-frame 1019 [] (omega arith))), tt),
    )

ready_read-Returned_example :
    Returned (ready_read read_short (3 ∷ 238 ∷ 0 ∷ 2 ∷ 123 ∷ []) (idle 0 0 [])).1
ready_read-Returned_example =
    ready_read-Returned read_short (3 ∷ 238 ∷ 0 ∷ 2 ∷ 123 ∷ []) (idle 0 0 [])
