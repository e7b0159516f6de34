-- ===== src/Wire.antt =====
-- The frames between client and session server: a message id and a length, two bytes each in network
-- order, then the body. Server side: Server/SessionServer/MessageNode.h (what is sent) and the reads
-- of Session.cpp. Client side: what MyMusic/MyMusic/tcpmanager.cpp sends, in the child Sending.
-- `short` values are their bit patterns, below 2 ^ 16.
pub mod Reading
pub mod Sending
pub mod Outbox
use my_music.Base.{
  ℕ, zero, suc, ◌+◌, ◌-◌, ◌*◌, ◌/◌, ◌%◌, ◌^◌, min, max, Text, Bool, true, false, ◌&&◌, Option, none,
  some, List, [], ◌∷◌, ◌++◌, ltb, leb, if◌then◌else◌, length, take, drop,
}

pub record Message : Type 0 where
  pub id : ℕ
  pub body : Text

abbrev pub short_values : ℕ
short_values = 2 ^ 16

-- host_to_network_short, as the two bytes that memcpy takes from it.
abbrev pub network_short : ℕ → Text
network_short n = n / 256 % 256 ∷ n % 256 ∷ []

abbrev pub host_short : ℕ → ℕ → ℕ
host_short a b = a * 256 + b

abbrev pub is_negative : ℕ → Bool
is_negative s = leb (2 ^ 15) s

-- `SendNode`, for a text of any length: `msg.length()` becomes a `short`. A negative one is a count of
-- almost 2 ^ 64 bytes for the last memcpy, which is `none`.
pub send_node : ℕ → Text → Option Text
send_node id msg =
    let max_len = length msg % short_values in
    if is_negative max_len
    then none
    else some (network_short id ++ network_short max_len ++ take max_len msg)

-- What one `async_read_some` gives: at least a byte, at most what is asked for and what is there.
-- The sizes are the network's choice; with none left it gives all it can.
abbrev pub granted : List ℕ → ℕ → ℕ → ℕ
granted [] wanted there = min wanted there
granted (s ∷ sizes) wanted there = max 1 (min s (min wanted there))

abbrev pub later : List ℕ → List ℕ
later [] = []
later (s ∷ sizes) = sizes

abbrev pub Stream : Type 0
Stream = List ℕ × Text

abbrev pub behind : Text → Option (Text × Stream) → Option (Text × Stream)
behind got none = none
behind got (some (rest, s)) = some (got ++ rest, s)

-- `AsyncReadLen`: one step for each read, until nothing is wanted; `none` is an error, the end of the
-- stream. The fuel bounds the reads.
async_read_len : ℕ → ℕ → Stream → Option (Text × Stream)
async_read_len f zero s = some ([], s)
async_read_len zero (suc r) s = none
async_read_len (suc f) (suc r) (sizes, []) = none
async_read_len (suc f) (suc r) (sizes, b ∷ t) =
    let k = granted sizes (suc r) (length (b ∷ t)) in
    let rest = async_read_len f (suc r - k) (later sizes, drop k (b ∷ t)) in
    behind (take k (b ∷ t)) rest

-- Each read gives a byte or more, so the bytes wanted are fuel enough.
unfoldable pub async_read_full : ℕ → Stream → Option (Text × Stream)
unfolding async_read_len
async_read_full n s = async_read_len n n s

abbrev pub max_length : ℕ
max_length = 1024 * 1024 * 2

-- `msg_id > MAX_LENGTH` on a signed short.
abbrev pub id_too_large : ℕ → Bool
id_too_large id = if is_negative id then false else ltb max_length id

abbrev pub read_body : ℕ → ℕ → Option (Text × Stream) → Option (Message × Stream)
read_body id len none = none
read_body id len (some (body, s)) = some (record { id = id; body = body }, s)

-- The callback of `AsyncReadHead`; `none` closes or drops the session.
read_head : Option (Text × Stream) → Option (Message × Stream)
read_head (some (a ∷ b ∷ c ∷ d ∷ [], s)) =
    let id = host_short a b in
    let len = host_short c d in
    if id_too_large id
    then none
    else if ltb max_length len
    then none
    else read_body id len (async_read_full len s)
read_head _ = none

unfoldable pub read_message : Stream → Option (Message × Stream)
unfolding read_head
read_message s = read_head (async_read_full 4 s)

-- The messages that a session puts on the logic queue before its stream ends or fails.
pub receive : ℕ → Stream → List Message
receive zero s = []
receive (suc f) s = elim (read_message s) [ none ↦ [] | some (m, s') ↦ m ∷ receive f s' ]
