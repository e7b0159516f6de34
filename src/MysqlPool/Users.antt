-- ===== src/MysqlPool/Users.antt =====
-- The users of the pool and its check, one use of the lock after the other.
use my_music.Base.{
  ℕ, ◌+◌, ◌≡◌, Bool, ◌==◌, true, false, Option, none, some, List, [], ◌∷◌, ◌++◌, length,
  if◌then◌else◌,
}
use my_music.MysqlPool.{
  SqlConnection, MySqlPool, Phase, sleeping, taking, holding, reconnecting, begin_check, check_step,
  get_connection, return_connection, close,
}

-- The pool, the connections that its users have, whether the thread was started, and where it stands.
pub record System : Type 0 where
  pub pool : MySqlPool
  pub lent : List SqlConnection
  pub started : Bool
  pub phase : Phase

abbrev pub in_hand : Phase → List SqlConnection
in_hand sleeping = []
in_hand (taking now target n) = []
in_hand (holding c now target n) = c ∷ []
in_hand (reconnecting now) = []

abbrev pub count : ℕ → List SqlConnection → ℕ
count k [] = 0
count k (c ∷ cs) = (if c.conn == k then 1 else 0) + count k cs

-- How often a connection is idle, lent or in the check's hand.
abbrev pub holders : ℕ → System → ℕ
holders k s = count k s.pool.pool + (count k s.lent + count k (in_hand s.phase))

abbrev pub size : System → ℕ
size s = length s.pool.pool + (length s.lent + length (in_hand s.phase))

abbrev pub after_check : Bool → Option ℕ → System → System
after_check answers connected s =
    let (p, w) = check_step answers connected s.pool s.phase in record s { pool = p; phase = w }

-- One use of the lock. `connect` gives a connection that nobody has.
pub data Step (s : System) : System → Type 0 where
  got :
      (c : SqlConnection) (p : MySqlPool)
      → get_connection s.pool ≡ some (some c, p)
      → Step s (record s { pool = p; lent = c ∷ s.lent })
  returned :
      (before after : List SqlConnection) (c : SqlConnection)
      → s.lent ≡ before ++ c ∷ after
      → Step s (record s { pool = return_connection c s.pool; lent = before ++ after })
  closed : Step s (record s { pool = close s.pool })
  begun :
      (now : ℕ)
      → s.started ≡ true
      → s.pool.b_stop ≡ false
      → s.phase ≡ sleeping
      → Step s (record s { phase = begin_check now s.pool })
  check_lost : (answers : Bool) → Step s (after_check answers none s)
  check_won : (answers : Bool) (k : ℕ) → holders k s ≡ 0 → Step s (after_check answers (some k) s)

pub data Steps (s : System) : System → Type 0 where
  done : Steps s s
  more : {t u : System} → Steps s t → Step t u → Steps s u
