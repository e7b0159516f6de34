-- ===== src/MysqlPool.antt =====
-- MySqlPool of Server/SessionServer/MysqlDao.h: the connections that are idle, and the thread that keeps
-- them alive. A connection is a number that tells it from the others; times are seconds.
pub mod Check
pub mod Users
pub mod Bound
use my_music.Base.{
  ℕ, zero, suc, ◌+◌, Bool, true, false, Option, none, some, List, [], ◌∷◌, ◌++◌, length, ltb,
  if◌then◌else◌,
}

pub record SqlConnection : Type 0 where
  pub conn : ℕ
  pub last_operate_time : ℕ

pub record MySqlPool : Type 0 where
  pub pool : List SqlConnection
  pub b_stop : Bool
  pub fail_count : ℕ

-- The constructor's loop, with what each attempt gives: a connection and the time, or an exception, which
-- ends it, and then no thread is started.
abbrev pub opened : List (Option (ℕ × ℕ)) → List SqlConnection × Bool
opened [] = ([], true)
opened (none ∷ more) = ([], false)
opened (some (k, now) ∷ more) =
    let (cs, started) = opened more in (record { conn = k; last_operate_time = now } ∷ cs, started)

abbrev pub mysql_pool : List (Option (ℕ × ℕ)) → MySqlPool × Bool
mysql_pool attempts =
    let (cs, started) = opened attempts in
    (record { pool = cs; b_stop = false; fail_count = 0 }, started)

-- The first connection, where there is one; `none` waits.
abbrev pub front_of : List SqlConnection → MySqlPool → Option (Option SqlConnection × MySqlPool)
front_of [] p = none
front_of (c ∷ cs) p = some (some c, record p { pool = cs })

-- `GetConnection` when it is not waiting: null after `Close`.
unfoldable pub get_connection : MySqlPool → Option (Option SqlConnection × MySqlPool)
get_connection p = if p.b_stop then some (none, p) else front_of p.pool p

abbrev pub push : SqlConnection → MySqlPool → MySqlPool
push c p = record p { pool = p.pool ++ c ∷ [] }

pub return_connection : SqlConnection → MySqlPool → MySqlPool
return_connection c p = if p.b_stop then p else push c p

abbrev pub close : MySqlPool → MySqlPool
close p = record p { b_stop = true }

-- Where `CheckConnection` stands: not running, before a round, in a round with a connection taken off the
-- queue, or behind the rounds. It keeps the time of its start, targetCount and processed.
pub data Phase : Type 0 where
  sleeping : Phase
  taking : ℕ → ℕ → ℕ → Phase
  holding : SqlConnection → ℕ → ℕ → ℕ → Phase
  reconnecting : ℕ → Phase

abbrev pub begin_check : ℕ → MySqlPool → Phase
begin_check now p = taking now (length p.pool) 0

abbrev pub take_front : ℕ → ℕ → ℕ → List SqlConnection → MySqlPool → MySqlPool × Phase
take_front now target n [] p = (p, reconnecting now)
take_front now target n (c ∷ cs) p = (record p { pool = cs }, holding c now target n)

-- `answers` is whether `select 1` comes back.
abbrev pub examine : Bool → ℕ → SqlConnection → MySqlPool → MySqlPool
examine answers now c p =
    if ltb (c.last_operate_time + 5) now
    then (if answers
        then push (record c { last_operate_time = now }) p
        else record p { fail_count = suc p.fail_count })
    else push c p

abbrev pub re_connect : ℕ → Option ℕ → MySqlPool → MySqlPool × Phase
re_connect now none p = (p, sleeping)
re_connect now (some k) p = (
  push (record { conn = k; last_operate_time = now }) (record p { fail_count = 0 }),
  reconnecting now,
)

-- One step of `CheckConnection` between two uses of the lock, with the answer to `select 1` and what
-- `connect` gives. The count of failures is this thread's own, so it is reset with the push.
unfoldable pub check_step : Bool → Option ℕ → MySqlPool → Phase → MySqlPool × Phase
check_step answers connected p sleeping = (p, sleeping)
check_step answers connected p (taking now target n) =
    if ltb n target then take_front now target n p.pool p else (p, reconnecting now)
check_step answers connected p (holding c now target n) =
    (examine answers now c p, taking now target (suc n))
check_step answers connected p (reconnecting now) =
    if ltb 0 p.fail_count then re_connect now connected p else (p, sleeping)
