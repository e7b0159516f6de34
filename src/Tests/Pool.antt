-- ===== src/Tests/Pool.antt =====
-- A pool of three connections: one is lent while the check finds another dead.
use my_music.Base.{
  ℕ, ◌+◌, ◌≤◌, ◌==◌, ◌≡◌, refl, Bool, true, false, not, Option, some, List, [], ◌∷◌, arith,
}
use my_music.MysqlPool.{
  SqlConnection, MySqlPool, sleeping, taking, get_connection, check_step, mysql_pool, begin_check,
}
use my_music.MysqlPool.Check.{run_check, kept, failed, replaced, run_check-replaced}
use my_music.MysqlPool.Users.{System, Steps, done, more, got, begun, check_lost, count}
use my_music.MysqlPool.Bound.{start, IsBounded, Steps-IsBounded}

abbrev attempts : List (Option (ℕ × ℕ))
attempts = some (1, 0) ∷ some (2, 0) ∷ some (3, 0) ∷ []

-- The first does not answer, the others do.
abbrev answers : ℕ → Bool
answers k = not (k == 1)

abbrev three : MySqlPool
three = (mysql_pool attempts).0

run_check-replaced_example : run_check answers (some 4) 9 three (begin_check 60 three) ≡ (
  replaced 60
      (some 4)
      (0 + failed answers 60 three.pool)
      (record three { pool = kept answers 60 three.pool }),
  sleeping,
)
run_check-replaced_example = run_check-replaced answers (some 4) 60 9 three (omega arith)

distinct : (k : ℕ) → count k three.pool ≤ 1
distinct k = ground arith

abbrev at : ℕ → SqlConnection
at k = record { conn = k; last_operate_time = 0 }

-- The first is lent, the check has found the second dead, and the third is next.
abbrev lent_one : System
lent_one = record {
  pool = record { pool = at 3 ∷ []; b_stop = false; fail_count = 1 };
  lent = at 1 ∷ [];
  started = true;
  phase = taking 60 2 1;
}

lent_one-Steps : Steps (start attempts) lent_one
unfolding get_connection check_step
lent_one-Steps =
    more
      (more
        (more (more done (got (at 1) (record three { pool = at 2 ∷ at 3 ∷ [] }) refl))
          (begun 60 refl refl refl))
        (check_lost true))
      (check_lost false)

Steps-IsBounded_example : IsBounded 3 lent_one
Steps-IsBounded_example = Steps-IsBounded attempts distinct lent_one-Steps
