-- ===== src/Redis/Counts/Kept.antt =====
-- The count of a server after its changes.
use my_music.Base.{ℕ, ◌+◌, ◌-◌, ◌<◌, ◌≤◌, ◌≡◌, refl, pos, some, Text, lt→ltb}
use my_music.Redis.{Redis, IsUp, login_count}
use my_music.Redis.Counts.{to_string, int_max, count_of, read_count, increase_count, decrease_count}
use my_music.Redis.Counts.Decimal.{stoi-to_string, null-to_string}

module _ {S : Type 0} (redis : Redis S) where
  count_of-to_string : (n : ℕ) → n ≤ int_max → count_of (to_string (pos n)) ≡ some (pos n)
  count_of-to_string n h = rw (null-to_string (pos n), stoi-to_string (pos n) h) refl

  -- Redis with a count.
  abbrev pub with_count : Text → ℕ → S → S
  with_count server n s = redis.set (login_count server) (to_string (pos n)) s

  pub read_count-with_count :
      (server : Text) (n : ℕ) (s : S)
      → IsUp redis
      → n ≤ int_max
      → read_count redis server (with_count server n s) ≡ some (pos n)
  read_count-with_count server n s up h =
      rw (up (with_count server n s), redis.set_lem (login_count server) (to_string (pos n)) s)
        (count_of-to_string n h)

  pub increase_count_lem :
      (server : Text) (n : ℕ) (s : S)
      → IsUp redis
      → read_count redis server s ≡ some (pos n)
      → n < int_max
      → increase_count redis server s ≡ some (with_count server (n + 1) s)
  unfolding increase_count
  increase_count_lem server n s up r h = rw (r, lt→ltb n int_max h, up s) refl

  pub decrease_count_lem :
      (server : Text) (n : ℕ) (s : S)
      → IsUp redis
      → read_count redis server s ≡ some (pos n)
      → decrease_count redis server s ≡ some (with_count server (n - 1) s)
  unfolding decrease_count
  decrease_count_lem server n s up r = rw (r, up s) refl
