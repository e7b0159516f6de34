-- ===== src/Tests/Handlers.antt =====
-- The handlers on the small database, with a Redis that keeps each key with its time to live.
use my_music.Base.{◌≡◌, refl, pos, none, some, [], ◌∷◌, if◌then◌else◌, arith, codes}
use my_music.Redis.{user_token, eq_key}
use my_music.Tests.Memory.{Store, memory}
use my_music.Logic.{success, token_expire_time, check_token}
use my_music.Logic.Tokens.{beats, beats_alive}
use my_music.Logic.Collecting.{CanCollect, Back, collect_uncollect}
use my_music.Tests.Tables.{library, library-IsPlaylist, library-IsHealthy}

-- User 1 is logged in with the token "t".
abbrev logged_in : Store
logged_in k = if eq_key k (user_token (pos 1)) then some (codes "t", none) else none

beats_alive_example :
    beats memory
      (pos 1)
      (record { from_uid = pos 1; token = codes "t" })
      (30 ∷ 1799 ∷ [])
      (memory.expire (user_token (pos 1)) token_expire_time logged_in)
    ≡ success ∷ success ∷ []
beats_alive_example =
    beats_alive memory 1 (b't') [] (30 ∷ 1799 ∷ []) logged_in (λ s. refl) (omega arith) refl
      (omega arith, (omega arith, tt))

library-CanCollect : CanCollect (pos 1) 3 9 library
library-CanCollect = record {
  healthy = library-IsHealthy;
  listed = library-IsPlaylist;
  found = refl;
  known = refl;
  fresh = (omega arith, (omega arith, tt));
}

collect_uncollect_example : Back memory (pos 1) 3 9 (codes "t") logged_in library
collect_uncollect_example =
    collect_uncollect memory (pos 1) 3 9 (codes "t") logged_in library (unfold check_token in refl)
      (omega arith) library-CanCollect
