-- ===== src/Logic/Login/Sweep.antt =====
-- `On_Timer` of Server/SessionServer/Server.cpp: the count of the sessions that live, and the end of those
-- whose heartbeat has expired. Closing their sockets is left out.
use my_music.Base.{
  ℕ, ◌-◌, ◌+◌, arith, ◌≤◌, ◌≡◌, refl, ap, ◌∙◌, ℤ, pos, Bool, Bool-cases, inl, inr, not, ◌||◌, true,
  false, Option, none, some, Text, text_eq, List, [], ◌∷◌, select, length, exists_in, if◌then◌else◌,
}
use my_music.Redis.{
  Redis, IsUp, user_token, user_ip, user_session, login_count, redis_get, redis_hset,
}
use my_music.Redis.Counts.{to_string, int_max, read_count}
use my_music.Redis.Counts.Kept.{with_count, read_count-with_count}
use my_music.Registry.{Registry, check_valid, clear_session, is_heartbeat_expired}
use my_music.Registry.Bound.{cleared_rest}
use my_music.Logic.Login.End.{del_session_keys_lem}
use my_music.Logic.Login.{deal_exception_session, same_session}

-- A session of the copy, with its `_last_heartbeat`.
pub record Watched : Type 0 where
  pub session_id : Text
  pub last_heartbeat : ℕ

abbrev pub expired : ℕ → Watched → Bool
expired now w = is_heartbeat_expired now w.last_heartbeat

abbrev pub session_count : ℕ → List Watched → ℕ
session_count now copy = length (select (λ w. not (expired now w)) copy)

-- Whether each `acquireLock` gets its lock; with none left it does.
abbrev pub lock_now : List Bool → Bool
lock_now [] = true
lock_now (l ∷ ls) = l

abbrev pub locks_later : List Bool → List Bool
locks_later [] = []
locks_later (l ∷ ls) = ls

session_count_lem :
    (now : ℕ) (copy : List Watched)
    → session_count now copy + length (select (expired now) copy) ≡ length copy
session_count_lem now [] = omega arith
session_count_lem now (w ∷ ws) = elim (Bool-cases (expired now w)) [
  | inl y ↦ rw y (omega (arith, session_count_lem now ws))
  | inr y ↦ rw y (omega (arith, session_count_lem now ws))
]

module _ {S : Type 0} (redis : Redis S) where
  pub deal_all : List Bool → List Watched → S × Registry → S × Registry
  deal_all locks [] x = x
  deal_all locks (w ∷ ws) x =
      deal_all (locks_later locks) ws (deal_exception_session redis (lock_now locks) w.session_id x)

  -- An error ends it before anything is done. The copy is `_sessions` at the time `now`. That the sockets
  -- of the expired sessions are closed and the timer is armed again is left out.
  unfoldable pub on_timer : Bool → Text → ℕ → List Bool → List Watched → S × Registry → S × Registry
  on_timer ec server now locks copy (s, r) =
      if ec
      then (s, r)
      else deal_all locks (select (expired now) copy) (
        (redis_hset redis (login_count server) (to_string (pos (session_count now copy))) s).1,
        r,
      )

  -- The key of a count is none that the end of a session deletes.
  same_session-get :
      (uid : ℤ) (id server : Text) (x : Option Text) (s : S)
      → IsUp redis
      → redis.get (login_count server) (same_session redis uid id x s)
        ≡ redis.get (login_count server) s
  same_session-get uid id server none s up = refl
  same_session-get uid id server (some v) s up = elim (Bool-cases (text_eq v id)) [
    | inl y ↦
        let s1 = redis.del (user_session uid) s in
        rw (y, del_session_keys_lem redis uid s up)
          (redis.del_other (user_token uid) (login_count server) (redis.del (user_ip uid) s1) refl
            ∙ redis.del_other (user_ip uid) (login_count server) s1 refl
            ∙ redis.del_other (user_session uid) (login_count server) s refl)
    | inr y ↦ rw y refl
  ]

  deal_exception_session-get :
      (locked : Bool) (id server : Text) (s : S) (r : Registry)
      → IsUp redis
      → redis.get (login_count server) (deal_exception_session redis locked id (s, r)).0
        ≡ redis.get (login_count server) s
  unfolding deal_exception_session
  deal_exception_session-get false id server s r up = refl
  deal_exception_session-get true id server s r up =
      let uid = r.uid_of id in
      same_session-get uid id server (redis_get redis (user_session uid) s) s up

  ended :
      (locked : Bool) (id : Text) (s : S) (r : Registry)
      → (deal_exception_session redis locked id (s, r)).1 ≡ clear_session id r
  unfolding deal_exception_session
  ended locked id s r = refl

  either :
      (a b c : Bool) → (if b then false else if a then false else c) ≡ (if a || b then false else c)
  either true true c = refl
  either true false c = refl
  either false b c = refl

  deal_all_lem :
      (locks : List Bool) (ws : List Watched) (server id : Text) (s : S) (r : Registry)
      → IsUp redis
      → (redis.get (login_count server) (deal_all locks ws (s, r)).0
          ≡ redis.get (login_count server) s)
        × (check_valid id (deal_all locks ws (s, r)).1
            ≡ (if exists_in (λ w. text_eq id w.session_id) ws then false else check_valid id r))
  unfolding deal_all
  deal_all_lem locks [] server id s r up = (refl, refl)
  deal_all_lem locks (w ∷ ws) server id s r up =
      let (s', r') = deal_exception_session redis (lock_now locks) w.session_id (s, r) in
      let (one, two) = deal_all_lem (locks_later locks) ws server id s' r' up in
      let gone : check_valid id r' ≡ (if text_eq id w.session_id then false else check_valid id r) =
        ap (λ x. check_valid id x) (ended (lock_now locks) w.session_id s r)
        ∙ (cleared_rest w.session_id r id).1 in
      (
        one ∙ deal_exception_session-get (lock_now locks) w.session_id server s r up,
        two
            ∙ rw gone (
                either (text_eq id w.session_id) (exists_in (λ v. text_eq id v.session_id) ws)
                  (check_valid id r)),
      )

  same_count :
      (server : Text) (s s' : S)
      → IsUp redis
      → redis.get (login_count server) s ≡ redis.get (login_count server) s'
      → read_count redis server s ≡ read_count redis server s'
  same_count server s s' up e = rw (up s, up s', e) refl

  -- When the timer fires without an error, Redis replies, and there are no more sessions than the greatest
  -- `int`: the server's count in Redis is the number of the sessions less those whose heartbeat has expired,
  -- and a session is held afterwards exactly if it was held and is none of these, whichever locks are got.
  pub on_timer-sweeps :
      (server : Text) (now : ℕ) (locks : List Bool) (copy : List Watched) (s : S) (r : Registry)
      (id : Text)
      → IsUp redis
      → length copy ≤ int_max
      → let (s', r') = on_timer false server now locks copy (s, r) in
        (read_count redis server s' ≡ some (pos (length copy - length (select (expired now) copy))))
        × (check_valid id r' ≡ (
            if exists_in (λ w. text_eq id w.session_id) (select (expired now) copy)
            then false
            else check_valid id r))
  unfolding on_timer
  on_timer-sweeps server now locks copy s r id up h =
      let n = session_count now copy in
      let s1 = with_count redis server n s in
      let (one, two) = deal_all_lem locks (select (expired now) copy) server id s1 r up in
      let total = session_count_lem now copy in
      let difference : n ≡ length copy - length (select (expired now) copy) =
        omega (arith, total) in
      let count = read_count-with_count redis server n s up (omega (arith, h, total)) in
      let same =
        same_count server (deal_all locks (select (expired now) copy) (s1, r)).0 s1 up one in
      simp (up s) (same ∙ count ∙ ap (λ k. some (pos k)) difference, two)
