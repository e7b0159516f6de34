-- ===== src/Tests/Logins.antt =====
-- A login on the small database, with the one-time token "t".
use my_music.Base.{
  length, ◌-◌, List, ◌∷◌, text_eq, select, exists_in, ◌≡◌, refl, pos, true, false, none, some, Text,
  [], codes, arith, if◌then◌else◌,
}
use my_music.Sql.{ok}
use my_music.Redis.{eq_key, user_token, user_ip, user_session}
use my_music.Redis.Counts.Changed.{
  Change, starts, login, logout, stops, tally, run, Counts, run-tally,
}
use my_music.Redis.Counts.{read_count}
use my_music.Logic.Login.Sweep.{Watched, expired, on_timer, on_timer-sweeps}
use my_music.Registry.{Registry, get_session, check_valid}
use my_music.Dao.Reading.{UserInfo}
use my_music.Logic.Login.{LoginReq, LoginRsp, Desk, login_handler, deal_exception_session}
use my_music.Logic.Login.End.{deal_exception_session-own, deal_exception_session-stale}
use my_music.Logic.Login.Session.{in_table, LoggedIn, login_handler-LoggedIn}
use my_music.Tests.Memory.{Store, memory}
use my_music.Tests.Tables.{library, library-IsHealthy, ann}

abbrev with_token : Store
with_token k = if eq_key k (user_token (pos 1)) then some (codes "t", none) else none

abbrev no_sessions : Registry
no_sessions = record { held = λ t. false; users = λ i. none; uid_of = λ t. pos 0 }

abbrev desk : Desk Store
desk = record { store = with_token; registry = no_sessions; notices = []; kicks = [] }

abbrev write_json : UserInfo → Text
write_json u = u.name

abbrev read_json : Text → UserInfo
read_json t = record { uid = pos 0; sex = pos 0; name = t; email = []; icon = [] }

abbrev request : LoginReq
request = record { uid = pos 1; token = codes "t" }

login_handler-LoggedIn_example :
    (a : LoginRsp) × (d : Desk Store) × (login_handler memory write_json read_json
        (codes "s1")
        request
        (codes "session")
        (codes "new")
        desk
        library
      ≡ (ok (some (a, d)), library))
    × LoggedIn memory write_json read_json
        (codes "s1")
        request
        (codes "session")
        (codes "new")
        0
        60
        a
        d
login_handler-LoggedIn_example =
    login_handler-LoggedIn memory write_json read_json (codes "s1") request (codes "session")
      (codes "new") 0 60 desk library (λ s. refl) library-IsHealthy refl (in_table ann refl refl)
      refl (omega arith) (omega arith) refl

-- Sessions "a" and "b" of user 1; Redis and the server know "b".
abbrev two_sessions : Registry
two_sessions = record { held = λ t. true; users = λ i. some (codes "b"); uid_of = λ t. pos 1 }

abbrev knows_b : Store
knows_b k = if eq_key k (user_session (pos 1)) then some (codes "b", none) else none

deal_exception_session-own_example :
    let (s', r') = deal_exception_session memory true (codes "b") (knows_b, two_sessions) in
    (memory.get (user_token (pos 1)) s' ≡ none)
    × (memory.get (user_ip (pos 1)) s' ≡ none)
    × (memory.get (user_session (pos 1)) s' ≡ none)
    × (check_valid (codes "b") r' ≡ false)
deal_exception_session-own_example =
    deal_exception_session-own memory (codes "b") knows_b two_sessions (λ s. refl) refl

deal_exception_session-stale_example :
    let (s', r') = deal_exception_session memory false (codes "a") (knows_b, two_sessions) in
    (s' ≡ knows_b)
    × (get_session (pos 1) r' ≡ some (codes "b"))
    × (check_valid (codes "a") r' ≡ false)
deal_exception_session-stale_example =
    deal_exception_session-stale memory false (codes "a") (codes "b") knows_b two_sessions
      (λ s. refl) refl refl (unfold get_session in refl)

-- The heartbeat of "a" has expired, that of "b" has not.
abbrev two_watched : List Watched
two_watched =
    record { session_id = codes "a"; last_heartbeat = 0 }
    ∷ record { session_id = codes "b"; last_heartbeat = 50 }
    ∷ []

on_timer-sweeps_example :
    let (s', r') =
      on_timer memory false
        (codes "s1")
        70
        (true ∷ false ∷ [])
        two_watched
        (knows_b, two_sessions) in
    (read_count memory (codes "s1") s'
      ≡ some (pos (length two_watched - length (select (expired 70) two_watched))))
    × (check_valid (codes "a") r' ≡ (
        if exists_in (λ w. text_eq (codes "a") w.session_id) (select (expired 70) two_watched)
        then false
        else check_valid (codes "a") two_sessions))
on_timer-sweeps_example =
    on_timer-sweeps memory (codes "s1") 70 (true ∷ false ∷ []) two_watched knows_b two_sessions
      (codes "a") (λ s. refl) (omega arith)

abbrev some_changes : List (Text × Change)
some_changes =
    (codes "a", starts)
    ∷ (codes "a", login)
    ∷ (codes "b", login)
    ∷ (codes "a", login)
    ∷ (codes "a", logout)
    ∷ (codes "b", stops)
    ∷ []

run-tally_example :
    Counts memory (tally some_changes (λ x. 0)) (run memory some_changes (some (λ k. none)))
run-tally_example =
    run-tally memory some_changes (λ x. 0) (λ k. none) (λ s. refl) (λ x. refl) (λ x. omega arith)
