-- ===== src/Logic/Login/Session.antt =====
-- What a login leaves behind.
use my_music.Base.{
  ℕ, ◌+◌, ◌<◌, ◌≡◌, refl, ap, ◌∙◌, inl, inr, ℤ, pos, eq_int, eq_int_iff, Bool-cases, false, Option,
  none, some, Text, text_eq, text_eq_refl, List, first, arith,
}
use my_music.Sql.{World, User, ok}
use my_music.Sql.Catch.{statement_lem}
use my_music.Redis.{
  Redis, IsUp, Key, eq_key, user_token, user_ip, user_session, user_base_info, login_count,
  redis_get, redis_set, redis_expire,
}
use my_music.Redis.Counts.{int_max, read_count}
use my_music.Redis.Counts.Kept.{with_count, read_count-with_count, increase_count_lem}
use my_music.Registry.{get_session, bind_user}
use my_music.Dao.Reading.{UserInfo, get_user_info}
use my_music.Dao.Lists.{MusicInfo, get_all_music_info, shown_all}
use my_music.Dao.Playlists.Collect.{IsHealthy}
use my_music.Logic.{success, token_invalid, token_expire_time}
use my_music.Logic.Login.{
  LoginReq, LoginRsp, Desk, take_token, kick_previous, notify_offline, enter, finish_login, issue,
  get_base_info, login_handler,
}

module _ {S : Type 0} (redis : Redis S) (write_json : UserInfo → Text)
    (read_json : Text → UserInfo) where
  -- Where the user's data is.
  pub data HasInfo (uid : ℤ) (s : S) (w : World) : Type 0 where
    in_cache : (t : Text) → redis.get (user_base_info uid) s ≡ some t → HasInfo uid s w
    in_table :
        (u : User)
        → redis.get (user_base_info uid) s ≡ none
        → first (λ (r : User). eq_int (pos r.id) uid) w.users ≡ some u
        → HasInfo uid s w

  -- Only the cache of the user may differ.
  abbrev Cached : ℤ → S → S → Type 0
  Cached uid s s' =
      (k : Key) → eq_key k (user_base_info uid) ≡ false → redis.get k s' ≡ redis.get k s

  get_base_info_lem :
      (uid : ℤ) (s : S) (w : World)
      → IsUp redis
      → IsHealthy w
      → HasInfo uid s w
      → (u : UserInfo) × (s' : S) × (get_base_info redis write_json read_json uid s w
          ≡ (ok (some u, s'), w))
        × Cached uid s s'
  unfolding get_base_info get_user_info
  get_base_info_lem uid s w up h (in_cache t e) = (read_json t, s, simp (up s, e), λ k d. refl)
  get_base_info_lem uid s w up h (in_table u e f) =
      let i : UserInfo = record {
        uid = uid;
        sex = u.sex;
        name = u.name;
        email = u.email;
        icon = u.icon;
      } in
      (
        i,
        redis.set (user_base_info uid) (write_json i) s,
        simp (up s, e, h.open_pool, statement_lem w h.no_faults, f),
        λ k d. redis.set_other (user_base_info uid) k (write_json i) s d,
      )

  notify_offline-store :
      (uid : ℤ) (o : Option Text) (d : Desk S) → (notify_offline redis uid o d).store ≡ d.store
  notify_offline-store uid none d = refl
  notify_offline-store uid (some old) d = refl

  kick_previous-store :
      (server : Text) (uid : ℤ) (o : Option Text) (d : Desk S)
      → (kick_previous redis server uid o d).store ≡ d.store
  kick_previous-store server uid none d = refl
  kick_previous-store server uid (some ip) d = elim (Bool-cases (text_eq ip server)) [
    | inl y ↦ rw y (notify_offline-store uid (get_session uid d.registry) d)
    | inr y ↦ rw y refl
  ]

  abbrev entered : Text → ℤ → Text → S → S
  entered server uid id s = redis.set (user_session uid) id (redis.set (user_ip uid) server s)

  enter-store :
      (server : Text) (uid : ℤ) (id : Text) (d : Desk S)
      → IsUp redis
      → (enter redis server uid id d).store ≡ entered server uid id d.store
  unfolding enter
  enter-store server uid id d up =
      let k = kick_previous-store server uid (redis_get redis (user_ip uid) d.store) d in
      rw (k, up d.store, up (redis.set (user_ip uid) server d.store)) refl

  abbrev final : Text → ℤ → Text → Text → ℕ → S → S
  final server uid id new n s =
      redis.expire (user_token uid) token_expire_time
        (redis.set (user_token uid) new (with_count redis server n (entered server uid id s)))

  final-get :
      (server : Text) (uid : ℤ) (id new : Text) (n : ℕ) (s : S) (k : Key)
      → eq_key k (user_token uid) ≡ false
      → redis.get k (final server uid id new n s)
        ≡ redis.get k (with_count redis server n (entered server uid id s))
  final-get server uid id new n s k e =
      let s' = with_count redis server n (entered server uid id s) in
      redis.expire_other (user_token uid) k token_expire_time (redis.set (user_token uid) new s') e
      ∙ redis.set_other (user_token uid) k new s' e

  read_count-same :
      (server : Text) (s s' : S)
      → IsUp redis
      → redis.get (login_count server) s' ≡ redis.get (login_count server) s
      → read_count redis server s' ≡ read_count redis server s
  read_count-same server s s' up e = rw (up s, up s', e) refl

  -- The count is not touched by the binding.
  read_count-entered :
      (server : Text) (uid : ℤ) (id : Text) (s s' : S)
      → IsUp redis
      → redis.get (login_count server) s' ≡ redis.get (login_count server) s
      → read_count redis server (entered server uid id s') ≡ read_count redis server s
  read_count-entered server uid id s s' up e =
      read_count-same server s (entered server uid id s') up (
        redis.set_other (user_session uid) (login_count server) id
          (redis.set (user_ip uid) server s') refl
        ∙ redis.set_other (user_ip uid) (login_count server) server s' refl
        ∙ e)

  -- The state behind a login, `wait` seconds later for its token.
  pub record LoggedIn (server : Text) (r : LoginReq) (id new : Text) (n wait : ℕ) (a : LoginRsp)
      (d : Desk S) : Type 0 where
    pub accepted : a.error ≡ success
    pub given : a.token ≡ some new
    pub token_there : redis.get (user_token r.uid) (redis.elapse wait d.store) ≡ some new
    pub token_taken : (take_token redis r.uid r.token (redis.elapse wait d.store)).0 ≡ token_invalid
    pub session_there : redis.get (user_session r.uid) d.store ≡ some id
    pub server_there : redis.get (user_ip r.uid) d.store ≡ some server
    pub counted : read_count redis server d.store ≡ some (pos (n + 1))
    pub bound : get_session r.uid d.registry ≡ some id

  token_invalid_lem :
      (uid : ℤ) (token new : Text) (s : S)
      → IsUp redis
      → redis.get (user_token uid) s ≡ some new
      → text_eq new token ≡ false
      → (take_token redis uid token s).0 ≡ token_invalid
  unfolding take_token
  token_invalid_lem uid token new s up e f = simp (up s, e, f)

  issue_lem :
      (uid : ℤ) (new : Text) (s : S)
      → IsUp redis
      → issue redis uid new s
        ≡ redis.expire (user_token uid) token_expire_time (redis.set (user_token uid) new s)
  issue_lem uid new s up =
      rw (issue, redis_set, redis_expire, up s, up (redis.set (user_token uid) new s)) refl

  -- The answer and the state of a login that gets this far.
  reply : Text → UserInfo → List MusicInfo → LoginRsp
  reply new u l = record {
    error = success;
    user_self_info = some u;
    music_list = l;
    token = some new;
  }

  finish_login_lem :
      (server : Text) (uid : ℤ) (id new : Text) (u : UserInfo) (l : List MusicInfo) (n : ℕ)
      (d : Desk S)
      → IsUp redis
      → read_count redis server (entered server uid id d.store) ≡ some (pos n)
      → n < int_max
      → finish_login redis server uid id new u l d
        ≡ some (
          reply new u l,
          record (enter redis server uid id d) { store = final server uid id new (n + 1) d.store },
        )
  unfolding finish_login reply
  finish_login_lem server uid id new u l n d up c h =
      let s = entered server uid id d.store in
      let s' = with_count redis server (n + 1) s in
      rw (finish_login, enter-store server uid id d up, increase_count_lem redis server n s up c h)
        (ap (λ (x : S). some (reply new u l, record (enter redis server uid id d) { store = x }))
          (issue_lem uid new s' up))

  enter-bound :
      (server : Text) (uid : ℤ) (id : Text) (d : Desk S)
      → get_session uid (enter redis server uid id d).registry ≡ some id
  unfolding enter get_session bind_user
  enter-bound server uid id d = rw ((eq_int_iff uid uid).1 refl) refl

  final-LoggedIn :
      (server : Text) (r : LoginReq) (id new : Text) (u : UserInfo) (l : List MusicInfo)
      (n wait : ℕ) (d : Desk S)
      → IsUp redis
      → n < int_max
      → wait < token_expire_time
      → text_eq new r.token ≡ false
      → LoggedIn server r id new n wait (reply new u l) (record (enter redis server r.uid id d) {
        store = final server r.uid id new (n + 1) d.store;
      })
  unfolding reply
  final-LoggedIn server r id new u l n wait d up h less other =
      let uid = r.uid in
      let s = entered server uid id d.store in
      let s' = with_count redis server (n + 1) s in
      let t = final server uid id new (n + 1) d.store in
      let there =
        redis.expire_lem (user_token uid) new token_expire_time wait _
          (redis.set_lem (user_token uid) new s') less in
      record {
        accepted = refl;
        given = refl;
        token_there = there;
        token_taken = token_invalid_lem uid r.token new (redis.elapse wait t) up there other;
        session_there =
            final-get server uid id new (n + 1) d.store (user_session uid) refl
            ∙ redis.set_other (login_count server) (user_session uid) _ s refl
            ∙ redis.set_lem (user_session uid) id (redis.set (user_ip uid) server d.store);
        server_there =
            final-get server uid id new (n + 1) d.store (user_ip uid) refl
            ∙ redis.set_other (login_count server) (user_ip uid) _ s refl
            ∙ redis.set_other (user_session uid) (user_ip uid) id
                (redis.set (user_ip uid) server d.store) refl
            ∙ redis.set_lem (user_ip uid) server d.store;
        counted =
            read_count-same server s' t up
              (final-get server uid id new (n + 1) d.store (login_count server) refl)
            ∙ read_count-with_count redis server (n + 1) s up (omega arith);
        bound = enter-bound server uid id d;
      }

  -- If Redis replies, no statement fails, the user's one-time token is there, his data are in the cache
  -- or in the table, and the server's count is n (below the greatest int): the login is answered with
  -- success and a new session token, which is still there at any time before `TOKEN_EXPIRE_TIME`, and up
  -- to then the one-time token (which differs) is refused; Redis names this session and this server for
  -- the user, the count is n + 1, and the user's session is this one, whoever was logged in before.
  pub login_handler-LoggedIn :
      (server : Text) (r : LoginReq) (id new : Text) (n wait : ℕ) (d : Desk S) (w : World)
      → IsUp redis
      → IsHealthy w
      → redis.get (user_token r.uid) d.store ≡ some r.token
      → HasInfo r.uid d.store w
      → read_count redis server d.store ≡ some (pos n)
      → n < int_max
      → wait < token_expire_time
      → text_eq new r.token ≡ false
      → (a : LoginRsp) × (d' : Desk S) × (login_handler redis write_json read_json server r id new d
            w
          ≡ (ok (some (a, d')), w))
        × LoggedIn server r id new n wait a d'
  unfolding login_handler take_token get_all_music_info
  login_handler-LoggedIn server r id new n wait d w up h there info count less soon other =
      let s0 = redis.del (user_token r.uid) d.store in
      let (u, s1, e, k) = get_base_info_lem r.uid s0 w up h (moved info) in
      let same =
        k (login_count server) refl
        ∙ redis.del_other (user_token r.uid) (login_count server) d.store refl in
      let c = read_count-entered server r.uid id d.store s1 up same ∙ count in
      let l = shown_all r.uid w w.songs in
      let d1 : Desk S = record d { store = s1 } in
      let f = finish_login_lem server r.uid id new u l n d1 up c less in
      (
        reply new u l,
        record (enter redis server r.uid id d1) { store = final server r.uid id new (n + 1) s1 },
        simp (
          up d.store,
          there,
          text_eq_refl r.token,
          e,
          h.open_pool,
          statement_lem w h.no_faults,
          f,
        ),
        final-LoggedIn server r id new u l n wait d1 up less soon other,
      )
    where
      moved : HasInfo r.uid d.store w → HasInfo r.uid (redis.del (user_token r.uid) d.store) w
      moved (in_cache t e) =
          in_cache t (redis.del_other (user_token r.uid) (user_base_info r.uid) d.store refl ∙ e)
      moved (in_table u e f) =
          in_table u (redis.del_other (user_token r.uid) (user_base_info r.uid) d.store refl ∙ e) f
