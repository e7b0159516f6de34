-- ===== src/Account/Passwords.antt =====
-- A password that was reset, and the login behind it.
use mathlib.Core.Bool.{or-true}
use my_music.Base.{
  ◌⊎◌, ℕ, ◌<◌, ◌≡◌, refl, ap, ◌∙◌, Bool, true, false, Bool-cases, inl, inr, Option, none, some,
  Text, text_eq, text_eq_refl, null, List, [], ◌∷◌, map, first, exists_in, length, take, ltb,
  if◌then◌else◌, arith,
}
use my_music.Redis.{Redis, IsUp, reset_code}
use my_music.Sql.{World, User, ok}
use my_music.Sql.Catch.{statement_lem, fault_lem}
use my_music.Dao.Playlists.Collect.{IsHealthy}
use my_music.Account.{
  success, reset_password, get_verify_code, ResetReq, verify_hashes, verify_row, login_valid,
  get_passwd_salt, user_named, has_email, new_password, differs, update_row, set_password,
  check_email_exist, update_password_by_email, reset_password_by_email, reset_password_handler,
}
use my_music.Account.Codes.{get_verify_code_new, new_code_there}

-- `first` of rows that keep their test under a change.
first-map :
    {A : Type 0} (f : A → Bool) (g : A → A) (xs : List A)
    → ((x : A) → f (g x) ≡ f x)
    → (a : A) → first f xs ≡ some a
    → first f (map g xs) ≡ some (g a)
first-map f g [] k a h = cc
first-map f g (x ∷ xs) k a h = elim (Bool-cases (f x)) [
  | inl y ↦ rw (k x, y) (ap (λ (o : Option _). map_first g o) (rw y at h))
  | inr y ↦ rw (k x, y) (first-map f g xs k a (rw y at h))
]
  where
    map_first : {A : Type 0} → (A → A) → Option A → Option A
    map_first g none = none
    map_first g (some a) = some (g a)

exists_in-first :
    {A : Type 0} (f q : A → Bool) (xs : List A) (a : A)
    → first f xs ≡ some a
    → q a ≡ true
    → exists_in q xs ≡ true
exists_in-first f q [] a h e = cc
exists_in-first f q (x ∷ xs) a h e = elim (Bool-cases (f x)) [
  | inl y ↦ let h' = (rw y at h) in let e' : q x ≡ true = cc (h', e) in rw e' refl
  | inr y ↦ rw (exists_in-first f q xs a (rw y at h) e) (or-true (q x))
]

after_reset : Text → Text → Text → World → World
after_reset email hash salt w = record w { db = set_password email hash salt w }

reset_lem :
    (email hash salt : Text) (w : World)
    → IsHealthy w
    → exists_in (has_email email w) w.users ≡ true
    → exists_in (λ u. if has_email email w u then differs hash salt u else false) w.users ≡ true
    → reset_password_by_email email hash salt w ≡ (ok success, after_reset email hash salt w)
unfolding reset_password_by_email check_email_exist update_password_by_email after_reset
reset_lem email hash salt w h e a = simp (fault_lem w h.no_faults, h.open_pool, e, a)

-- The user under a name is still the same, with the new password.
user_named-reset :
    (name email hash salt : Text) (w : World) (u : User)
    → user_named name w ≡ some u
    → has_email email w u ≡ true
    → user_named name (after_reset email hash salt w) ≡ some (new_password hash salt u)
unfolding after_reset
user_named-reset name email hash salt w u h e =
    first-map (λ (r : User). w.engine.same_text r.name name)
      (update_row (has_email email w) hash salt) w.users
      (λ x. keeps_name x (Bool-cases (has_email email w x))) u h
    ∙ rw e refl
  where
    keeps_name :
        (x : User)
        → (has_email email w x ≡ true) ⊎ (has_email email w x ≡ false)
        → w.engine.same_text (update_row (has_email email w) hash salt x).name name
          ≡ w.engine.same_text x.name name
    keeps_name x (inl y) = rw y refl
    keeps_name x (inr y) = rw y refl

take_all : (s : Text) → take (length s) s ≡ s
take_all [] = refl
take_all (b ∷ s) = rw (take_all s)

verify_hashes_self :
    (decode : Text → Text) (hash : Text) → verify_hashes decode hash hash ≡ some true
unfolding verify_hashes
verify_hashes_self decode hash =
    let same : ltb (length (decode hash)) (length (decode hash)) ≡ false = ground arith in
    rw (same, take_all (decode hash), text_eq_refl (decode hash)) refl

login_lem :
    (decode : Text → Text) (name given : Text) (w : World) (u : User)
    → IsHealthy w
    → user_named name w ≡ some u
    → login_valid decode name given w ≡ (ok (verify_row decode given (some u)), w)
unfolding login_valid
login_lem decode name given w u h e = simp (statement_lem w h.no_faults, h.open_pool, e)

salt_lem :
    (name : Text) (w : World) (u : User)
    → IsHealthy w
    → user_named name w ≡ some u
    → get_passwd_salt name w ≡ (ok (some u.password_salt), w)
unfolding get_passwd_salt
salt_lem name w u h e = simp (statement_lem w h.no_faults, h.open_pool, e)

-- The state behind a reset, and what a login finds in it.
pub record LogsIn (decode : Text → Text) (name hash salt other : Text) (u : User) (v : World)
    : Type 0 where
  pub salt_given : get_passwd_salt name v ≡ (ok (some salt), v)
  pub accepted : login_valid decode name hash v ≡ (ok (some (some u.id)), v)
  pub refused : login_valid decode name other v ≡ (ok (some none), v)

after_reset-LogsIn :
    (decode : Text → Text) (name email hash salt other : Text) (w : World) (u : User)
    → IsHealthy w
    → user_named name w ≡ some u
    → has_email email w u ≡ true
    → null hash ≡ false
    → verify_hashes decode hash other ≡ some false
    → LogsIn decode name hash salt other u (after_reset email hash salt w)
after_reset-LogsIn decode name email hash salt other w u h named mail n f =
    let v = after_reset email hash salt w in
    let there = user_named-reset name email hash salt w u named mail in
    let healthy : IsHealthy v =
      unfold after_reset in record { open_pool = h.open_pool; no_faults = h.no_faults } in
    record {
      salt_given = salt_lem name v (new_password hash salt u) healthy there;
      accepted =
          login_lem decode name hash v (new_password hash salt u) healthy there
          ∙ simp (n, verify_hashes_self decode hash);
      refused =
          login_lem decode name other v (new_password hash salt u) healthy there ∙ simp (n, f);
    }

module _ {S : Type 0} (redis : Redis S) where
  -- If Redis replies and holds no reset code for the address yet, no statement fails, and a user has
  -- this name and this address: within 600 seconds after `GetVerifyCode`, `/reset_password` with the
  -- code that was mailed sets a new password; behind it the user logs in with the new hash, finds the
  -- new salt, and is refused with any hash that `VerifyHashes` tells from the new one.
  pub reset_password_login :
      (decode : Text → Text) (name c other : Text) (r : ResetReq) (n : ℕ) (s : S) (w : World)
      (u : User)
      → IsUp redis
      → redis.get (reset_code r.email) s ≡ none
      → n < 600
      → r.verifycode ≡ c
      → IsHealthy w
      → user_named name w ≡ some u
      → has_email r.email w u ≡ true
      → null r.passwd_hash ≡ false
      → null r.passwd_salt ≡ false
      → text_eq u.password_hash r.passwd_hash ≡ false
      → verify_hashes decode r.passwd_hash other ≡ some false
      → let v =
          reset_password_handler redis
            (some r)
            (redis.elapse n (get_verify_code redis r.email reset_password c s).1)
            w in
        (v.0 ≡ ok success) × LogsIn decode name r.passwd_hash r.passwd_salt other u v.1
  unfolding reset_password_handler
  reset_password_login decode name c other r n s w u up e h given healthy named mail nh ns new
        wrong =
      let f =
        exists_in-first (λ (x : User). w.engine.same_text x.name name) (has_email r.email w) w.users
          u named mail in
      let a =
        exists_in-first (λ (x : User). w.engine.same_text x.name name)
          (λ x. if has_email r.email w x then differs r.passwd_hash r.passwd_salt x else false)
          w.users u named (simp (mail, new)) in
      rw (get_verify_code_new redis reset_password r.email c s up e) (
        simp
          (
            nh,
            ns,
            new_code_there redis reset_password r.email c n s up h,
            given,
            text_eq_refl c,
            reset_lem r.email r.passwd_hash r.passwd_salt w healthy f a,
          )
          (
            refl,
            after_reset-LogsIn decode name r.email r.passwd_hash r.passwd_salt other w u healthy
                named mail nh wrong,
          ))
