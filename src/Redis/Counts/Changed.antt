-- ===== src/Redis/Counts/Changed.antt =====
-- The counts of all servers, under the changes that the servers make in any order.
use my_music.Base.{
  ℕ, suc, ◌+◌, ◌-◌, ◌<◌, ◌≤◌, ◌≡◌, refl, ap, ◌∙◌, pos, Bool-cases, inl, inr, Option, none, some,
  Text, text_eq, text_eq_iff, List, [], ◌∷◌, length, if◌then◌else◌, arith,
}
use my_music.Redis.{Redis, IsUp, login_count}
use my_music.Redis.Counts.{
  int_max, read_count, increase_count, decrease_count, init_count, del_count, to_string, digits,
}
use my_music.Redis.Counts.Kept.{
  with_count, read_count-with_count, increase_count_lem, decrease_count_lem,
}

-- What a server does to its count: it starts, a user logs in, a login is taken back, it stops.
pub data Change : Type 0 where
  starts login logout stops : Change

abbrev pub counted : Change → ℕ → ℕ
counted starts n = 0
counted login n = n + 1
counted logout n = n - 1
counted stops n = 0

abbrev pub at_server : Text → ℕ → (Text → ℕ) → Text → ℕ
at_server x n f y = if text_eq y x then n else f y

-- Each server's number, kept apart.
pub tally : List (Text × Change) → (Text → ℕ) → Text → ℕ
tally [] f = f
tally ((x, c) ∷ cs) f = tally cs (at_server x (counted c (f x)) f)

module _ {S : Type 0} (redis : Redis S) where
  pub change : Change → Text → S → Option S
  change starts x s = some (init_count redis x s)
  change login x s = increase_count redis x s
  change logout x s = decrease_count redis x s
  change stops x s = some (del_count redis x s)

  -- `none` is an exception of a change.
  pub run : List (Text × Change) → Option S → Option S
  run cs none = none
  run [] (some s) = some s
  run ((x, c) ∷ cs) (some s) = run cs (change c x s)

  -- What Redis says of each server.
  abbrev pub IsCounted : (Text → ℕ) → S → Type 0
  IsCounted f s = (x : Text) → read_count redis x s ≡ some (pos (f x))

  pub record Counts (f : Text → ℕ) (r : Option S) : Type 0 where
    pub after : S
    pub same : r ≡ some after
    pub kept : IsCounted f after

  read_count_other :
      (x : Text) (s t : S)
      → IsUp redis
      → redis.get (login_count x) t ≡ redis.get (login_count x) s
      → read_count redis x t ≡ read_count redis x s
  read_count_other x s t up e = rw (up s, up t, e) refl

  with_count-IsCounted :
      (x : Text) (n : ℕ) (f : Text → ℕ) (s : S)
      → IsUp redis
      → n ≤ int_max
      → IsCounted f s
      → IsCounted (at_server x n f) (with_count redis x n s)
  with_count-IsCounted x n f s up h k y = elim (Bool-cases (text_eq y x)) [
    | inl e ↦ rw e (rw ((text_eq_iff y x).0 e) (read_count-with_count redis x n s up h))
    | inr e ↦ rw e (
        read_count_other y s (with_count redis x n s) up
          (redis.set_other (login_count x) (login_count y) _ s e)
        ∙ k y)
  ]

  init_count_lem : (x : Text) (s : S) → IsUp redis → init_count redis x s ≡ with_count redis x 0 s
  unfolding init_count to_string digits
  init_count_lem x s up = rw (up s, init_count) refl

  del_count-IsCounted :
      (x : Text) (f : Text → ℕ) (s : S)
      → IsUp redis
      → IsCounted f s
      → IsCounted (at_server x 0 f) (del_count redis x s)
  unfolding del_count
  del_count-IsCounted x f s up k y =
      rw (up s, del_count)
        (elim (Bool-cases (text_eq y x)) [
          | inl e ↦ rw e (
              rw
                (
                  (text_eq_iff y x).0 e,
                  up (redis.del (login_count x) s),
                  redis.del_lem (login_count x) s,
                )
                refl)
          | inr e ↦ rw e (
              read_count_other y s (redis.del (login_count x) s) up
                (redis.del_other (login_count x) (login_count y) s e)
              ∙ k y)
        ])

  change_lem :
      (c : Change) (x : Text) (f : Text → ℕ) (s : S)
      → IsUp redis
      → f x < int_max
      → IsCounted f s
      → Counts (at_server x (counted c (f x)) f) (change c x s)
  unfolding change
  change_lem starts x f s up h k = record {
    after = with_count redis x 0 s;
    same = ap some (init_count_lem x s up);
    kept = with_count-IsCounted x 0 f s up (omega arith) k;
  }
  change_lem login x f s up h k = record {
    after = with_count redis x (f x + 1) s;
    same = increase_count_lem redis x (f x) s up (k x) h;
    kept = with_count-IsCounted x (f x + 1) f s up (omega arith) k;
  }
  change_lem logout x f s up h k = record {
    after = with_count redis x (f x - 1) s;
    same = decrease_count_lem redis x (f x) s up (k x);
    kept = with_count-IsCounted x (f x - 1) f s up (omega arith) k;
  }
  change_lem stops x f s up h k = record {
    after = del_count redis x s;
    same = refl;
    kept = del_count-IsCounted x f s up k;
  }

  counted_up : (c : Change) (n : ℕ) → counted c n ≤ suc n
  counted_up starts n = omega arith
  counted_up login n = omega arith
  counted_up logout n = omega arith
  counted_up stops n = omega arith

  at_server_up :
      (c : Change) (x y : Text) (f : Text → ℕ) → at_server x (counted c (f x)) f y ≤ suc (f y)
  at_server_up c x y f = elim (Bool-cases (text_eq y x)) [
    | inl e ↦ rw e (rw ((text_eq_iff y x).0 e) (counted_up c (f x)))
    | inr e ↦ rw e (omega arith)
  ]

  -- If Redis replies and has a number for each server, then after any changes of any servers, in any
  -- order, it has each server's own tally: one more for each login, one less down to 0 for each login
  -- taken back, 0 from a start or a stop. No change throws, if the number of changes and what was there
  -- are together at most the greatest int.
  pub run-tally :
      (cs : List (Text × Change)) (f : Text → ℕ) (s : S)
      → IsUp redis
      → IsCounted f s
      → ((x : Text) → f x + length cs ≤ int_max)
      → Counts (tally cs f) (run cs (some s))
  unfolding run tally
  run-tally [] f s up k h = record { after = s; same = refl; kept = k }
  run-tally ((x, c) ∷ cs) f s up k h =
      let a = change_lem c x f s up (omega (arith, h x)) k in
      let rest =
        run-tally cs (at_server x (counted c (f x)) f) a.after up a.kept
          (λ y. omega (arith, h y, at_server_up c x y f)) in
      record { after = rest.after; same = ap (run cs) a.same ∙ rest.same; kept = rest.kept }
