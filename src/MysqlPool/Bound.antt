-- ===== src/MysqlPool/Bound.antt =====
-- What holds however the users of the pool and its check are interleaved.
use my_music.Base.{
  ℕ, ◌+◌, ◌≤◌, ◌<◌, ==_iff, ◌≡◌, refl, ap, Bool, Bool-cases, inl, inr, ◌==◌, Option, none, some,
  List, [], ◌∷◌, ◌++◌, length, length-append, ltb, arith, if◌then◌else◌,
}
use my_music.MysqlPool.{
  SqlConnection, MySqlPool, Phase, sleeping, taking, holding, reconnecting, check_step, re_connect,
  push, examine, take_front, front_of, opened, mysql_pool, get_connection, return_connection,
}
use my_music.MysqlPool.Users.{
  System, in_hand, count, holders, size, after_check, Step, Steps, got, returned, closed, begun,
  check_lost, check_won, done, more,
}

-- No connection has two holders, and those that live or failed are no more than n.
pub record IsBounded (n : ℕ) (s : System) : Type 0 where
  pub single : (k : ℕ) → holders k s ≤ 1
  pub bounded : size s + s.pool.fail_count ≤ n

count-append : (k : ℕ) (cs ds : List SqlConnection) → count k (cs ++ ds) ≡ count k cs + count k ds
count-append k [] ds = omega arith
count-append k (c ∷ cs) ds = omega (arith, count-append k cs ds)

front_of_lem :
    (cs : List SqlConnection) (p p' : MySqlPool) (c : SqlConnection)
    → front_of cs p ≡ some (some c, p')
    → (cs ≡ c ∷ p'.pool) × (p'.fail_count ≡ p.fail_count)
front_of_lem [] p p' c e = absurd cc
front_of_lem (d ∷ cs) p p' c e =
    let one : d ≡ c = cc in
    let two : record p { pool = cs } ≡ p' = cc in (rw (one, ← two) refl, rw (← two) refl)

get_connection_lem :
    (p p' : MySqlPool) (c : SqlConnection)
    → get_connection p ≡ some (some c, p')
    → (p.pool ≡ c ∷ p'.pool) × (p'.fail_count ≡ p.fail_count)
unfolding get_connection
get_connection_lem p p' c e = elim (Bool-cases p.b_stop) [
  | inl y ↦ absurd (cc (rw y at e))
  | inr y ↦ front_of_lem p.pool p p' c (simp y at e)
]

IsBounded-got :
    (n : ℕ) (s : System) (c : SqlConnection) (p : MySqlPool)
    → get_connection s.pool ≡ some (some c, p)
    → IsBounded n s
    → IsBounded n (record s { pool = p; lent = c ∷ s.lent })
IsBounded-got n s c p e h =
    let (one, two) = get_connection_lem s.pool p c e in
    record {
      single = λ k. omega (arith, h.single k, ap (count k) one);
      bounded = omega (arith, h.bounded, ap (λ (cs : List SqlConnection). length cs) one, two);
    }

push_counts :
    (k : ℕ) (c : SqlConnection) (p : MySqlPool)
    → (count k (push c p).pool ≡ count k p.pool + count k (c ∷ []))
      × (length (push c p).pool ≡ length p.pool + 1)
push_counts k c p = (count-append k p.pool (c ∷ []), length-append p.pool (c ∷ []))

IsBounded-returned :
    (n : ℕ) (s : System) (before after : List SqlConnection) (c : SqlConnection)
    → s.lent ≡ before ++ c ∷ after
    → IsBounded n s
    → IsBounded n (record s { pool = return_connection c s.pool; lent = before ++ after })
unfolding return_connection
IsBounded-returned n s before after c e h =
    let one : length s.lent ≡ length (before ++ c ∷ after) =
      ap (λ (cs : List SqlConnection). length cs) e in
    let counts : (k : ℕ) → count k s.lent ≡ count k (before ++ c ∷ after) = λ k. ap (count k) e in
    elim (Bool-cases s.pool.b_stop) [
      | inl y ↦ rw y (record {
        single = λ k. omega (
          arith,
          h.single k,
          counts k,
          count-append k before (c ∷ after),
          count-append k before after,
        );
        bounded =
            omega
              (arith, h.bounded, one, length-append before (c ∷ after), length-append before after);
      })
      | inr y ↦ rw y (record {
        single = λ k. omega (
          arith,
          h.single k,
          counts k,
          count-append k before (c ∷ after),
          count-append k before after,
          push_counts k c s.pool,
        );
        bounded = omega (
          arith,
          h.bounded,
          one,
          length-append before (c ∷ after),
          length-append before after,
          push_counts 0 c s.pool,
        );
      })
    ]

abbrev total : ℕ → MySqlPool × Phase → ℕ
total k (p, w) = count k p.pool + count k (in_hand w)

abbrev weight : MySqlPool × Phase → ℕ
weight (p, w) = length p.pool + length (in_hand w) + p.fail_count

abbrev new : ℕ → Option ℕ → ℕ
new k none = 0
new k (some j) = (if j == k then 1 else 0)

take_front_counts :
    (now target n k : ℕ) (cs : List SqlConnection) (p : MySqlPool)
    → p.pool ≡ cs
    → (total k (take_front now target n cs p) ≤ count k p.pool)
      × (weight (take_front now target n cs p) ≤ length p.pool + p.fail_count)
take_front_counts now target n k [] p e = (omega arith, omega arith)
take_front_counts now target n k (c ∷ cs) p e =
    (omega (arith, ap (count k) e), omega (arith, ap (λ (cs : List SqlConnection). length cs) e))

examine_counts :
    (answers : Bool) (now k : ℕ) (c : SqlConnection) (p : MySqlPool)
    → (count k (examine answers now c p).pool ≤ count k p.pool + count k (c ∷ []))
      × (length (examine answers now c p).pool + (examine answers now c p).fail_count
          ≤ length p.pool + 1 + p.fail_count)
examine_counts answers now k c p =
    let one = push_counts k c p in
    let two = push_counts k (record c { last_operate_time = now }) p in
    elim (Bool-cases (ltb (c.last_operate_time + 5) now)) [
      | inl y ↦ elim (Bool-cases answers) [
        | inl z ↦ simp (y, z) (omega (arith, two), omega (arith, two))
        | inr z ↦ simp (y, z) (omega arith, omega arith)
      ]
      | inr y ↦ simp y (omega (arith, one), omega (arith, one))
    ]

re_connect_counts :
    (now k : ℕ) (connected : Option ℕ) (p : MySqlPool)
    → 0 < p.fail_count
    → (total k (re_connect now connected p) ≤ count k p.pool + new k connected)
      × (weight (re_connect now connected p) ≤ length p.pool + p.fail_count)
re_connect_counts now k none p h = (omega arith, omega arith)
re_connect_counts now k (some j) p h =
    let one =
      push_counts k (record { conn = j; last_operate_time = now }) (record p { fail_count = 0 }) in
    (omega (arith, one), omega (arith, one))

check_step_counts :
    (answers : Bool) (connected : Option ℕ) (k : ℕ) (p : MySqlPool) (w : Phase)
    → (total k (check_step answers connected p w) ≤ total k (p, w) + new k connected)
      × (weight (check_step answers connected p w) ≤ weight (p, w))
unfolding check_step
check_step_counts answers connected k p sleeping = (omega arith, omega arith)
check_step_counts answers connected k p (taking now target n) =
    let front = take_front_counts now target n k p.pool p refl in
    elim (Bool-cases (ltb n target)) [
      | inl y ↦ simp y (omega (arith, front), omega (arith, front))
      | inr y ↦ simp y (omega arith, omega arith)
    ]
check_step_counts answers connected k p (holding c now target n) =
    let one = examine_counts answers now k c p in (omega (arith, one), omega (arith, one))
check_step_counts answers connected k p (reconnecting now) =
    elim (Bool-cases (ltb 0 p.fail_count)) [
      | inl y ↦
          let one = re_connect_counts now k connected p (ground arith) in
          simp y (omega (arith, one), omega (arith, one))
      | inr y ↦ simp y (omega arith, omega arith)
    ]

IsBounded-after_check :
    (n : ℕ) (s : System) (answers : Bool) (connected : Option ℕ)
    → ((k : ℕ) → holders k s + new k connected ≤ 1)
    → IsBounded n s
    → IsBounded n (after_check answers connected s)
IsBounded-after_check n s answers connected f h = record {
  single = λ k. omega (arith, f k, check_step_counts answers connected k s.pool s.phase);
  bounded = omega (arith, h.bounded, check_step_counts answers connected 0 s.pool s.phase);
}

fresh :
    (s : System) (j k : ℕ) → holders j s ≡ 0 → holders k s ≤ 1 → holders k s + new k (some j) ≤ 1
fresh s j k e h = elim (Bool-cases (j == k)) [
  | inl y ↦ rw y (omega (arith, ap (λ i. holders i s) ((==_iff j k).0 y)))
  | inr y ↦ rw y (omega arith)
]

IsBounded-Step : (n : ℕ) {s t : System} → Step s t → IsBounded n s → IsBounded n t
IsBounded-Step n {s} (got c p e) h = IsBounded-got n s c p e h
IsBounded-Step n {s} (returned before after c e) h = IsBounded-returned n s before after c e h
IsBounded-Step n closed h = record { single = h.single; bounded = h.bounded }
IsBounded-Step n {s} (begun now b c e) h = record {
  single = λ k. omega (arith, h.single k);
  bounded = omega (arith, h.bounded);
}
IsBounded-Step n {s} (check_lost answers) h =
    IsBounded-after_check n s answers none (λ k. omega (arith, h.single k)) h
IsBounded-Step n {s} (check_won answers k e) h =
    IsBounded-after_check n s answers (some k) (λ i. fresh s k i e (h.single i)) h

abbrev pub start : List (Option (ℕ × ℕ)) → System
start attempts = record {
  pool = (mysql_pool attempts).0;
  lent = [];
  started = (mysql_pool attempts).1;
  phase = sleeping;
}

length-opened : (attempts : List (Option (ℕ × ℕ))) → length (opened attempts).0 ≤ length attempts
length-opened [] = omega arith
length-opened (none ∷ rest) = omega arith
length-opened (some (k, now) ∷ rest) = omega (arith, length-opened rest)

-- Whatever its users and its check do, in any order, after the constructor, whose attempts give different
-- connections: no connection has two holders, and those that are idle, lent or in the check's hand and the
-- failures not yet made up for are together no more than the attempts. The driver gives a connection that
-- nobody has.
pub Steps-IsBounded :
    (attempts : List (Option (ℕ × ℕ))) {s : System}
    → ((k : ℕ) → count k (mysql_pool attempts).0.pool ≤ 1)
    → Steps (start attempts) s
    → IsBounded (length attempts) s
Steps-IsBounded attempts f done = record {
  single = λ k. omega (arith, f k);
  bounded = omega (arith, length-opened attempts);
}
Steps-IsBounded attempts f (more all one) =
    IsBounded-Step (length attempts) one (Steps-IsBounded attempts f all)
