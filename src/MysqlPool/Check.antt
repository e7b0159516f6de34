-- ===== src/MysqlPool/Check.antt =====
-- A check that no other thread interrupts.
use my_music.Base.{
  ℕ, zero, suc, ◌+◌, ◌-◌, ◌≤◌, ◌*◌, ◌≡◌, refl, sym, ◌∙◌, Bool, Bool-cases, inl, inr, not, true,
  false, Option, ap, ◌<◌, none, some, List, [], ◌∷◌, ◌++◌, map, append-nil, append_assoc, length,
  select, ltb, lt→ltb, arith, if◌then◌else◌,
}
use my_music.MysqlPool.{
  SqlConnection, MySqlPool, Phase, sleeping, taking, holding, reconnecting, begin_check, check_step,
  re_connect, push, examine,
}

-- What `select 1` gives on a connection, and what `connect` gives.
pub run_check : (ℕ → Bool) → Option ℕ → ℕ → MySqlPool → Phase → MySqlPool × Phase
run_check answers connected zero p w = (p, w)
run_check answers connected (suc f) p sleeping = (p, sleeping)
run_check answers connected (suc f) p (taking now target n) =
    let (p', w) = check_step true connected p (taking now target n) in
    run_check answers connected f p' w
run_check answers connected (suc f) p (holding c now target n) =
    let (p', w) = check_step (answers c.conn) connected p (holding c now target n) in
    run_check answers connected f p' w
run_check answers connected (suc f) p (reconnecting now) =
    let (p', w) = check_step true connected p (reconnecting now) in
    run_check answers connected f p' w

abbrev pub healthy : (ℕ → Bool) → ℕ → SqlConnection → Bool
healthy answers now c = if ltb (c.last_operate_time + 5) now then answers c.conn else true

abbrev pub refreshed : ℕ → SqlConnection → SqlConnection
refreshed now c =
    if ltb (c.last_operate_time + 5) now then record c { last_operate_time = now } else c

-- The healthy ones in their order.
abbrev pub kept : (ℕ → Bool) → ℕ → List SqlConnection → List SqlConnection
kept answers now cs = map (refreshed now) (select (healthy answers now) cs)

abbrev pub failed : (ℕ → Bool) → ℕ → List SqlConnection → ℕ
failed answers now cs = length (select (λ c. not (healthy answers now c)) cs)

-- One connection for all the failures, if there are any and `connect` gives one.
abbrev pub replaced : ℕ → Option ℕ → ℕ → MySqlPool → MySqlPool
replaced now connected zero p = record p { fail_count = 0 }
replaced now none (suc k) p = record p { fail_count = suc k }
replaced now (some c) (suc k) p =
    push (record { conn = c; last_operate_time = now }) (record p { fail_count = 0 })

abbrev with_pool : Bool → List SqlConnection → ℕ → MySqlPool
with_pool b cs k = record { pool = cs; b_stop = b; fail_count = k }

-- Two steps for each connection, and m more.
abbrev steps_for : List SqlConnection → ℕ → ℕ
steps_for [] m = m
steps_for (c ∷ cs) m = suc (suc (steps_for cs m))

steps_for_lem : (cs : List SqlConnection) (m : ℕ) → steps_for cs m ≡ 2 * length cs + m
steps_for_lem [] m = omega arith
steps_for_lem (c ∷ cs) m = omega (arith, steps_for_lem cs m)

asleep :
    (answers : ℕ → Bool) (connected : Option ℕ) (g : ℕ) (p : MySqlPool)
    → run_check answers connected g p sleeping ≡ (p, sleeping)
unfolding run_check
asleep answers connected zero p = refl
asleep answers connected (suc g) p = refl

reconnect_step :
    (answers : ℕ → Bool) (connected : Option ℕ) (now f k : ℕ) (p : MySqlPool)
    → run_check answers connected (suc f) (record p { fail_count = suc k }) (reconnecting now) ≡ (
        let (p', w) = re_connect now connected (record p { fail_count = suc k }) in
        run_check answers connected f p' w)
unfolding run_check check_step
reconnect_step answers connected now f k p =
    let some_failed : ltb 0 (suc k) ≡ true = ground arith in rw some_failed refl

no_failure :
    (answers : ℕ → Bool) (connected : Option ℕ) (now f : ℕ) (p : MySqlPool)
    → run_check answers connected (suc f) (record p { fail_count = 0 }) (reconnecting now)
      ≡ (record p { fail_count = 0 }, sleeping)
unfolding run_check check_step
no_failure answers connected now f p = asleep answers connected f (record p { fail_count = 0 })

reconnected :
    (answers : ℕ → Bool) (connected : Option ℕ) (now g k : ℕ) (p : MySqlPool)
    → run_check answers connected (suc (suc g)) (record p { fail_count = k }) (reconnecting now)
      ≡ (replaced now connected k p, sleeping)
reconnected answers connected now g zero p = no_failure answers connected now (suc g) p
reconnected answers none now g (suc k) p =
    reconnect_step answers none now (suc g) k p
    ∙ asleep answers none (suc g) (record p { fail_count = suc k })
reconnected answers (some c) now g (suc k) p =
    reconnect_step answers (some c) now (suc g) k p
    ∙ no_failure answers (some c) now g (replaced now (some c) (suc k) p)

module _ (answers : ℕ → Bool) (connected : Option ℕ) (now : ℕ) where
  examine_lem :
      (k : ℕ) (b : Bool) (c : SqlConnection) (cs : List SqlConnection)
      → examine (answers c.conn) now c (with_pool b cs k)
        ≡ with_pool b (cs ++ kept answers now (c ∷ [])) (k + failed answers now (c ∷ []))
  examine_lem k b c cs =
      let same : k + 0 ≡ k = omega arith in
      let next : k + 1 ≡ suc k = omega arith in
      elim (Bool-cases (ltb (c.last_operate_time + 5) now)) [
        | inl y ↦ elim (Bool-cases (answers c.conn)) [
          | inl z ↦ simp (y, z, same)
          | inr z ↦ simp (y, z, next, append-nil cs)
        ]
        | inr y ↦ simp (y, same)
      ]

  kept_first :
      (c : SqlConnection) (cs : List SqlConnection)
      → (kept answers now (c ∷ cs) ≡ kept answers now (c ∷ []) ++ kept answers now cs)
        × (failed answers now (c ∷ cs) ≡ failed answers now (c ∷ []) + failed answers now cs)
  kept_first c cs = elim (Bool-cases (healthy answers now c)) [
    | inl y ↦ rw y (refl, omega arith)
    | inr y ↦ rw y (refl, omega arith)
  ]

  examined :
      (f target n k : ℕ) (b : Bool) (c : SqlConnection) (cs done : List SqlConnection)
      → run_check answers connected (suc f) (with_pool b (cs ++ done) k) (holding c now target n)
        ≡ run_check answers connected f
            (with_pool b
              (cs ++ (done ++ kept answers now (c ∷ [])))
              (k + failed answers now (c ∷ [])))
            (taking now target (suc n))
  unfolding run_check check_step
  examined f target n k b c cs done =
      rw (examine_lem k b c (cs ++ done), append_assoc cs done (kept answers now (c ∷ []))) refl

  taken :
      (f target n k : ℕ) (b : Bool) (c : SqlConnection) (cs : List SqlConnection)
      → n < target
      → run_check answers connected (suc f) (with_pool b (c ∷ cs) k) (taking now target n)
        ≡ run_check answers connected f (with_pool b cs k) (holding c now target n)
  unfolding run_check check_step
  taken f target n k b c cs h = rw (lt→ltb n target h) refl

  rounds_over :
      (f target k : ℕ) (b : Bool) (cs : List SqlConnection)
      → run_check answers connected (suc f) (with_pool b cs k) (taking now target target)
        ≡ run_check answers connected f (with_pool b cs k) (reconnecting now)
  unfolding run_check check_step
  rounds_over f target k b cs = let last : ltb target target ≡ false = ground arith in rw last refl

  rounds :
      (cs done : List SqlConnection) (f target n k : ℕ) (b : Bool)
      → n + length cs ≡ target
      → run_check answers connected
          (steps_for cs (suc f))
          (with_pool b (cs ++ done) k)
          (taking now target n)
        ≡ run_check answers connected f
            (with_pool b (done ++ kept answers now cs) (k + failed answers now cs))
            (reconnecting now)
  rounds [] done f target n k b e =
      let same : k + 0 ≡ k = omega arith in
      let last : n ≡ target = omega arith in
      rw (last, append-nil done, same) (rounds_over f target k b done)
  rounds (c ∷ cs) done f target n k b e =
      let (one, two) = kept_first c cs in
      let rest =
        rounds cs (done ++ kept answers now (c ∷ [])) f target (suc n)
          (k + failed answers now (c ∷ [])) b (omega arith) in
      let sum : (k + failed answers now (c ∷ [])) + failed answers now cs
          ≡ k + failed answers now (c ∷ cs) =
        omega (arith, two) in
      let list : (done ++ kept answers now (c ∷ [])) ++ kept answers now cs
          ≡ done ++ kept answers now (c ∷ cs) =
        append_assoc done (kept answers now (c ∷ [])) (kept answers now cs)
        ∙ ap (λ x. done ++ x) (sym one) in
      taken (suc (steps_for cs (suc f))) target n k b c (cs ++ done) (omega arith)
      ∙ examined (steps_for cs (suc f)) target n k b c cs done
      ∙ rest
      ∙ ap
          (λ x.
            run_check answers connected f
              (with_pool b x (k + failed answers now (c ∷ []) + failed answers now cs))
              (reconnecting now))
          list
      ∙ ap
          (λ x.
            run_check answers connected f (with_pool b (done ++ kept answers now (c ∷ cs)) x)
              (reconnecting now))
          sum

  -- A check that runs alone ends after at most two steps for each idle connection and three more. Then the
  -- pool has the connections that answer, or were used at most five seconds before, in their order; if any
  -- failed, now or before, and `connect` gives a connection, that one stands behind them and the failures
  -- are forgotten, however many there were.
  pub run_check-replaced :
      (f : ℕ) (p : MySqlPool)
      → 2 * length p.pool + 3 ≤ f
      → run_check answers connected f p (begin_check now p) ≡ (
        replaced now connected
            (p.fail_count + failed answers now p.pool)
            (record p { pool = kept answers now p.pool }),
        sleeping,
      )
  run_check-replaced f p h =
      let g = f - (2 * length p.pool + 3) in
      let enough : steps_for p.pool (suc (suc (suc g))) ≡ f =
        omega (arith, steps_for_lem p.pool (suc (suc (suc g)))) in
      let all =
        rounds p.pool [] (suc (suc g)) (length p.pool) 0 p.fail_count p.b_stop (omega arith) in
      let whole = rw (append-nil p.pool, enough) at all in
      whole
      ∙ reconnected answers connected now g (p.fail_count + failed answers now p.pool)
          (record p { pool = kept answers now p.pool })
