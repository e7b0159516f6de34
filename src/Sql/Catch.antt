-- ===== src/Sql/Catch.antt =====
-- What the effects guarantee whatever they run: a caught method throws no `SQLException`, and a
-- method without a connection does nothing.
use my_music.Base.{Bool-cases, inl, inr, List, [], ◌∷◌, Option, none, some, true, ◌≡◌, ◌≢◌, refl, ℕ}
use my_music.Sql.{
  Sql, World, Outcome, ok, raised, sql_exception, runtime_error, catch_sql, with_connection,
  recover, fault, statement,
}

recover-ne-sql :
    {A : Type 0} (d : A) (r : Outcome A) (w : World) (c : ℕ)
    → (recover d r w).0 ≢ raised (sql_exception c)
recover-ne-sql d (ok a) w c e = cc
recover-ne-sql d (raised (sql_exception c')) w c e = cc
recover-ne-sql d (raised runtime_error) w c e = cc

pub catch_sql-ne-sql :
    {A : Type 0} (d : A) (m : Sql A) (w : World) (c : ℕ)
    → (catch_sql d m w).0 ≢ raised (sql_exception c)
catch_sql-ne-sql d m w c = recover-ne-sql d (m w).0 (m w).1 c

-- The shape of most DAO methods.
pub method-ne-sql :
    {A : Type 0} (d : A) (m : Sql A) (w : World) (c : ℕ)
    → (with_connection d (catch_sql d m) w).0 ≢ raised (sql_exception c)
method-ne-sql d m w c = elim (Bool-cases w.stopped) [
  | inl y ↦ rw y (λ e. cc)
  | inr y ↦ simp y (recover-ne-sql d (m w).0 (m w).1 c)
]

pub with_connection-stopped :
    {A : Type 0} (d : A) (m : Sql A) (w : World)
    → w.stopped ≡ true
    → with_connection d m w ≡ (ok d, w)
with_connection-stopped d m w h = rw h refl

-- Where no fault is left, a statement only runs.
fault-nil : (fs : List (Option ℕ)) (w : World) → fs ≡ [] → fault fs w ≡ (ok tt, w)
fault-nil [] w h = refl
fault-nil (none ∷ fs) w h = cc
fault-nil (some c ∷ fs) w h = cc

pub statement_lem : (w : World) → w.faults ≡ [] → statement w ≡ (ok tt, w)
statement_lem w h = fault-nil w.faults w h

-- The same of a later state, which keeps the faults of `w`.
pub fault_lem : (w : World) → w.faults ≡ [] → (w' : World) → fault w.faults w' ≡ (ok tt, w')
fault_lem w h w' = fault-nil w.faults w' h

-- A statement runs, or throws a `SQLException`; the tables stay either way.
pub data Ran (w : World) (r : Outcome (Unit {0}) × World) : Type 0 where
  ran : (v : World) → r ≡ (ok tt, v) → v.db ≡ w.db → Ran w r
  failed : (v : World) (c : ℕ) → r ≡ (raised (sql_exception c), v) → v.db ≡ w.db → Ran w r

fault-Ran : (fs : List (Option ℕ)) (w : World) → Ran w (fault fs w)
fault-Ran [] w = ran w refl refl
fault-Ran (none ∷ fs) w = ran (record w { faults = fs }) refl refl
fault-Ran (some c ∷ fs) w = failed (record w { faults = fs }) c refl refl

pub statement-Ran : (w : World) → Ran w (statement w)
statement-Ran w = fault-Ran w.faults w
