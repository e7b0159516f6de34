-- ===== src/Tests/Locks.antt =====
-- One client holds the lock and another tries in vain; and the steps of the registration codes.
use my_music.Base.{◌≡◌, refl, none, some, [], ◌∷◌, codes, arith}
use my_music.Redis.Lock.Exclusion.{
  Holder, Clients, Steps, done, more, got, missed, passed, Steps-exclusive,
}

abbrev held_by_a : Clients
held_by_a = record { slot = some (codes "a", 7); holders = (codes "a", 7) ∷ [] }

contested : Steps (record { slot = none; holders = [] }) held_by_a
contested =
    more (more (more done (got (codes "a") 10 refl tt refl)) (missed (codes "b") 10 refl))
      (passed 3)

Steps-exclusive_example : ◌≡◌ {A = Holder} (codes "a", 7) (codes "a", 7)
Steps-exclusive_example =
    Steps-exclusive none held_by_a 0 0 (codes "a", 7) (codes "a", 7) contested refl refl
      (omega arith) (omega arith)
