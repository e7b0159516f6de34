-- ===== src/Redis/Lock/Exclusion.antt =====
-- At most one holder of a lock at a time, as long as no one holds it longer than its time to live.
use my_music.Base.{
  ℕ, ◌-◌, ◌<◌, ◌≡◌, ◌≢◌, refl, true, false, Bool-cases, inl, inr, none, some, Text, text_eq, lt→ltb,
  get_elem?, suc, zero, null, List, [], ◌∷◌, map, select, not, All, arith,
}
use my_music.Redis.Lock.{Slot, set_nx, compare_and_delete, elapse, release_lock}

-- A client that got the lock and did not give it back, with the seconds before its time is up.
abbrev pub Holder : Type 0
Holder = Text × ℕ

pub record Clients : Type 0 where
  pub slot : Slot
  pub holders : List Holder

abbrev aged : ℕ → Holder → Holder
aged n (id, left) = (id, left - n)

abbrev IsNamed : Text → Holder → Type 0
IsNamed id h = h.0 ≡ id

abbrev others : Text → List Holder → List Holder
others id = select (λ h. not (text_eq h.0 id))

-- One try of a client with a new identifier, which is not empty; the give-back; and time.
pub data Step (c : Clients) : Clients → Type 0 where
  got :
      (id : Text) (ttl : ℕ)
      → null id ≡ false
      → All (λ h. h.0 ≢ id) c.holders
      → (set_nx id ttl c.slot).0 ≡ true
      → Step c (record { slot = (set_nx id ttl c.slot).1; holders = (id, ttl) ∷ c.holders })
  missed :
      (id : Text) (ttl : ℕ)
      → (set_nx id ttl c.slot).0 ≡ false
      → Step c (record { slot = (set_nx id ttl c.slot).1; holders = c.holders })
  released :
      (id : Text)
      → Step c (record { slot = (release_lock id c.slot).1; holders = others id c.holders })
  passed : (n : ℕ) → Step c (record { slot = elapse n c.slot; holders = map (aged n) c.holders })

pub data Steps (c : Clients) : Clients → Type 0 where
  done : Steps c c
  more : {d e : Clients} → Steps c d → Step d e → Steps c e

-- A holder whose time is not up is the one that the key names, with the time that the key has.
abbrev Backed : Slot → Holder → Type 0
Backed s h = 0 < h.1 → s ≡ some h

pub IsBacked : Clients → Type 0
IsBacked c = All (Backed c.slot) c.holders

none_in_time : (hs : List Holder) (s t : Slot) → s ≡ none → All (Backed s) hs → All (Backed t) hs
none_in_time [] s t e a = tt
none_in_time (h ∷ hs) s t e a = (λ p. absurd (cc (e, a.0 p)), none_in_time hs s t e a.1)

set_nx-free :
    (id : Text) (ttl : ℕ) (s : Slot)
    → (set_nx id ttl s).0 ≡ true
    → (s ≡ none) × ((set_nx id ttl s).1 ≡ some (id, ttl))
set_nx-free id ttl none e = (refl, refl)
set_nx-free id ttl (some h) e = cc

set_nx-taken :
    (id : Text) (ttl : ℕ) (s : Slot) → (set_nx id ttl s).0 ≡ false → (set_nx id ttl s).1 ≡ s
set_nx-taken id ttl none e = cc
set_nx-taken id ttl (some h) e = refl

elapsed : (n : ℕ) (s : Slot) (h : Holder) → s ≡ some h → n < h.1 → elapse n s ≡ some (aged n h)
elapsed n s (id, left) e l = rw (e, lt→ltb n left l) refl

elapse-Backed :
    (n : ℕ) (s : Slot) (hs : List Holder)
    → All (Backed s) hs
    → All (Backed (elapse n s)) (map (aged n) hs)
elapse-Backed n s [] a = tt
elapse-Backed n s (h ∷ hs) a =
    (λ p. elapsed n s h (a.0 (omega arith)) (omega arith), elapse-Backed n s hs a.1)

kept :
    (id : Text) (s : Slot) (h : Holder)
    → text_eq h.0 id ≡ false
    → s ≡ some h
    → (compare_and_delete id s).1 ≡ some h
kept id s (other, left) y e = rw (e, y) refl

others-All : (P : Holder → Type 0) (id : Text) (hs : List Holder) → All P hs → All P (others id hs)
others-All P id [] a = tt
others-All P id (h ∷ hs) a = elim (Bool-cases (text_eq h.0 id)) [
  | inl y ↦ rw y (others-All P id hs a.1)
  | inr y ↦ rw y (a.0, others-All P id hs a.1)
]

released-Backed :
    (id : Text) (s : Slot) (hs : List Holder)
    → All (Backed s) hs
    → All (Backed (compare_and_delete id s).1) (others id hs)
released-Backed id s [] a = tt
released-Backed id s (h ∷ hs) a = elim (Bool-cases (text_eq h.0 id)) [
  | inl y ↦ rw y (released-Backed id s hs a.1)
  | inr y ↦ rw y (λ p. kept id s h y (a.0 p), released-Backed id s hs a.1)
]

release_lock-Backed :
    (id : Text) (c : Clients)
    → IsBacked c
    → All (Backed (release_lock id c.slot).1) (others id c.holders)
unfolding release_lock IsBacked
release_lock-Backed id c a = elim (Bool-cases (null id)) [
  | inl y ↦ rw y (others-All (Backed c.slot) id c.holders a)
  | inr y ↦ rw y (released-Backed id c.slot c.holders a)
]

Step-IsBacked : {c d : Clients} → Step c d → IsBacked c → IsBacked d
unfolding IsBacked
Step-IsBacked {c} (got id ttl n f e) a =
    let free = set_nx-free id ttl c.slot e in
    (λ p. free.1, none_in_time c.holders c.slot (set_nx id ttl c.slot).1 free.0 a)
Step-IsBacked {c} (missed id ttl e) a = rw (set_nx-taken id ttl c.slot e) a
Step-IsBacked {c} (released id) a = release_lock-Backed id c (unfold IsBacked in a)
Step-IsBacked {c} (passed n) a = elapse-Backed n c.slot c.holders a

Steps-IsBacked : {c d : Clients} → Steps c d → IsBacked c → IsBacked d
Steps-IsBacked done a = a
Steps-IsBacked (more rest last) a = Step-IsBacked last (Steps-IsBacked rest a)

All-get_elem? :
    (P : Holder → Type 0) (hs : List Holder) (i : ℕ) (h : Holder)
    → All P hs
    → get_elem? hs i ≡ some h
    → P h
All-get_elem? P [] i h a e = cc
All-get_elem? P (x ∷ hs) zero h a e = let e' : x ≡ h = cc e in rw (← e') a.0
All-get_elem? P (x ∷ hs) (suc i) h a e = All-get_elem? P hs i h a.1 e

-- However clients with new identifiers try for the lock, give it back (also late, when another has it
-- already) and let time pass, from a state with no client: two clients that hold the lock, and whose
-- times to live are not up, are the same.
pub Steps-exclusive :
    (s : Slot) (c : Clients) (i j : ℕ) (g h : Holder)
    → Steps (record { slot = s; holders = [] }) c
    → get_elem? c.holders i ≡ some g
    → get_elem? c.holders j ≡ some h
    → 0 < g.1
    → 0 < h.1
    → g ≡ h
Steps-exclusive s c i j g h steps eg eh pg ph =
    let a : All (Backed c.slot) c.holders = unfold IsBacked in Steps-IsBacked steps tt in
    let x = All-get_elem? (Backed c.slot) c.holders i g a eg pg in
    let y = All-get_elem? (Backed c.slot) c.holders j h a eh ph in cc (x, y)
