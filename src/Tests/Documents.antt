-- ===== src/Tests/Documents.antt =====
-- A printer and a reader of documents, for which the laws of the two JSON libraries hold.
use my_music.Base.{
  ℕ, zero, suc, ◌≤◌, ◌==◌, ◌≡◌, refl, ℤ, pos, negsuc, Bool, true, false, Option, none, some, Text,
  List, [], ◌∷◌, ◌++◌, append_assoc, append-nil, length, length-append, take, drop, arith,
  if◌then◌else◌,
}
use my_music.Json.{
  Json, Items, Members, null, bool, int, str, arr, obj, no_items, item, no_members, member, lookup,
  has, Qt, ReadsStyled, map_items,
}

abbrev text : Text → Text
text s = length s ∷ s

unfoldable mutual
  pub styled : Json → Text
  styled null = 0 ∷ []
  styled (bool true) = 1 ∷ []
  styled (bool false) = 2 ∷ []
  styled (int (pos n)) = 3 ∷ n ∷ []
  styled (int (negsuc n)) = 4 ∷ n ∷ []
  styled (str s) = 5 ∷ text s
  styled (arr vs) = 6 ∷ styled_items vs
  styled (obj ps) = 7 ∷ styled_members ps

  styled_items : Items → Text
  styled_items no_items = 0 ∷ []
  styled_items (item v vs) = 1 ∷ styled v ++ styled_items vs

  styled_members : Members → Text
  styled_members no_members = 0 ∷ []
  styled_members (member k v ps) = 1 ∷ text k ++ (styled v ++ styled_members ps)

abbrev then_read :
    {A B : Type 0} → Option (A × Text) → (A → Text → Option (B × Text)) → Option (B × Text)
then_read none k = none
then_read (some (a, t)) k = k a t

abbrev read_text : Text → Option (Text × Text)
read_text [] = none
read_text (n ∷ t) = some (take n t, drop n t)

abbrev read_int : (ℕ → ℤ) → Text → Option (Json × Text)
read_int f [] = none
read_int f (n ∷ t) = some (int (f n), t)

mutual
  pub read : ℕ → Text → Option (Json × Text)
  read zero t = none
  read (suc f) [] = none
  read (suc f) (k ∷ t) =
      let vs = read_items f t in
      let ps = read_members f t in
      if k == 0
      then some (null, t)
      else if k == 1
      then some (bool true, t)
      else if k == 2
      then some (bool false, t)
      else if k == 3
      then read_int pos t
      else if k == 4
      then read_int negsuc t
      else if k == 5
      then then_read (read_text t) (λ s t'. some (str s, t'))
      else if k == 6
      then then_read vs (λ v t'. some (arr v, t'))
      else then_read ps (λ p t'. some (obj p, t'))

  read_items : ℕ → Text → Option (Items × Text)
  read_items zero t = none
  read_items (suc f) [] = none
  read_items (suc f) (k ∷ t) =
      let more =
        then_read (read f t)
          (λ v t'. then_read (read_items f t') (λ vs t''. some (item v vs, t''))) in
      if k == 0 then some (no_items, t) else more

  read_members : ℕ → Text → Option (Members × Text)
  read_members zero t = none
  read_members (suc f) [] = none
  read_members (suc f) (k ∷ t) =
      let more = then_read (read_text t) (λ n t1.
        then_read (read f t1)
          (λ v t2. then_read (read_members f t2) (λ ps t3. some (member n v ps, t3)))) in
      if k == 0 then some (no_members, t) else more

drop-append : (s t : Text) → drop (length s) (s ++ t) ≡ t
drop-append [] t = refl
drop-append (b ∷ s) t = drop-append s t

take-append : (s t : Text) → take (length s) (s ++ t) ≡ s
take-append [] t = refl
take-append (b ∷ s) t = rw (take-append s t)

not_empty : (v : Json) → 1 ≤ length (styled v)
unfolding styled
not_empty null = omega arith
not_empty (bool true) = omega arith
not_empty (bool false) = omega arith
not_empty (int (pos n)) = omega arith
not_empty (int (negsuc n)) = omega arith
not_empty (str s) = omega arith
not_empty (arr vs) = omega arith
not_empty (obj ps) = omega arith

mutual
  unfolding styled read

  read-styled :
      (v : Json) (f : ℕ) (t : Text) → length (styled v) ≤ f → read f (styled v ++ t) ≡ some (v, t)
  read-styled v zero t h = absurd (omega (arith, h, not_empty v))
  read-styled null (suc f) t h = refl
  read-styled (bool true) (suc f) t h = refl
  read-styled (bool false) (suc f) t h = refl
  read-styled (int (pos n)) (suc f) t h = refl
  read-styled (int (negsuc n)) (suc f) t h = refl
  read-styled (str s) (suc f) t h = rw (take-append s t, drop-append s t) refl
  read-styled (arr vs) (suc f) t h = rw (read_items-styled_items vs f t (omega (arith, h))) refl
  read-styled (obj ps) (suc f) t h = rw (read_members-styled_members ps f t (omega (arith, h))) refl

  read_items-styled_items :
      (vs : Items) (f : ℕ) (t : Text)
      → length (styled_items vs) ≤ f
      → read_items f (styled_items vs ++ t) ≡ some (vs, t)
  read_items-styled_items no_items zero t h = absurd (omega (arith, h))
  read_items-styled_items (item v vs) zero t h = absurd (omega (arith, h))
  read_items-styled_items no_items (suc f) t h = refl
  read_items-styled_items (item v vs) (suc f) t h =
      let l = length-append (styled v) (styled_items vs) in
      rw
        (
          append_assoc (styled v) (styled_items vs) t,
          read-styled v f (styled_items vs ++ t) (omega (arith, h, l)),
          read_items-styled_items vs f t (omega (arith, h, l)),
        )
        refl

  read_members-styled_members :
      (ps : Members) (f : ℕ) (t : Text)
      → length (styled_members ps) ≤ f
      → read_members f (styled_members ps ++ t) ≡ some (ps, t)
  read_members-styled_members no_members zero t h = absurd (omega (arith, h))
  read_members-styled_members (member k v ps) zero t h = absurd (omega (arith, h))
  read_members-styled_members no_members (suc f) t h = refl
  read_members-styled_members (member k v ps) (suc f) t h =
      let l = length-append (styled v) (styled_members ps) in
      let m = length-append k (styled v ++ styled_members ps) in
      rw
        (
          append_assoc k (styled v ++ styled_members ps) t,
          append_assoc (styled v) (styled_members ps) t,
          take-append k (styled v ++ (styled_members ps ++ t)),
          drop-append k (styled v ++ (styled_members ps ++ t)),
          read-styled v f (styled_members ps ++ t) (omega (arith, h, l, m)),
          read_members-styled_members ps f t (omega (arith, h, l, m)),
        )
        refl

-- A value that may be undefined.
abbrev object_of : Option (Json × Text) → Option (Option Json)
object_of none = none
object_of (some (obj ps, t)) = some (some (obj ps))
object_of (some _) = some (some (obj no_members))

abbrev contains : Option Json → Text → Bool
contains (some (obj ps)) k = has k ps
contains _ k = false

abbrev value : Option Json → Text → Option Json
value (some (obj ps)) k = lookup k ps
value _ k = none

abbrev to_int : ℤ → Option Json → ℤ
to_int d (some (int n)) = n
to_int d _ = d

abbrev to_text : Option Json → Text
to_text (some (str s)) = s
to_text _ = []

abbrev to_bool : Option Json → Bool
to_bool (some (bool b)) = b
to_bool _ = false

abbrev to_array : Option Json → List (Option Json)
to_array (some (arr vs)) = map_items some vs
to_array _ = []

abbrev to_object : Option Json → Option Json
to_object (some (obj ps)) = some (obj ps)
to_object _ = some (obj no_members)

abbrev pub documents : Qt (Option Json)
documents = record {
  is_utf8 = λ s. true;
  from_json = λ t. object_of (read (length t) t);
  contains = contains;
  value = value;
  to_int = to_int;
  to_text = to_text;
  to_bool = to_bool;
  to_array = to_array;
  to_object = to_object;
}

parsed :
    (ps : Members)
    → object_of (read (length (styled (obj ps))) (styled (obj ps))) ≡ some (some (obj ps))
parsed ps =
    let one = read-styled (obj ps) (length (styled (obj ps))) [] (omega arith) in
    rw (rw (append-nil (styled (obj ps))) at one) refl

pub documents-ReadsStyled : ReadsStyled documents styled
documents-ReadsStyled = record {
  of = some;
  ascii_lem = λ s e. refl;
  parsed = λ ps r. parsed ps;
  contains_lem = λ k ps r. refl;
  value_lem = λ k ps v r e. e;
  int_lem = λ d n i. refl;
  text_lem = λ s e. refl;
  bool_lem = λ b. refl;
  array_lem = λ vs r. refl;
  object_lem = λ ps r. refl;
  no_array = λ k ps r e. rw e refl;
}
