-- ===== src/Json/Fields.antt =====
-- What the client reads of a field.
use my_music.Base.{◌≡◌, ℤ, Bool, Bool-cases, inl, inr, some, Text, text_eq}
use my_music.Json.{
  Json, Members, int, bool, str, obj, arr, no_members, member, Items, lookup, Qt, Readable,
  ReadsStyled, map_items,
}

module _ {J : Type 0} (qt : Qt J) where
  pub lookup-Readable :
      (k : Text) (ps : Members) (v : Json)
      → Readable qt (obj ps)
      → lookup k ps ≡ some v
      → Readable qt v
  unfolding Readable
  lookup-Readable k no_members v r e = absurd cc
  lookup-Readable k (member k' v' ps) v r e = elim (Bool-cases (text_eq k' k)) [
    | inl y ↦ let same : v' ≡ v = cc (rw y at e) in rw (← same) (r.1.0)
    | inr y ↦ lookup-Readable k ps v r.1.1 (rw y at e)
  ]

  module _ (styled : Json → Text) (law : ReadsStyled qt styled) where
    pub int_field :
        (d n : ℤ) (k : Text) (ps : Members)
        → Readable qt (obj ps)
        → lookup k ps ≡ some (int n)
        → qt.to_int d (qt.value (law.of (obj ps)) k) ≡ n
    unfolding Readable
    int_field d n k ps r e =
        rw (law.value_lem k ps (int n) r e) (law.int_lem d n (lookup-Readable k ps (int n) r e))

    pub text_field :
        (s : Text) (k : Text) (ps : Members)
        → Readable qt (obj ps)
        → lookup k ps ≡ some (str s)
        → qt.to_text (qt.value (law.of (obj ps)) k) ≡ s
    unfolding Readable
    text_field s k ps r e =
        rw (law.value_lem k ps (str s) r e) (law.text_lem s (lookup-Readable k ps (str s) r e))

    pub bool_field :
        (b : Bool) (k : Text) (ps : Members)
        → Readable qt (obj ps)
        → lookup k ps ≡ some (bool b)
        → qt.to_bool (qt.value (law.of (obj ps)) k) ≡ b
    bool_field b k ps r e = rw (law.value_lem k ps (bool b) r e) (law.bool_lem b)

    pub object_field :
        (qs : Members) (k : Text) (ps : Members)
        → Readable qt (obj ps)
        → lookup k ps ≡ some (obj qs)
        → qt.to_object (qt.value (law.of (obj ps)) k) ≡ law.of (obj qs)
    object_field qs k ps r e =
        rw (law.value_lem k ps (obj qs) r e) (law.object_lem qs (lookup-Readable k ps (obj qs) r e))

    pub array_field :
        (vs : Items) (k : Text) (ps : Members)
        → Readable qt (obj ps)
        → lookup k ps ≡ some (arr vs)
        → qt.to_array (qt.value (law.of (obj ps)) k) ≡ map_items law.of vs
    array_field vs k ps r e =
        rw (law.value_lem k ps (arr vs) r e) (law.array_lem vs (lookup-Readable k ps (arr vs) r e))
