-- ===== src/Json.antt =====
-- The JSON texts between session server and client. A `Json` is a value that the server builds with
-- `Json::Value`; `Qt` is what the client uses of `QJsonDocument` and `QJsonValue`, and `ReadsStyled` what
-- the two libraries promise each other: the client reads what `toStyledString` prints.
pub mod Fields
pub mod Answers
use my_music.Base.{
  ℕ, ◌<◌, ◌^◌, ◌≡◌, ℤ, pos, negsuc, Bool, true, false, ◌||◌, ◌&&◌, ltb, Option, none, some, Text,
  text_eq, List, [], ◌∷◌, if◌then◌else◌,
}

mutual
  pub data Json : Type 0 where
    obj : Members → Json
    arr : Items → Json
    str : Text → Json
    int : ℤ → Json
    bool : Bool → Json
    null : Json

  -- The fields of an object: a key, its value, and the rest.
  pub data Members : Type 0 where
    no_members : Members
    member : Text → Json → Members → Members

  pub data Items : Type 0 where
    no_items : Items
    item : Json → Items → Items

abbrev pub from_items : List Json → Items
from_items [] = no_items
from_items (v ∷ vs) = item v (from_items vs)

abbrev pub lookup : Text → Members → Option Json
lookup k no_members = none
lookup k (member k' v ps) = if text_eq k' k then some v else lookup k ps

abbrev pub has : Text → Members → Bool
has k no_members = false
has k (member k' v ps) = text_eq k' k || has k ps

abbrev pub is_ascii : Text → Bool
is_ascii [] = true
is_ascii (c ∷ s) = ltb c 128 && is_ascii s

-- A 32-bit `int`.
abbrev pub IsInt : ℤ → Type 0
IsInt (pos n) = n < 2 ^ 31
IsInt (negsuc n) = n < 2 ^ 31

-- `from_json` is `QJsonDocument::fromJson` with its `object()`, `none` where the document is null; `value` is
-- `operator[]`, `to_int` takes the default value.
pub record Qt (J : Type 0) : Type 0 where
  pub is_utf8 : Text → Bool
  pub from_json : Text → Option J
  pub contains : J → Text → Bool
  pub value : J → Text → J
  pub to_int : ℤ → J → ℤ
  pub to_text : J → Text
  pub to_bool : J → Bool
  pub to_array : J → List J
  pub to_object : J → J

-- Every number in it is an `int`, every text UTF-8, and an object has a key once.
unfoldable mutual
  pub Readable : {J : Type 0} → Qt J → Json → Type 0
  Readable qt null = Unit
  Readable qt (bool b) = Unit
  Readable qt (int n) = IsInt n
  Readable qt (str s) = qt.is_utf8 s ≡ true
  Readable qt (arr vs) = ReadableItems qt vs
  Readable qt (obj ps) = ReadableMembers qt ps

  pub ReadableItems : {J : Type 0} → Qt J → Items → Type 0
  ReadableItems qt no_items = Unit
  ReadableItems qt (item v vs) = Readable qt v × ReadableItems qt vs

  pub ReadableMembers : {J : Type 0} → Qt J → Members → Type 0
  ReadableMembers qt no_members = Unit
  ReadableMembers qt (member k v ps) =
      ((qt.is_utf8 k ≡ true) × (has k ps ≡ false)) × (Readable qt v × ReadableMembers qt ps)

abbrev pub map_items : {J : Type 0} → (Json → J) → Items → List J
map_items f no_items = []
map_items f (item v vs) = f v ∷ map_items f vs

-- `styled` is `toStyledString`, and `of` the client's value of a server's one.
pub record ReadsStyled {J : Type 0} (qt : Qt J) (styled : Json → Text) : Type 0 where
  pub of : Json → J
  pub ascii_lem : (s : Text) → is_ascii s ≡ true → qt.is_utf8 s ≡ true
  pub parsed :
      (ps : Members) → Readable qt (obj ps) → qt.from_json (styled (obj ps)) ≡ some (of (obj ps))
  pub contains_lem :
      (k : Text) (ps : Members) → Readable qt (obj ps) → qt.contains (of (obj ps)) k ≡ has k ps
  pub value_lem :
      (k : Text) (ps : Members) (v : Json)
      → Readable qt (obj ps)
      → lookup k ps ≡ some v
      → qt.value (of (obj ps)) k ≡ of v
  pub int_lem : (d n : ℤ) → IsInt n → qt.to_int d (of (int n)) ≡ n
  pub text_lem : (s : Text) → qt.is_utf8 s ≡ true → qt.to_text (of (str s)) ≡ s
  pub bool_lem : (b : Bool) → qt.to_bool (of (bool b)) ≡ b
  pub array_lem : (vs : Items) → Readable qt (arr vs) → qt.to_array (of (arr vs)) ≡ map_items of vs
  pub object_lem : (ps : Members) → Readable qt (obj ps) → qt.to_object (of (obj ps)) ≡ of (obj ps)
  -- An array that is missing is empty.
  pub no_array :
      (k : Text) (ps : Members)
      → Readable qt (obj ps)
      → lookup k ps ≡ none
      → qt.to_array (qt.value (of (obj ps)) k) ≡ []
