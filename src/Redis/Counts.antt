-- ===== src/Redis/Counts.antt =====
-- The number of logins of each server: IncreaseCount, DecreaseCount, InitCount and DelCount of
-- Server/SessionServer/RedisManager.cpp. The lock around each of them is taken and given back within it.
pub mod Changed
pub mod Decimal
pub mod Kept
use my_music.Base.{
  ℕ, suc, zero, ◌+◌, ◌-◌, ◌*◌, ◌/◌, ◌%◌, ◌^◌, ℤ, pos, negsuc, Bool, true, false, ◌&&◌, ◌||◌, Option,
  none, some, Text, List, [], ◌∷◌, ◌++◌, ltb, leb, ◌==◌, null, is_positive, if◌then◌else◌,
}
use my_music.Redis.{Redis, login_count, redis_hget, redis_hset, redis_hdel}

-- `std::to_string`. Each step takes a digit off, so the number itself is enough fuel.
pub digits : ℕ → ℕ → Text
digits zero n = (b'0' + n % 10) ∷ []
digits (suc f) n =
    let rest = digits f (n / 10) in
    if ltb n 10 then (b'0' + n) ∷ [] else rest ++ (b'0' + n % 10) ∷ []

unfoldable pub to_string : ℤ → Text
to_string (pos n) = digits n n
to_string (negsuc n) = b'-' ∷ digits (suc n) (suc n)

abbrev pub is_digit : ℕ → Bool
is_digit c = leb b'0' c && leb c b'9'

abbrev pub is_space : ℕ → Bool
is_space c = c == b' ' || (leb 9 c && leb c 13)

-- The digits up to the first other byte, behind a number that was read already.
pub read_digits : ℕ → Text → ℕ
read_digits n [] = n
read_digits n (c ∷ s) =
    let rest = read_digits (n * 10 + (c - b'0')) s in if is_digit c then rest else n

abbrev pub read_number : Text → Option ℕ
read_number [] = none
read_number (c ∷ s) = if is_digit c then some (read_digits 0 (c ∷ s)) else none

abbrev pub int_max : ℕ
int_max = 2147483647

abbrev pub as_positive : Option ℕ → Option ℤ
as_positive none = none
as_positive (some n) = if leb n int_max then some (pos n) else none

abbrev pub negated : ℕ → Option ℤ
negated zero = some (pos 0)
negated (suc n) = if leb n int_max then some (negsuc n) else none

abbrev pub as_negative : Option ℕ → Option ℤ
as_negative none = none
as_negative (some n) = negated n

pub stoi_signed : Text → Option ℤ
stoi_signed [] = none
stoi_signed (c ∷ s) =
    if c == b'-'
    then as_negative (read_number s)
    else if c == b'+'
    then as_positive (read_number s)
    else as_positive (read_number (c ∷ s))

-- `std::stoi`; `none` is an exception.
pub stoi : Text → Option ℤ
unfolding stoi_signed
stoi [] = none
stoi (c ∷ s) = let rest = stoi s in if is_space c then rest else stoi_signed (c ∷ s)

-- An empty text counts as 0.
abbrev pub count_of : Text → Option ℤ
count_of t = if null t then some (pos 0) else stoi t

-- `++count`; the greatest int overflows, which is undefined.
abbrev pub plus_one : ℤ → Option ℤ
plus_one (pos n) = if ltb n int_max then some (pos (n + 1)) else none
plus_one (negsuc zero) = some (pos 0)
plus_one (negsuc (suc n)) = some (negsuc n)

-- `if (count > 0) --count;`
abbrev pub minus_one_from : ℤ → ℤ
minus_one_from (pos n) = pos (n - 1)
minus_one_from (negsuc n) = negsuc n

abbrev pub bind : Option ℤ → (ℤ → Option ℤ) → Option ℤ
bind none f = none
bind (some i) f = f i

module _ {S : Type 0} (redis : Redis S) where
  -- `none` is an exception of `stoi`, or the overflow.
  abbrev pub write_count : Text → S → Option ℤ → Option S
  write_count server s none = none
  write_count server s (some i) = some (redis_hset redis (login_count server) (to_string i) s).1

  abbrev pub read_count : Text → S → Option ℤ
  read_count server s = count_of (redis_hget redis (login_count server) s)

  unfoldable pub increase_count : Text → S → Option S
  increase_count server s = write_count server s (bind (read_count server s) plus_one)

  unfoldable pub decrease_count : Text → S → Option S
  decrease_count server s =
      write_count server s (bind (read_count server s) (λ i. some (minus_one_from i)))

  unfoldable pub init_count : Text → S → S
  init_count server s = (redis_hset redis (login_count server) (b'0' ∷ []) s).1

  unfoldable pub del_count : Text → S → S
  del_count server s = (redis_hdel redis (login_count server) s).1
