-- ===== src/KeyValue/Key.antt =====
-- src/keyValueHelper.h: the keys of a file's objects, `getKey` and `getObjectId`, as texts of
-- character codes. Objects are numbered from the back. White space and signs, which `std::stoull`
-- also reads, are left out.
pub mod RoundTrip
pub mod Tests
use helpers.Prelude.{
  ℕ, zero, suc, ◌+◌, ◌*◌, ◌-◌, ◌/◌, ◌%◌, Bool, true, false, ◌&&◌, ltb, leb, ◌==◌, if◌then◌else◌,
  u64, u64_mod, Option, none, some, List, [], ◌∷◌, ◌++◌, length, replicate,
}
use helpers.KeyValue.Helper.{max_object_id}

abbrev pub Text : Type 0
Text = List ℕ

-- `OBJECT_DELIMITER`
abbrev pub object_delimiter : ℕ
object_delimiter = 47

abbrev pub max_object_id_digits : ℕ
max_object_id_digits = 6

-- The prefix without its leading delimiters; none stands for `std::out_of_range`, which `substr`
-- throws when there is nothing else.
abbrev pub substr_from_first_not_of : ℕ → Text → Option Text
substr_from_first_not_of c [] = none
substr_from_first_not_of c (x ∷ xs) =
    let rest = substr_from_first_not_of c xs in if x == c then rest else some (x ∷ xs)

abbrev pub delimited : Option Text → Option Text
delimited none = none
delimited (some text) = some (text ++ object_delimiter ∷ [])

unfoldable pub adjust_prefix : Text → Option Text
adjust_prefix prefix = delimited (substr_from_first_not_of object_delimiter prefix)

-- The decimal digits of a number, before what follows; each round takes a digit off.
abbrev pub decimal : ℕ → ℕ → Text → Text
decimal zero n text = text
decimal (suc fuel) n text =
    let more = decimal fuel (n / 10) ((48 + n % 10) ∷ text) in
    if ltb n 10 then (48 + n) ∷ text else more

-- `std::setfill('0')` and `std::setw`.
abbrev pub filled : ℕ → Text → Text
filled width text = replicate (width - length text) 48 ++ text

abbrev pub key_of : Option Text → ℕ → Option Text
key_of none n = none
key_of (some prefix) n = some (prefix ++ filled max_object_id_digits (decimal (suc n) n []))

unfoldable pub get_key : Text → ℕ → Option Text
unfolding adjust_prefix
get_key prefix object_id = key_of (adjust_prefix prefix) (u64 (max_object_id + u64_mod - object_id))

-- What stands behind the last delimiter, or all if there is none.
abbrev pub holds : ℕ → Text → Bool
holds c [] = false
holds c (x ∷ xs) = if x == c then true else holds c xs

abbrev pub after_last : ℕ → Text → Text
after_last c [] = []
after_last c (x ∷ xs) =
    let rest = after_last c xs in if holds c xs then rest else if x == c then xs else x ∷ xs

abbrev pub is_digit : ℕ → Bool
is_digit c = leb 48 c && ltb c 58

-- The number that leading digits give, behind those that were read.
abbrev pub read_digits : ℕ → Text → ℕ
read_digits n [] = n
read_digits n (c ∷ cs) =
    let rest = read_digits (n * 10 + (c - 48)) cs in if is_digit c then rest else n

-- Without a leading digit or beyond 64 bits `std::stoull` throws.
abbrev pub stoull : Text → Option ℕ
stoull [] = none
stoull (c ∷ cs) =
    let n = read_digits 0 (c ∷ cs) in
    if is_digit c then (if ltb n u64_mod then some n else none) else none

abbrev pub id_of : Option ℕ → Option ℕ
id_of none = none
id_of (some n) = some (u64 (max_object_id + u64_mod - n))

unfoldable pub get_object_id : Text → Option ℕ
get_object_id key = id_of (stoull (after_last object_delimiter key))
