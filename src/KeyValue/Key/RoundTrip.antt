-- ===== src/KeyValue/Key/RoundTrip.antt =====
-- src/keyValueHelper.h: keys and the numbers that they give back.
use native.Mathlib.Nat.{div-add-mod', mod-lt}
use helpers.Prelude.{
  ℕ, zero, suc, ◌+◌, ◌-◌, ◌/◌, ◌%◌, ◌<◌, ◌≤◌, ◌≡◌, ◌≢◌, refl, sym, ap, ◌∙◌, true, false, ltb, inl,
  inr, Bool-cases, u64, u64_mod, some, [], ◌∷◌, ◌++◌, append_assoc, length, length-append,
  replicate, arith, ltb→lt,
}
use mathlib.Core.Option.{some-injective}
use helpers.KeyValue.Helper.{max_object_id}
use helpers.KeyValue.Key.{
  Text, object_delimiter, max_object_id_digits, substr_from_first_not_of, adjust_prefix, decimal,
  filled, get_key, holds, after_last, is_digit, read_digits, stoull, get_object_id, delimited,
  key_of, id_of,
}

abbrev AllDigits : Text → Type 0
AllDigits [] = Unit
AllDigits (c ∷ cs) = (is_digit c ≡ true) × AllDigits cs

digit : (n : ℕ) → n < 10 → is_digit (48 + n) ≡ true
digit n h = ground arith

decimal-AllDigits : (fuel n : ℕ) (text : Text) → AllDigits text → AllDigits (decimal fuel n text)
decimal-AllDigits zero n text a = a
decimal-AllDigits (suc fuel) n text a =
    let more =
      decimal-AllDigits fuel (n / 10) ((48 + n % 10) ∷ text)
        (digit (n % 10) (mod-lt n (omega arith)), a) in
    elim (Bool-cases (ltb n 10)) [
      | inl small ↦ rw small (digit n (ltb→lt n 10 small), a)
      | inr large ↦ rw large more
    ]

replicate-AllDigits : (k : ℕ) (text : Text) → AllDigits text → AllDigits (replicate k 48 ++ text)
replicate-AllDigits zero text a = a
replicate-AllDigits (suc k) text a = (refl, replicate-AllDigits k text a)

-- The digits of a number are read as the number, before what is read behind them.
read_digits-decimal :
    (fuel n : ℕ) (text : Text) → n < fuel → read_digits 0 (decimal fuel n text) ≡ read_digits n text
read_digits-decimal zero n text h = absurd (omega arith)
read_digits-decimal (suc fuel) n text h = elim (Bool-cases (ltb n 10)) [
  | inl small ↦ rw (small, digit n (ltb→lt n 10 small)) (ap (λ x. read_digits x text) (omega arith))
  | inr large ↦ rw large (
      read_digits-decimal fuel (n / 10) ((48 + n % 10) ∷ text) (ground (arith, div-add-mod' n 10))
      ∙ rw (digit (n % 10) (mod-lt n (omega arith)))
          (ap (λ x. read_digits x text) (omega (arith, div-add-mod' n 10))))
]

read_digits-replicate :
    (k : ℕ) (text : Text) → read_digits 0 (replicate k 48 ++ text) ≡ read_digits 0 text
read_digits-replicate zero text = refl
read_digits-replicate (suc k) text = read_digits-replicate k text

digits_hold : (text : Text) → AllDigits text → holds object_delimiter text ≡ false
digits_hold [] a = refl
digits_hold (c ∷ cs) (d, a) = ground (arith, digits_hold cs a)

holds-append :
    (text digits : Text) → holds object_delimiter (text ++ object_delimiter ∷ digits) ≡ true
holds-append [] digits = refl
holds-append (c ∷ text) digits = ground (arith, holds-append text digits)

after_last-append :
    (text digits : Text)
    → AllDigits digits
    → after_last object_delimiter (text ++ object_delimiter ∷ digits) ≡ digits
after_last-append [] digits a = rw (digits_hold digits a)
after_last-append (c ∷ text) digits a =
    rw (holds-append text digits) (after_last-append text digits a)

stoull_lem :
    (text : Text) (n : ℕ)
    → AllDigits text
    → 0 < length text
    → read_digits 0 text ≡ n
    → n < u64_mod
    → stoull text ≡ some n
stoull_lem [] n a l e b = absurd (omega arith)
stoull_lem (c ∷ cs) n (d, a) l e b = ground arith

decimal_some : (fuel n : ℕ) (text : Text) → 0 < fuel → 0 < length (decimal fuel n text)
decimal_some zero n text h = absurd (omega arith)
decimal_some (suc zero) n text h = ground arith
decimal_some (suc (suc fuel)) n text h =
    ground (arith, decimal_some (suc fuel) (n / 10) ((48 + n % 10) ∷ text))

-- The number that a key holds for an object.
abbrev digits_of : ℕ → Text
digits_of n = filled max_object_id_digits (decimal (suc n) n [])

stoull-digits_of : (n : ℕ) → n < u64_mod → stoull (digits_of n) ≡ some n
stoull-digits_of n b =
    let plain = decimal (suc n) n [] in
    let k = max_object_id_digits - length plain in
    stoull_lem (digits_of n) n (replicate-AllDigits k plain (decimal-AllDigits (suc n) n [] tt))
      (omega (arith, length-append (replicate k 48) plain, decimal_some (suc n) n []))
      (read_digits-replicate k plain ∙ read_digits-decimal (suc n) n [] (omega arith)) b

-- From a prefix that is not made of delimiters only, and for a number up to `MAX_OBJECT_ID`, there
-- is a key, and the key gives back the number.
pub get_object_id-get_key :
    (prefix text : Text) (object_id : ℕ)
    → substr_from_first_not_of object_delimiter prefix ≡ some text
    → object_id ≤ max_object_id
    → (key : Text) × (get_key prefix object_id ≡ some key) × (get_object_id key ≡ some object_id)
unfolding get_key get_object_id adjust_prefix
get_object_id-get_key prefix text object_id e b = (
  key,
  ap (λ t. key_of (delimited t) n) e,
  ap (λ t. id_of (stoull (after_last object_delimiter t)))
        (append_assoc text (object_delimiter ∷ []) (digits_of n))
      ∙ ap (λ t. id_of (stoull t))
          (after_last-append text (digits_of n) (
            replicate-AllDigits (max_object_id_digits - length (decimal (suc n) n []))
              (decimal (suc n) n []) (decimal-AllDigits (suc n) n [] tt)))
      ∙ ap id_of (stoull-digits_of n (mod-lt (max_object_id + u64_mod - object_id) (omega arith)))
      ∙ ap some (omega arith),
)
  where
    n : ℕ
    n = u64 (max_object_id + u64_mod - object_id)

    key : Text
    key = (text ++ object_delimiter ∷ []) ++ digits_of n

same_object :
    (prefix text : Text) (i j : ℕ)
    → substr_from_first_not_of object_delimiter prefix ≡ some text
    → i ≤ max_object_id
    → j ≤ max_object_id
    → get_key prefix i ≡ get_key prefix j
    → i ≡ j
same_object prefix text i j e a b same =
    let (k, k_at, k_id) = get_object_id-get_key prefix text i e a in
    let (l, l_at, l_id) = get_object_id-get_key prefix text j e b in
    some-injective i j
      (sym k_id ∙ ap get_object_id (some-injective k l (sym k_at ∙ same ∙ l_at)) ∙ l_id)

-- Two objects of one file, with numbers up to `MAX_OBJECT_ID`, have different keys.
pub get_key_distinct :
    (prefix text : Text) (i j : ℕ)
    → substr_from_first_not_of object_delimiter prefix ≡ some text
    → i ≤ max_object_id
    → j ≤ max_object_id
    → i ≢ j
    → get_key prefix i ≢ get_key prefix j
get_key_distinct prefix text i j e a b differ same = differ (same_object prefix text i j e a b same)
