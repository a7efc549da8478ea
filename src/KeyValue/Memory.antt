-- ===== src/KeyValue/Memory.antt =====
-- A storage in memory that keeps the laws of a reliable one: objects under numbers, the key of a
-- block being its number. It replaces whole objects or writes into them.
use helpers.Prelude.{
  ℕ, ◌≡◌, ◌≢◌, refl, ◌∙◌, ap, Bool, true, false, ◌==◌, inl, inr, if◌then◌else◌, Option, none, some,
  List, [], ◌∷◌, take, drop, arith,
}
use helpers.KeyValue.Buffer.{Bytes}
use helpers.KeyValue.Helper.{KeyValueHelper, Reliable, enoent, Result, ok, err, overlay, Each, Some}

abbrev pub Objects : Type 0
Objects = ℕ → Option Bytes

abbrev pub get_part : Option Bytes → ℕ → ℕ → Result Bytes
get_part none offset size = err enoent
get_part (some c) offset size = ok (take size (drop offset c))

abbrev pub put_part : Bool → Option Bytes → Bytes → ℕ → Bytes
put_part false old buf offset = buf
put_part true none buf offset = overlay [] offset buf
put_part true (some c) buf offset = overlay c offset buf

abbrev pub stored_at : Objects → ℕ → Bytes → Objects
stored_at s k buf j = if k == j then some buf else s j

abbrev pub deleted : Objects → List ℕ → Objects
deleted s [] j = s j
deleted s (k ∷ ks) j = if k == j then none else deleted s ks j

abbrev pub memory : Bool → KeyValueHelper
memory random = record {
  Store = Objects;
  Key = ℕ;
  get_key = λ file_id i. i;
  get_object = λ s k offset size. get_part (s k) offset size;
  put_object = λ s k buf offset. record {
    store = stored_at s k (put_part random (s k) buf offset);
    result = ok tt;
  };
  delete_objects = λ s ks. record { store = deleted s ks; result = ok tt };
  has_random_access = random;
}

pub own : (s : Objects) (k : ℕ) (buf : Bytes) → stored_at s k buf k ≡ some buf
own s k buf = ground arith

pub other : (s : Objects) (k j : ℕ) (buf : Bytes) → k ≢ j → stored_at s k buf j ≡ s j
other s k j buf ne = ground arith

pub deleted_removes :
    (s : Objects) (ks : List ℕ) (k : ℕ) → Some (λ j. j ≡ k) ks → deleted s ks k ≡ none
deleted_removes s [] k m = elim m [ ]
deleted_removes s (i ∷ ks) k (inl e) = ground arith
deleted_removes s (i ∷ ks) k (inr m) = ground (arith, deleted_removes s ks k m)

pub deleted_keeps :
    (s : Objects) (ks : List ℕ) (k : ℕ) → Each (λ j. j ≢ k) ks → deleted s ks k ≡ s k
deleted_keeps s [] k a = refl
deleted_keeps s (i ∷ ks) k (a, rest) = ground (arith, deleted_keeps s ks k rest)

abbrev pub memory-Reliable : (random : Bool) → Reliable (memory random)
memory-Reliable random = record {
  content = λ s k. s k;
  get_key_injective = λ file_id i j a b e. e;
  get_missing = λ s k offset size e. inl (rw e);
  get_present = λ s k offset size c e. rw e;
  put_ok = λ s k buf offset. refl;
  put_other = λ s k j buf offset ne. other s k j _ ne;
  put_whole = λ s k buf e. rw e (own s k buf);
  put_at_missing = λ s k buf offset e none_there. own s k _ ∙ ap some (rw (e, none_there));
  put_at_present = λ s k buf offset c e there. own s k _ ∙ ap some (rw (e, there));
  delete_ok = λ s ks. refl;
  delete_removes = λ s ks k few. deleted_removes s ks k;
  delete_keeps = deleted_keeps;
}
