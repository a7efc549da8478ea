-- ===== src/KeyValue/Helper.antt =====
-- src/keyValueHelper.h: the interface of a storage of objects under keys. What the services of S3,
-- Swift and Ceph and their client libraries do is not in the repository: the operations are fields,
-- and their documented behaviour, of a storage that can be reached, is a record of laws. That a
-- deletion removes its keys is a law for as many keys as one batch takes, since
-- src/s3Helper.cc, src/swiftHelper.cc and src/cephRadosHelper.cc send the first batch again in place
-- of the later ones; Batches.antt is about them.
use helpers.Prelude.{
  ℕ, ◌+◌, ◌≤◌, ◌≡◌, ◌≢◌, ◌⊎◌, Bool, true, false, Option, none, some, List, [], ◌∷◌, ◌++◌, length,
  take, drop,
}
use helpers.KeyValue.Buffer.{Bytes, fill_to_size}

-- The code of a `std::system_error`: ENOENT, or any other.
pub data Error : Type 0 where
  enoent : Error
  other : ℕ → Error

pub data Result {ℓ} (A : Type ℓ) : Type ℓ where
  ok : A → Result A
  err : Error → Result A

infixl 5 ◌>>=◌
abbrev pub ◌>>=◌ {ℓ κ} : {A : Type ℓ} {B : Type κ} → Result A → (A → Result B) → Result B
ok a >>= f = f a
err e >>= f = err e

-- A call that writes leaves a store also when it fails.
pub record Outcome (Store : Type 0) : Type 0 where
  pub store : Store
  pub result : Result (Unit {0})

pub record KeyValueHelper : Type 1 where
  pub Store : Type 0
  pub Key : Type 0
  pub get_key : Bytes → ℕ → Key
  pub get_object : Store → Key → ℕ → ℕ → Result Bytes
  pub put_object : Store → Key → Bytes → ℕ → Outcome Store
  pub delete_objects : Store → List Key → Outcome Store
  pub has_random_access : Bool

-- `MAX_OBJECT_ID`
abbrev pub max_object_id : ℕ
max_object_id = 999999

-- `MAX_DELETE_OBJECTS`
abbrev pub max_delete_objects : ℕ
max_delete_objects = 1000

-- An object with bytes written over it from an offset on, zeros before them where it was shorter.
abbrev pub overlay : Bytes → ℕ → Bytes → Bytes
overlay old offset buf =
    fill_to_size (take offset old) offset ++ buf ++ drop (offset + length buf) old

abbrev pub Each {ℓ} : {A : Type ℓ} → (A → Type 0) → List A → Type 0
Each P [] = Unit
Each P (x ∷ xs) = P x × Each P xs

abbrev pub Some {ℓ} : {A : Type ℓ} → (A → Type 0) → List A → Type 0
Some P [] = ⊥
Some P (x ∷ xs) = P x ⊎ Some P xs

module _ (h : KeyValueHelper) where
  open h use {Store, Key, get_key, get_object, put_object, delete_objects, has_random_access}

  -- What is stored under each key, and how a storage that answers every call uses it.
  pub record Reliable : Type 0 where
    pub content : Store → Key → Option Bytes
    pub get_key_injective :
        (file_id : Bytes) (i j : ℕ)
        → i ≤ max_object_id
        → j ≤ max_object_id
        → get_key file_id i ≡ get_key file_id j
        → i ≡ j
    pub get_missing :
        (s : Store) (k : Key) (offset size : ℕ)
        → content s k ≡ none
        → (get_object s k offset size ≡ err enoent) ⊎ (get_object s k offset size ≡ ok [])
    pub get_present :
        (s : Store) (k : Key) (offset size : ℕ) (c : Bytes)
        → content s k ≡ some c
        → get_object s k offset size ≡ ok (take size (drop offset c))
    pub put_ok :
        (s : Store) (k : Key) (buf : Bytes) (offset : ℕ)
        → (put_object s k buf offset).result ≡ ok tt
    pub put_other :
        (s : Store) (k j : Key) (buf : Bytes) (offset : ℕ)
        → k ≢ j
        → content (put_object s k buf offset).store j ≡ content s j
    pub put_whole :
        (s : Store) (k : Key) (buf : Bytes)
        → has_random_access ≡ false
        → content (put_object s k buf 0).store k ≡ some buf
    pub put_at_missing :
        (s : Store) (k : Key) (buf : Bytes) (offset : ℕ)
        → has_random_access ≡ true
        → content s k ≡ none
        → content (put_object s k buf offset).store k ≡ some (overlay [] offset buf)
    pub put_at_present :
        (s : Store) (k : Key) (buf : Bytes) (offset : ℕ) (c : Bytes)
        → has_random_access ≡ true
        → content s k ≡ some c
        → content (put_object s k buf offset).store k ≡ some (overlay c offset buf)
    pub delete_ok : (s : Store) (ks : List Key) → (delete_objects s ks).result ≡ ok tt
    pub delete_removes :
        (s : Store) (ks : List Key) (k : Key)
        → length ks ≤ max_delete_objects
        → Some (λ j. j ≡ k) ks
        → content (delete_objects s ks).store k ≡ none
    pub delete_keeps :
        (s : Store) (ks : List Key) (k : Key)
        → Each (λ j. j ≢ k) ks
        → content (delete_objects s ks).store k ≡ content s k
