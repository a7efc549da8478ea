-- ===== src/Communication/ConnectionPool/Counts.antt =====
-- How often a number stands in a list, and as a key or a value of an association list.
use helpers.Prelude.{
  ℕ, ◌+◌, ◌≤◌, ◌==◌, if◌then◌else◌, true, some, List, [], ◌∷◌, find, put, erase, count_if, ◌≡◌,
  refl, arith,
}
use helpers.Communication.ConnectionPool.{member, remove}

abbrev pub among : ℕ → List ℕ → ℕ
among n ms = count_if (λ m. m == n) ms

pub among-remove :
    (n m : ℕ) (ms : List ℕ) → among n (remove m ms) ≡ (if m == n then 0 else among n ms)
among-remove n m [] = ground arith
among-remove n m (k ∷ ms) = ground (arith, among-remove n m ms)

pub among-member : (n : ℕ) (ms : List ℕ) → member n ms ≡ true → 1 ≤ among n ms
among-member n [] e = absurd (ground arith)
among-member n (m ∷ ms) e = ground (arith, among-member n ms)

-- A number that is taken out and put back counts no more than before.
pub among_moved :
    (n m : ℕ) (ms : List ℕ)
    → member m ms ≡ true
    → among n (remove m ms) + (if m == n then 1 else 0) ≤ among n ms
among_moved n m ms e = ground (arith, among-remove n m ms, among-member m ms e)

module _ {V : Type 0} where
  abbrev pub keys : ℕ → List (ℕ × V) → ℕ
  keys n m = count_if (λ e. e.0 == n) m

  pub keys-erase :
      (n k : ℕ) (m : List (ℕ × V)) → keys n (erase k m) ≡ (if k == n then 0 else keys n m)
  keys-erase n k [] = ground arith
  keys-erase n k ((j, v) ∷ m) = ground (arith, keys-erase n k m)

  pub keys-find : (k : ℕ) (v : V) (m : List (ℕ × V)) → find k m ≡ some v → 1 ≤ keys k m
  keys-find k v [] e = absurd (ground arith)
  keys-find k v ((j, w) ∷ m) e = ground (arith, keys-find k v m)

  -- An entry that is there is replaced.
  pub keys-put :
      (n k : ℕ) (v w : V) (m : List (ℕ × V)) → find k m ≡ some v → keys n (put k w m) ≡ keys n m
  keys-put n k v w [] e = absurd (ground arith)
  keys-put n k v w ((j, u) ∷ m) e = ground (arith, keys-put n k v w m)

  pub keys_moved :
      (n k : ℕ) (v : V) (m : List (ℕ × V))
      → find k m ≡ some v
      → keys n (erase k m) + (if k == n then 1 else 0) ≤ keys n m
  keys_moved n k v m e = ground (arith, keys-erase n k m, keys-find k v m e)

abbrev pub values : ℕ → List (ℕ × ℕ) → ℕ
values n m = count_if (λ e. e.1 == n) m

pub values-erase : (n k : ℕ) (m : List (ℕ × ℕ)) → values n (erase k m) ≤ values n m
values-erase n k [] = omega arith
values-erase n k ((j, v) ∷ m) = ground (arith, values-erase n k m)

pub values_moved :
    (n k v : ℕ) (m : List (ℕ × ℕ))
    → find k m ≡ some v
    → values n (erase k m) + (if v == n then 1 else 0) ≤ values n m
values_moved n k v [] e = absurd (ground arith)
values_moved n k v ((j, w) ∷ m) e = ground (arith, values_moved n k v m, values-erase n k m)

pub keys_taken :
    {V : Type 0} (n k : ℕ) (v : V) (m : List (ℕ × V))
    → find k m ≡ some v
    → keys n m ≤ 1
    → keys n (erase k m) + (if k == n then 1 else 0) ≡ keys n m
keys_taken n k v m e one = ground (arith, keys-erase n k m, keys-find k v m e)

values_rest : (n k : ℕ) (m : List (ℕ × ℕ)) → keys k m ≡ 0 → values n (erase k m) ≡ values n m
values_rest n k [] e = refl
values_rest n k ((j, v) ∷ m) e = ground (arith, values_rest n k m)

-- The value of a key that stands once is taken out with it.
pub values_taken :
    (n k v : ℕ) (m : List (ℕ × ℕ))
    → find k m ≡ some v
    → keys k m ≤ 1
    → values n (erase k m) + (if v == n then 1 else 0) ≡ values n m
values_taken n k v [] e one = absurd (ground arith)
values_taken n k v ((j, w) ∷ m) e one = ground (arith, values_taken n k v m, values_rest n k m)
