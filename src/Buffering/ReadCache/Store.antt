-- ===== src/Buffering/ReadCache/Store.antt =====
-- src/buffering/readCache.h: places of the store, and ranges of bytes.
use helpers.Prelude.{
  ℕ, zero, suc, ◌+◌, ◌-◌, ◌≤◌, min, ltb, ◌==◌, if◌then◌else◌, some, List, [], ◌∷◌, ◌++◌, length,
  take, drop, ◌≡◌, refl, ap, ◌∙◌, arith,
}
use helpers.KeyValue.Buffer.{range}
use helpers.Buffering.ReadCache.{ReadData, entry, set_entry, trim}

pub entry-append :
    (store more : List ReadData) (i : ℕ) (e : ReadData)
    → entry store i ≡ some e
    → entry (store ++ more) i ≡ some e
entry-append [] more i e h = absurd (ground arith)
entry-append (d ∷ store) more zero e h = h
entry-append (d ∷ store) more (suc i) e h = entry-append store more i e h

pub entry_last :
    (store : List ReadData) (e : ReadData) → entry (store ++ e ∷ []) (length store) ≡ some e
entry_last [] e = refl
entry_last (d ∷ store) e = entry_last store e

pub entry-set_entry :
    (store : List ReadData) (i j : ℕ) (d e : ReadData)
    → entry store j ≡ some e
    → entry (set_entry store i d) j ≡ some (if i == j then d else e)
entry-set_entry [] i j d e h = absurd (ground arith)
entry-set_entry (x ∷ store) zero zero d e h = refl
entry-set_entry (x ∷ store) zero (suc j) d e h = ground arith
entry-set_entry (x ∷ store) (suc i) zero d e h = ground arith
entry-set_entry (x ∷ store) (suc i) (suc j) d e h = entry-set_entry store i j d e h ∙ ground arith

pub length-range : (f : ℕ → ℕ) (from n : ℕ) → length (range f from n) ≡ n
length-range f from zero = refl
length-range f from (suc n) = ap suc (length-range f (suc from) n)

drop-range : (f : ℕ → ℕ) (from n k : ℕ) → drop k (range f from n) ≡ range f (from + k) (n - k)
drop-range f from n zero =
    ap (λ a. range f a n) {x = from} {y = from + 0} (omega arith)
    ∙ ap (range f (from + 0)) (omega arith)
drop-range f from zero (suc k) = ap (range f (from + suc k)) {x = 0} (omega arith)
drop-range f from (suc n) (suc k) =
    drop-range f (suc from) n k
    ∙ ap (λ a. range f a (n - k)) {x = suc from + k} {y = from + suc k} (omega arith)
    ∙ ap (range f (from + suc k)) (omega arith)

take-range : (f : ℕ → ℕ) (from n k : ℕ) → take k (range f from n) ≡ range f from (min k n)
take-range f from n zero = ap (range f from) {x = 0} {y = min 0 n} (omega arith)
take-range f from zero (suc k) = ap (range f from) {x = 0} {y = min (suc k) 0} (omega arith)
take-range f from (suc n) (suc k) =
    ap (◌∷◌ (f from)) (take-range f (suc from) n k)
    ∙ ap (range f from) {x = suc (min k n)} {y = min (suc k) (suc n)} (omega arith)

-- What is cut out of a block of a file is the file's bytes there.
pub trim-range :
    (f : ℕ → ℕ) (start n offset size : ℕ)
    → start ≤ offset
    → trim start offset size (range f start n) ≡ range f offset (min size (start + n - offset))
trim-range f start n offset size h = rw (length-range f start n) (cases n)
  where
    inside :
        (n : ℕ)
        → take size (drop (offset - start) (range f start n))
          ≡ range f offset (min size (start + n - offset))
    inside n =
        ap (take size) (drop-range f start n (offset - start))
        ∙ take-range f (start + (offset - start)) (n - (offset - start)) size
        ∙ ap (λ a. range f a (min size (n - (offset - start)))) {x = start + (offset - start)}
            {y = offset} (omega arith)
        ∙ ap (λ k. range f offset (min size k)) {x = n - (offset - start)} {y = start + n - offset}
            (omega arith)

    nothing : (n : ℕ) → start + n ≤ offset → [] ≡ range f offset (min size (start + n - offset))
    nothing n l = ap (range f offset) {x = 0} {y = min size (start + n - offset)} (omega arith)

    cases :
        (n : ℕ)
        → (if n == 0
            then []
            else if ltb (start + n) offset
            then []
            else take size (drop (offset - start) (range f start n)))
          ≡ range f offset (min size (start + n - offset))
    cases n = ground (arith, inside n, nothing n)
