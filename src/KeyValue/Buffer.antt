-- ===== src/KeyValue/Buffer.antt =====
-- Buffers (folly::IOBufQueue) as lists of bytes; a byte past the end reads as 0.
use native.Mathlib.Nat.{add-suc, suc-add}
use helpers.Prelude.{
  ℕ, zero, suc, ◌+◌, ◌-◌, ◌<◌, ◌≤◌, ◌≡◌, refl, ap, ap₂, ◌∙◌, ltb, if◌then◌else◌, List, [], ◌∷◌,
  ◌++◌, length, length-append, length-replicate, get_or, take, drop, replicate, arith,
}

abbrev pub Bytes : Type 0
Bytes = List ℕ

-- The buffer, with zeros behind it if it is shorter than `size`.
unfoldable pub fill_to_size : Bytes → ℕ → Bytes
fill_to_size buf size =
    if ltb (length buf) size then buf ++ replicate (size - length buf) 0 else buf

abbrev pub byte : Bytes → ℕ → ℕ
byte buf i = get_or buf i 0

-- `f from`, `f (from + 1)`, …: `n` values in all.
abbrev pub range : (ℕ → ℕ) → ℕ → ℕ → Bytes
range f from zero = []
range f from (suc n) = f from ∷ range f (suc from) n

pub byte_beyond : (buf : Bytes) (i : ℕ) → length buf ≤ i → byte buf i ≡ 0
byte_beyond [] i h = refl
byte_beyond (x ∷ buf) zero h = absurd (omega arith)
byte_beyond (x ∷ buf) (suc i) h = byte_beyond buf i (omega arith)

pub byte-append :
    (a b : Bytes) (i : ℕ)
    → byte (a ++ b) i ≡ (if ltb i (length a) then byte a i else byte b (i - length a))
byte-append [] b i = ground arith
byte-append (x ∷ a) b zero = ground arith
byte-append (x ∷ a) b (suc i) = ground (arith, byte-append a b i)

byte-replicate : (n i : ℕ) → byte (replicate n 0) i ≡ 0
byte-replicate zero i = refl
byte-replicate (suc n) zero = refl
byte-replicate (suc n) (suc i) = byte-replicate n i

pub byte-fill_to_size : (buf : Bytes) (n i : ℕ) → byte (fill_to_size buf n) i ≡ byte buf i
unfolding fill_to_size
byte-fill_to_size buf n i = ground (
  arith,
  byte-append buf (replicate (n - length buf) 0) i,
  byte-replicate (n - length buf) (i - length buf),
  byte_beyond buf i,
)

pub length-fill_to_size : (buf : Bytes) (n : ℕ) → length buf ≤ n → length (fill_to_size buf n) ≡ n
unfolding fill_to_size
length-fill_to_size buf n h = ground (
  arith,
  length-append buf (replicate (n - length buf) 0),
  length-replicate {A = ℕ} (n - length buf) 0,
)

pub byte-take :
    (n : ℕ) (buf : Bytes) (i : ℕ) → byte (take n buf) i ≡ (if ltb i n then byte buf i else 0)
byte-take zero buf i = ground arith
byte-take (suc n) [] i = ground arith
byte-take (suc n) (x ∷ buf) zero = ground arith
byte-take (suc n) (x ∷ buf) (suc i) = ground (arith, byte-take n buf i)

pub byte-drop : (n : ℕ) (buf : Bytes) (i : ℕ) → byte (drop n buf) i ≡ byte buf (n + i)
byte-drop zero buf i = ap (byte buf) (omega arith)
byte-drop (suc n) [] i = refl
byte-drop (suc n) (x ∷ buf) i =
    byte-drop n buf i ∙ ap (byte (x ∷ buf)) {x = suc (n + i)} (omega arith)

-- A buffer is the range of the function that gives its bytes.
pub eq_range :
    (f : ℕ → ℕ) (from n : ℕ) (buf : Bytes)
    → length buf ≡ n
    → ((i : ℕ) → i < n → byte buf i ≡ f (from + i))
    → buf ≡ range f from n
eq_range f from zero [] l h = refl
eq_range f from zero (x ∷ buf) l h = absurd (omega arith)
eq_range f from (suc n) [] l h = absurd (omega arith)
eq_range f from (suc n) (x ∷ buf) l h = ap₂ ◌∷◌ (h 0 (omega arith) ∙ ap f (omega arith)) (
    eq_range f (suc from) n buf (omega arith) (λ i k. h (suc i) (omega arith) ∙ ap f (omega arith)))

pub range-append :
    (f : ℕ → ℕ) (from n m : ℕ) → range f from n ++ range f (from + n) m ≡ range f from (n + m)
range-append f from zero m = ap₂ (range f) (omega arith) (omega arith)
range-append f from (suc n) m =
    rw (add-suc, suc-add, ← suc-add from n) (ap (◌∷◌ (f from)) (range-append f (suc from) n m))

pub byte-range : (f : ℕ → ℕ) (from n i : ℕ) → i < n → byte (range f from n) i ≡ f (from + i)
byte-range f from zero i h = absurd (omega arith)
byte-range f from (suc n) zero h = ap f (omega arith)
byte-range f from (suc n) (suc i) h = byte-range f (suc from) n i (omega arith) ∙ ap f (omega arith)
