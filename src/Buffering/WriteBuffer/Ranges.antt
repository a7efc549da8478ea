-- ===== src/Buffering/WriteBuffer/Ranges.antt =====
-- What ranges of bytes, written in order, make of a file.
use helpers.Prelude.{
  ℕ, ◌+◌, ◌-◌, ◌≡◌, refl, sym, ap, ◌∙◌, fun_ext, inl, inr, Bool-cases, ◌==◌, List, [], ◌∷◌, ◌++◌,
  length, length-append, append-nil, append_assoc, arith,
}
use helpers.KeyValue.Buffer.{Bytes, byte, byte-append}
use helpers.KeyValue.Ranges.{written_byte}
use helpers.Buffering.WriteBuffer.{Range, join}

-- A file, by its bytes.
abbrev pub File : Type 0
File = ℕ → ℕ

abbrev pub write_at : ℕ → Bytes → File → File
write_at offset buf f i = written_byte offset buf i (f i)

abbrev pub apply_all : List Range → File → File
apply_all [] f = f
apply_all ((offset, buf) ∷ rs) f = apply_all rs (write_at offset buf f)

abbrev pub flat : List (List Range) → List Range
flat [] = []
flat (b ∷ bs) = b ++ flat bs

pub apply_all-append :
    (rs ss : List Range) (f : File) → apply_all (rs ++ ss) f ≡ apply_all ss (apply_all rs f)
apply_all-append [] ss f = refl
apply_all-append ((o, b) ∷ rs) ss f = apply_all-append rs ss (write_at o b f)

pub flat-append : (bs : List (List Range)) (b : List Range) → flat (bs ++ b ∷ []) ≡ flat bs ++ b
flat-append [] b = append-nil b
flat-append (c ∷ bs) b = ap (◌++◌ c) (flat-append bs b) ∙ sym (append_assoc c (flat bs) b)

-- The bytes of all ranges, and that the last of them ends at an offset.
abbrev pub total : List Range → ℕ
total [] = 0
total (r ∷ rs) = length r.1 + total rs

abbrev pub Ends : ℕ → List Range → Type 0
Ends next [] = Unit
Ends next (r ∷ []) = r.0 + length r.1 ≡ next
Ends next (r ∷ s ∷ rs) = Ends next (s ∷ rs)

write_at-append :
    (o : ℕ) (a b : Bytes) (f : File)
    → write_at o (a ++ b) f ≡ write_at (o + length a) b (write_at o a f)
write_at-append o a b f = fun_ext λ i. ground (
  arith,
  byte-append a b (i - o),
  length-append a b,
  ap (byte b) {x = i - o - length a} {y = i - (o + length a)},
)

-- The joined ranges have the effect of the ranges and then the write.
pub apply_all-join :
    (next : ℕ) (rs : List Range) (o : ℕ) (buf : Bytes) (f : File)
    → Ends next rs
    → apply_all (join next rs o buf) f ≡ write_at o buf (apply_all rs f)
apply_all-join next [] o buf f e = refl
apply_all-join next ((p, a) ∷ []) o buf f e = elim (Bool-cases (next == o)) [
  | inl meets ↦
      rw meets
        (write_at-append p a buf f ∙ ap (λ x. write_at x buf (write_at p a f)) (ground arith))
  | inr apart ↦ rw apart
]
apply_all-join next ((p, a) ∷ s ∷ rs) o buf f e =
    apply_all-join next (s ∷ rs) o buf (write_at p a f) e

pub total-join :
    (next : ℕ) (rs : List Range) (o : ℕ) (buf : Bytes)
    → total (join next rs o buf) ≡ total rs + length buf
total-join next [] o buf = omega arith
total-join next (r ∷ []) o buf = ground (arith, length-append r.1 buf)
total-join next (r ∷ s ∷ rs) o buf = omega (arith, total-join next (s ∷ rs) o buf)

pub join-Ends :
    (next : ℕ) (rs : List Range) (o : ℕ) (buf : Bytes)
    → Ends next rs
    → Ends (o + length buf) (join next rs o buf)
join-Ends next [] o buf e = refl
join-Ends next (r ∷ []) o buf e = elim (Bool-cases (next == o)) [
  | inl meets ↦ rw meets (ground (arith, length-append r.1 buf))
  | inr apart ↦ rw apart
]
join-Ends next (r ∷ s ∷ []) o buf e = elim (Bool-cases (next == o)) [
  | inl meets ↦ rw meets (ground (arith, length-append s.1 buf))
  | inr apart ↦ rw apart
]
join-Ends next (r ∷ s ∷ t ∷ rs) o buf e = join-Ends next (s ∷ t ∷ rs) o buf e
