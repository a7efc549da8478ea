-- ===== src/Buffering/BufferAgent/Batches.antt =====
-- src/buffering/bufferAgent.h: what the batches that are written make of the file of a handle.
use helpers.Prelude.{
  ℕ, zero, suc, ◌+◌, ◌≤◌, List, [], ◌∷◌, ◌++◌, length, take, drop, append_assoc, true, ◌≡◌, refl,
  sym, ap, ◌∙◌, ◌⊎◌, inl, inr, fun_ext, arith,
}
use helpers.KeyValue.Buffer.{Bytes}
use helpers.Buffering.WriteBuffer.{Range}
use helpers.Buffering.WriteBuffer.Ranges.{File, write_at, apply_all, flat, apply_all-append, total}
use helpers.Buffering.ReadCache.{Limits}
use helpers.Buffering.ReadCache as read_cache
use helpers.Buffering.BufferAgent.{Handle, batch_written, all_written}

pub take_before {ℓ} :
    {A : Type ℓ} (n : ℕ) (xs ys : List A) → n ≤ length xs → take n (xs ++ ys) ≡ take n xs
take_before zero xs ys h = refl
take_before (suc n) [] ys h = absurd (omega arith)
take_before (suc n) (x ∷ xs) ys h = ap (◌∷◌ x) (take_before n xs ys (omega arith))

pub take_all {ℓ} : {A : Type ℓ} (n : ℕ) (xs : List A) → n ≡ length xs → take n xs ≡ xs
take_all zero [] h = refl
take_all zero (x ∷ xs) h = absurd (omega arith)
take_all (suc n) [] h = absurd (omega arith)
take_all (suc n) (x ∷ xs) h = ap (◌∷◌ x) (take_all n xs (omega arith))

-- The first element that is left is the next one taken.
pub take_next {ℓ} :
    {A : Type ℓ} (n : ℕ) (xs : List A) (y : A) (ys : List A)
    → drop n xs ≡ y ∷ ys
    → (take (suc n) xs ≡ take n xs ++ y ∷ []) × (suc n ≤ length xs)
take_next zero [] y ys e = absurd (ground arith)
take_next zero (x ∷ xs) y ys e = (ground arith, ground arith)
take_next (suc n) [] y ys e = absurd (ground arith)
take_next (suc n) (x ∷ xs) y ys e =
    let (t, l) = take_next n xs y ys e in (ap (◌∷◌ x) t, omega arith)

flat_both : (ps bs : List (List Range)) → flat (ps ++ bs) ≡ flat ps ++ flat bs
flat_both [] bs = refl
flat_both (p ∷ ps) bs = ap (◌++◌ p) (flat_both ps bs) ∙ sym (append_assoc p (flat ps) (flat bs))

-- Batches and more batches, one after another.
pub apply_all-flat :
    (ps bs : List (List Range)) (f : File)
    → apply_all (flat (ps ++ bs)) f ≡ apply_all (flat bs) (apply_all (flat ps) f)
apply_all-flat ps bs f =
    ap (λ rs. apply_all rs f) (flat_both ps bs) ∙ apply_all-append (flat ps) (flat bs) f

write_at_empty : (o : ℕ) (buf : Bytes) (f : File) → length buf ≡ 0 → write_at o buf f ≡ f
write_at_empty o buf f e = fun_ext λ i. ground arith

-- Ranges without bytes leave a file as it is.
pub apply_all_empty : (rs : List Range) (f : File) → total rs ≡ 0 → apply_all rs f ≡ f
apply_all_empty [] f e = refl
apply_all_empty ((o, buf) ∷ rs) f e =
    ap (apply_all rs) (write_at_empty o buf f (omega arith)) ∙ apply_all_empty rs f (omega arith)

-- When all of some batches are written.
pub record AllWritten {l : Limits} (bs : List (List Range)) (h k : Handle l) : Type 0 where
  pub same_buffer : k.buffer ≡ h.buffer
  pub file_is : k.file ≡ apply_all (flat bs) h.file
  pub done_is : k.done ≡ h.done + length bs
  pub cache_is : (k.cache.clearing ≡ true) ⊎ ((bs ≡ []) × (k ≡ h))

batch_clears :
    {l : Limits} (b : List Range) (h : Handle l) → (batch_written b h).cache.clearing ≡ true
unfolding read_cache.clear
batch_clears b h = refl

still_clearing :
    {l : Limits} (bs : List (List Range)) (h : Handle l)
    → h.cache.clearing ≡ true
    → (all_written bs h).cache.clearing ≡ true
still_clearing [] h e = e
still_clearing (b ∷ bs) h e = still_clearing bs (batch_written b h) (batch_clears b h)

pub all_written_lem :
    {l : Limits} (bs : List (List Range)) (h : Handle l) → AllWritten bs h (all_written bs h)
unfolding read_cache.clear
all_written_lem [] h = record {
  same_buffer = refl;
  file_is = refl;
  done_is = omega arith;
  cache_is = inr (refl, refl);
}
all_written_lem (b ∷ bs) h =
    let rest = all_written_lem bs (batch_written b h) in
    record {
      same_buffer = rest.same_buffer;
      file_is = rest.file_is ∙ sym (apply_all-append b (flat bs) h.file);
      done_is = omega (arith, rest.done_is);
      cache_is = inl (still_clearing bs (batch_written b h) (batch_clears b h));
    }
