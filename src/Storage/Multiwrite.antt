-- ===== src/Storage/Multiwrite.antt =====
-- What a handle that writes all or less makes of several ranges.
use helpers.Prelude.{ℕ, ◌+◌, ◌≤◌, ◌≡◌, refl, ap, ◌∙◌, le→ltb, List, [], ◌∷◌, length, arith}
use helpers.KeyValue.Buffer.{Bytes}
use helpers.KeyValue.Helper.{Error, Result, ok, err}
use helpers.Storage.{FileHandle, Wrote, add_written, multiwrite_loop, multiwrite}
use helpers.Buffering.WriteBuffer.Ranges.{File, write_at, apply_all, total}

module _ (h : FileHandle) where
  open h use {Store, write}

  -- No write reports more bytes than it was given.
  abbrev pub NoExcess : Type 0
  NoExcess =
      (s : Store) (offset : ℕ) (buf : Bytes) (n : ℕ)
      → (write s offset buf).1 ≡ ok n
      → n ≤ length buf

  -- What is done with what a write gives.
  abbrev pub continue : (ℕ → Store → Wrote h) → ℕ → Store × Result ℕ → Wrote h
  continue next n (t, ok wrote) = next (n + wrote) t
  continue next n (t, err e) = record { store = t; result = err e }

  -- Every range is written, also after one that was cut short, up to the first error.
  abbrev pub write_each : List (ℕ × Bytes) → ℕ → Store → Wrote h
  write_each [] n s = record { store = s; result = ok n }
  write_each ((offset, buf) ∷ buffs) n s = continue (write_each buffs) n (write s offset buf)

  after_error :
      (buffs : List (ℕ × Bytes)) (should : ℕ) (s : Store) (e : Error)
      → multiwrite_loop h should buffs (record { store = s; result = err e })
        ≡ record { store = s; result = err e }
  unfolding multiwrite_loop
  after_error [] should s e = refl
  after_error ((o, b) ∷ buffs) should s e = after_error buffs (should + length b) s e

  after_write :
      (buffs : List (ℕ × Bytes)) (b : Bytes) (should n : ℕ) (p : Store × Result ℕ)
      → ((k : ℕ) → p.1 ≡ ok k → k ≤ length b)
      → ((t : Store) (k : ℕ)
          → k ≤ length b
          → multiwrite_loop h should buffs (record { store = t; result = ok (n + k) })
            ≡ write_each buffs (n + k) t)
      → multiwrite_loop h should buffs (add_written h n p) ≡ continue (write_each buffs) n p
  after_write buffs b should n (t, ok k) bound rest = rest t k (bound k refl)
  after_write buffs b should n (t, err x) bound rest = after_error buffs should t x

  never_stops :
      NoExcess
      → (buffs : List (ℕ × Bytes)) (should n : ℕ) (s : Store) → n ≤ should
      → multiwrite_loop h should buffs (record { store = s; result = ok n }) ≡ write_each buffs n s
  unfolding multiwrite_loop
  never_stops no_excess [] should n s l = refl
  never_stops no_excess ((o, b) ∷ buffs) should n s l = rw (le→ltb should n l) (
      after_write buffs b (should + length b) n (write s o b) (no_excess s o b)
        λ t k bound. never_stops no_excess buffs (should + length b) (n + k) t (omega arith))

  -- With a handle that never reports more bytes than it was given, `multiwrite` is the sequence of
  -- all the writes up to the first error: a write that was cut short does not stop it.
  pub multiwrite_never_stops :
      NoExcess
      → (s : Store) (buffs : List (ℕ × Bytes)) → multiwrite h s buffs ≡ write_each buffs 0 s
  unfolding multiwrite
  multiwrite_never_stops no_excess s buffs = never_stops no_excess buffs 0 0 s (omega arith)

  -- A handle whose writes store all they are given, on a storage seen as a file.
  pub record Complete : Type 0 where
    pub file : Store → File
    pub all_written :
        (s : Store) (offset : ℕ) (buf : Bytes) → (write s offset buf).1 ≡ ok (length buf)
    pub file_written :
        (s : Store) (offset : ℕ) (buf : Bytes)
        → file (write s offset buf).0 ≡ write_at offset buf (file s)

  module _ (c : Complete) where
    add_all :
        (n : ℕ) (b : Bytes) (p : Store × Result ℕ)
        → p.1 ≡ ok (length b)
        → add_written h n p ≡ record { store = p.0; result = ok (n + length b) }
    add_all n b (t, r) e = rw e refl

    loop_step :
        (buffs : List (ℕ × Bytes)) (n o : ℕ) (b : Bytes) (s : Store)
        → multiwrite_loop h n ((o, b) ∷ buffs) (record { store = s; result = ok n })
          ≡ multiwrite_loop h
              (n + length b)
              buffs
              (record { store = (write s o b).0; result = ok (n + length b) })
    unfolding multiwrite_loop
    loop_step buffs n o b s = rw (le→ltb n n (omega arith)) (
        ap (multiwrite_loop h (n + length b) buffs)
          (add_all n b (write s o b) (c.all_written s o b)))

    loop_complete :
        (buffs : List (ℕ × Bytes)) (n : ℕ) (s : Store)
        → let out = multiwrite_loop h n buffs (record { store = s; result = ok n }) in
          (out.result ≡ ok (n + total buffs)) × (c.file out.store ≡ apply_all buffs (c.file s))
    unfolding multiwrite_loop
    loop_complete [] n s = (ap ok (omega arith), refl)
    loop_complete ((o, b) ∷ buffs) n s =
        let (result, stored) = loop_complete buffs (n + length b) (write s o b).0 in
        let first = loop_step buffs n o b s in
        (
          ap (λ w. w.result) first ∙ result ∙ ap ok (omega arith),
          ap (λ w. c.file w.store) first ∙ stored ∙ ap (apply_all buffs) (c.file_written s o b),
        )

    -- With a handle that writes all it is given, `multiwrite` reports the bytes of all ranges and
    -- makes of the file what the ranges make of it one after another.
    pub multiwrite_complete :
        (s : Store) (buffs : List (ℕ × Bytes))
        → ((multiwrite h s buffs).result ≡ ok (total buffs))
          × (c.file (multiwrite h s buffs).store ≡ apply_all buffs (c.file s))
    unfolding multiwrite
    multiwrite_complete s buffs =
        let (result, stored) = loop_complete buffs 0 s in (result ∙ ap ok (omega arith), stored)
