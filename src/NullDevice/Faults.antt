-- ===== src/NullDevice/Faults.antt =====
-- The counters of a handle over a session of reads and writes, some of which fail.
use helpers.Prelude.{
  ℕ, ◌+◌, ◌≡◌, refl, sym, ap, ◌∙◌, Bool, inl, inr, Bool-cases, u64, u64_mod, List, [], ◌∷◌, length,
  length-replicate, arith,
}
use native.Mathlib.Nat.{mod-mod, mod-add-mod}
use helpers.NullDevice.{
  NullDeviceFileHandle, Answer, answered, read, write, null_char, simulate_timeout,
}
use helpers.NullDevice.Operations.{Operation}

-- A call with what the random generator draws for it.
pub data Call : Type 0 where
  read_call : Bool → ℕ → ℕ → Call
  write_call : Bool → ℕ → List ℕ → Call

-- How many bytes the answers say were read and written.
pub record Totals : Type 0 where
  pub handle : NullDeviceFileHandle
  pub bytes_read : ℕ
  pub bytes_written : ℕ

abbrev bytes_in : Answer (List ℕ) → ℕ
bytes_in (answered buf) = length buf
bytes_in a = 0

abbrev count_in : Answer ℕ → ℕ
count_in (answered n) = n
count_in a = 0

unfoldable pub session : NullDeviceFileHandle → List Call → Totals
session f [] = record { handle = f; bytes_read = 0; bytes_written = 0 }
session f (read_call drawn offset size ∷ cs) =
    let first = read f drawn offset size in
    let rest = session first.handle cs in
    record rest { bytes_read = bytes_in first.answer + rest.bytes_read }
session f (write_call drawn offset buf ∷ cs) =
    let first = write f drawn offset buf in
    let rest = session first.handle cs in
    record rest { bytes_written = count_in first.answer + rest.bytes_written }

-- What one call answers is what it adds to its counter, also when it fails.
read_adds :
    (f : NullDeviceFileHandle) (drawn : Bool) (offset size : ℕ)
    → let out = read f drawn offset size in
      (u64 out.handle.read_bytes ≡ u64 (f.read_bytes + bytes_in out.answer))
      × (out.handle.written_bytes ≡ f.written_bytes)
unfolding read
read_adds f drawn offset size = elim (Bool-cases (simulate_timeout f.helper Operation.read drawn)) [
  | inl fails ↦ rw fails (ap u64 (omega arith), refl)
  | inr works ↦
      rw (works, length-replicate size null_char) (mod-mod (f.read_bytes + size) u64_mod, refl)
]

write_adds :
    (f : NullDeviceFileHandle) (drawn : Bool) (offset : ℕ) (buf : List ℕ)
    → let out = write f drawn offset buf in
      (u64 out.handle.written_bytes ≡ u64 (f.written_bytes + count_in out.answer))
      × (out.handle.read_bytes ≡ f.read_bytes)
unfolding write
write_adds f drawn offset buf =
    elim (Bool-cases (simulate_timeout f.helper Operation.write drawn)) [
      | inl fails ↦ rw fails (ap u64 (omega arith), refl)
      | inr works ↦ rw works (mod-mod (f.written_bytes + length buf) u64_mod, refl)
    ]

add_to : (a b c n : ℕ) → u64 b ≡ u64 (a + n) → u64 (b + c) ≡ u64 (a + (n + c))
add_to a b c n e =
    sym (mod-add-mod b u64_mod c)
    ∙ ap (λ x. u64 (x + c)) e
    ∙ mod-add-mod (a + n) u64_mod c
    ∙ ap u64 (omega arith)

-- After any session of reads and writes the handle's two counters have grown by exactly the bytes
-- that the calls answered, modulo 2 ^ 64; calls with a simulated fault add nothing.
pub session_counts :
    (f : NullDeviceFileHandle) (cs : List Call)
    → let out = session f cs in
      (u64 out.handle.read_bytes ≡ u64 (f.read_bytes + out.bytes_read))
      × (u64 out.handle.written_bytes ≡ u64 (f.written_bytes + out.bytes_written))
unfolding session
session_counts f [] = (ap u64 (omega arith), ap u64 (omega arith))
session_counts f (read_call drawn offset size ∷ cs) =
    let first = read f drawn offset size in
    let (reads, writes) = session_counts first.handle cs in
    let (added, same) = read_adds f drawn offset size in
    (
      reads ∙ add_to f.read_bytes first.handle.read_bytes _ (bytes_in first.answer) added,
      writes ∙ ap (λ x. u64 (x + (session first.handle cs).bytes_written)) same,
    )
session_counts f (write_call drawn offset buf ∷ cs) =
    let first = write f drawn offset buf in
    let (reads, writes) = session_counts first.handle cs in
    let (added, same) = write_adds f drawn offset buf in
    (
      reads ∙ ap (λ x. u64 (x + (session first.handle cs).bytes_read)) same,
      writes ∙ add_to f.written_bytes first.handle.written_bytes _ (count_in first.answer) added,
    )
