-- ===== src/KeyValue/Ranges.antt =====
-- Bytes that are in a range, and blocks that are below `MAX_OBJECT_ID`.
use native.Mathlib.Decide.{dec_le}
use native.Mathlib.Nat.{div-add-mod'}
use helpers.Prelude.{
  ℕ, ◌+◌, ◌-◌, ◌*◌, ◌/◌, ◌<◌, ◌≤◌, ◌≡◌, ◌≢◌, ◌∙◌, ap, ◌&&◌, ltb, leb, if◌then◌else◌, length, arith,
}
use helpers.KeyValue.Buffer.{Bytes, byte}
use helpers.KeyValue.Helper.{max_object_id}
use helpers.KeyValue.Blocks.{div_block}
use helpers.KeyValue.WriteBlock.{patched}

-- How many bytes the blocks 0 to `MAX_OBJECT_ID` hold.
abbrev pub capacity : ℕ → ℕ
capacity block_size = (max_object_id + 1) * block_size

pub id_in_range : (b id x : ℕ) → id * b ≤ x → x < capacity b → id ≤ max_object_id
id_in_range b id x h l = elim (dec_le id max_object_id) [
  | yes in_range ↦ in_range
  | no out ↦ absurd (grind arith)
]

pub div_in_range : (b i : ℕ) → i < capacity b → i / b ≤ max_object_id
div_in_range b i l = id_in_range b (i / b) i (omega (arith, div-add-mod' i b)) l

pub in_block : (b id i : ℕ) → id * b ≤ i → i < id * b + b → i / b ≡ id
in_block b id i h l =
    ap (λ x. x / b) {x = i} {y = id * b + (i - id * b)} (omega arith)
    ∙ div_block b id (i - id * b) (omega arith)

-- Byte `i` of a file after `buf` is written at `offset` of it, if it was `old`.
abbrev pub written_byte : ℕ → Bytes → ℕ → ℕ → ℕ
written_byte offset buf i old =
    if leb offset i && ltb i (offset + length buf) then byte buf (i - offset) else old

pub patched_shift :
    (old buf : Bytes) (base offset i : ℕ)
    → patched old offset buf i ≡ written_byte (base + offset) buf (base + i) (byte old i)
patched_shift old buf base offset i =
    ground (arith, ap (byte buf) {x = i - offset} {y = base + i - (base + offset)})

pub part_written :
    (buf part : Bytes) (start offset done n i old : ℕ)
    → start ≡ offset + done
    → length part ≡ n
    → ((k : ℕ) → k < n → byte part k ≡ byte buf (done + k))
    → written_byte start part i old
      ≡ (if leb (offset + done) i && ltb i (offset + done + n) then byte buf (i - offset) else old)
part_written buf part start offset done n i old e l same =
    ground (arith, same (i - start), ap (byte buf) {x = done + (i - start)} {y = i - offset})

-- Two ranges that meet are one.
pub ranges_join :
    (from done n size i new old : ℕ)
    → done + n ≤ size
    → (if leb (from + (done + n)) i && ltb i (from + size)
        then new
        else (if leb (from + done) i && ltb i (from + done + n) then new else old))
      ≡ (if leb (from + done) i && ltb i (from + size) then new else old)
ranges_join from done n size i new old h = ground arith

pub not_written :
    (b id offset i old : ℕ) (buf : Bytes)
    → offset + length buf ≤ b
    → i / b ≢ id
    → written_byte (id * b + offset) buf i old ≡ old
not_written b id offset i old buf fits other = ground (arith, in_block b id i)
