-- ===== src/KeyValue/Blocks.antt =====
-- Where a byte of a file lies: its block and its place in the block, and the file that the objects
-- of a storage make up.
use helpers.Prelude.{
  ℕ, zero, suc, ◌+◌, ◌*◌, ◌/◌, ◌%◌, ◌<◌, ◌≤◌, ◌≡◌, refl, ◌∙◌, ap, Option, none, some, [], arith,
  inl, inr, ◌⊎◌, Option-cases, take, drop, le→ltb,
}
use native.Mathlib.Nat.{
  mul-add-div_right, mul-add-mod_self_right, mod-eq_of_lt, div-eq_of_lt, add-zero, mod-lt,
  div-add-mod',
}
use helpers.KeyValue.{get_block_id, get_block_offset, read_block, or_empty, pieces}
use helpers.KeyValue.Buffer.{Bytes, byte}
use helpers.KeyValue.Helper.{KeyValueHelper, Reliable, ok, err, enoent}

module _ (b k r : ℕ) (h : r < b) where
  pub div_block : (k * b + r) / b ≡ k
  div_block = mul-add-div_right (omega arith) k r ∙ ap (λ x. k + x) (div-eq_of_lt h) ∙ add-zero k

  pub mod_block : (k * b + r) % b ≡ r
  mod_block = mul-add-mod_self_right k b r ∙ mod-eq_of_lt h

-- `getBlockId` and `getBlockOffset` are the quotient and the remainder.
pub get_block_offset_lem : (offset b : ℕ) → get_block_offset offset b ≡ offset % b
unfolding get_block_offset get_block_id
get_block_offset_lem offset b = omega (arith, div-add-mod' offset b)

pub blocks_join : (offset b : ℕ) → get_block_id offset b * b + get_block_offset offset b ≡ offset
unfolding get_block_id
blocks_join offset b = rw (get_block_offset_lem offset b) (div-add-mod' offset b)

pub get_block_offset-lt : (offset b : ℕ) → 0 < b → get_block_offset offset b < b
get_block_offset-lt offset b h = rw (get_block_offset_lem offset b) (mod-lt offset h)

abbrev pub or_nothing : Option Bytes → Bytes
or_nothing none = []
or_nothing (some c) = c

-- Past the end no round is left.
pub pieces_done :
    (fuel block_size size id block_offset done : ℕ)
    → size ≤ done
    → pieces fuel block_size size id block_offset done ≡ []
unfolding pieces
pieces_done zero block_size size id block_offset done h = refl
pieces_done (suc fuel) block_size size id block_offset done h = rw (le→ltb done size h)

module _ (h : KeyValueHelper) (r : Reliable h) where
  open h use {Store, Key, get_key, get_object}

  -- The bytes of an object; a missing object has none.
  abbrev pub object : Store → Key → Bytes
  object s k = or_nothing (r.content s k)

  -- Byte `i` of a file; what was never written is 0.
  unfoldable pub file_byte : ℕ → Store → Bytes → ℕ → ℕ
  file_byte b s file_id i = byte (object s (get_key file_id (i / b))) (i % b)

  pub file_byte-block :
      (b : ℕ) (s : Store) (file_id : Bytes) (k i : ℕ)
      → i < b
      → file_byte b s file_id (k * b + i) ≡ byte (object s (get_key file_id k)) i
  unfolding file_byte
  file_byte-block b s file_id k i l = rw (div_block b k i l, mod_block b k i l)

  pub read_block_lem :
      (s : Store) (k : Key) (offset size : ℕ)
      → read_block h s k offset size ≡ ok (take size (drop offset (object s k)))
  unfolding read_block
  read_block_lem s k offset size = elim (Option-cases (r.content s k)) [
    | inl e ↦ rw e (rw (drop_nil offset, take_nil size) (missing (r.get_missing s k offset size e)))
    | inr (c, e) ↦ rw (e, r.get_present s k offset size c e)
  ]
    where
      drop_nil : (n : ℕ) → drop {A = ℕ} n [] ≡ []
      drop_nil zero = refl
      drop_nil (suc n) = refl

      take_nil : (n : ℕ) → take {A = ℕ} n [] ≡ []
      take_nil zero = refl
      take_nil (suc n) = refl

      missing :
          (get_object s k offset size ≡ err enoent) ⊎ (get_object s k offset size ≡ ok [])
          → or_empty (get_object s k offset size) ≡ ok []
      missing (inl e) = rw e
      missing (inr e) = rw e
