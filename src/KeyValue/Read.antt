-- ===== src/KeyValue/Read.antt =====
-- src/keyValueAdapter.cc: the bytes that a read gives.
use Prim.Native.Nat.{min}
use helpers.Prelude.{
  ℕ, zero, suc, ◌+◌, ◌-◌, ◌*◌, ◌<◌, ◌≤◌, ◌≡◌, refl, sym, ◌∙◌, ap, ap₂, ltb, ◌==◌, inl, inr,
  Bool-cases, length, lt→ltb, ltb→lt, ◌++◌, length-take, take, drop, arith,
}
use native.Mathlib.Decide.{dec_le}
use native.Mathlib.Nat.{add_assoc}
use helpers.KeyValue.{
  Piece, pieces, pieces_of, KeyValueFileHandle, read_piece, read_pieces, read_blocks, read,
}
use helpers.KeyValue.Buffer.{
  Bytes, byte, range, eq_range, fill_to_size, byte-fill_to_size, length-fill_to_size, byte-take,
  byte-drop, range-append,
}
use helpers.KeyValue.Helper.{KeyValueHelper, Reliable, ok}
use helpers.KeyValue.Blocks.{
  object, file_byte, file_byte-block, read_block_lem, pieces_done, blocks_join, get_block_offset-lt,
}

module _ (h : KeyValueHelper) (r : Reliable h) (f : KeyValueFileHandle h) (s : h.Store) where
  open h use {get_key}
  open f use {file_id, block_size}

  abbrev contents : ℕ → ℕ
  contents = file_byte h r block_size s file_id

  read_piece_lem :
      (p : Piece)
      → p.block_offset + p.size ≤ block_size
      → read_piece h f s p ≡ ok (range contents (p.block_id * block_size + p.block_offset) p.size)
  unfolding read_piece
  read_piece_lem p l =
      rw (read_block_lem h r s (get_key file_id p.block_id) p.block_offset p.size)
        (ap ok (eq_range contents _ p.size _ filled same))
    where
      old : Bytes
      old = object h r s (get_key file_id p.block_id)

      got : Bytes
      got = take p.size (drop p.block_offset old)

      filled : length (fill_to_size got p.size) ≡ p.size
      filled =
          length-fill_to_size got p.size
            (omega (arith, length-take p.size (drop p.block_offset old)))

      same :
          (i : ℕ)
          → i < p.size
          → byte (fill_to_size got p.size) i
            ≡ contents (p.block_id * block_size + p.block_offset + i)
      same i k =
          byte-fill_to_size got p.size i
          ∙ byte-take p.size (drop p.block_offset old) i
          ∙ rw (lt→ltb i p.size k) (byte-drop p.block_offset old i)
          ∙ sym (
              file_byte-block h r block_size s file_id p.block_id (p.block_offset + i)
                (omega arith))
          ∙ ap contents (omega arith)

  -- What the rounds that begin in a block give.
  abbrev Reads : ℕ → ℕ → ℕ → ℕ → ℕ → ℕ → Type 0
  Reads fuel size offset id block_offset done =
      read_pieces h f s (pieces fuel block_size size id block_offset done)
      ≡ ok (range contents (offset + done) (size - done))

  done-Reads :
      (fuel size offset id block_offset done : ℕ)
      → size ≤ done
      → Reads fuel size offset id block_offset done
  unfolding read_pieces
  done-Reads fuel size offset id block_offset done l =
      rw (pieces_done fuel block_size size id block_offset done l, sub_none) refl
    where
      sub_none : size - done ≡ 0
      sub_none = omega arith

  module _ (fuel size offset id block_offset done : ℕ) (more : done < size) where
    abbrev taken : ℕ
    taken = min (block_size - block_offset) (size - done)

    round-Reads :
        id * block_size + block_offset ≡ offset + done
        → block_offset < block_size
        → Reads fuel size offset (id + 1) 0 (done + taken)
        → Reads (suc fuel) size offset id block_offset done
    unfolding pieces read_pieces
    round-Reads e l rest =
        rw (lt→ltb done size more, read_piece_lem piece (omega arith), e, rest) (ap ok joined)
      where
        piece : Piece
        piece = record {
          block_id = id;
          block_offset = block_offset;
          buf_offset = done;
          size = taken;
        }

        rest_of : (n : ℕ) → n ≤ size - done → n + (size - (done + n)) ≡ size - done
        rest_of n b = omega arith

        joined :
            range contents (offset + done) taken
              ++ range contents (offset + (done + taken)) (size - (done + taken))
            ≡ range contents (offset + done) (size - done)
        joined =
            ap
              (λ x.
                range contents (offset + done) taken ++ range contents x (size - (done + taken)))
              (sym (add_assoc offset done taken))
            ∙ range-append contents (offset + done) taken (size - (done + taken))
            ∙ ap (range contents (offset + done)) (rest_of taken (omega arith))

  read_pieces_lem :
      (fuel size offset id block_offset done : ℕ)
      → id * block_size + block_offset ≡ offset + done
      → block_offset < block_size
      → size - done ≤ fuel
      → Reads fuel size offset id block_offset done
  read_pieces_lem zero size offset id block_offset done e l b =
      done-Reads zero size offset id block_offset done (omega arith)
  read_pieces_lem (suc fuel) size offset id block_offset done e l b =
      elim (Bool-cases (ltb done size)) [
        | inr over ↦ done-Reads (suc fuel) size offset id block_offset done (ground arith)
        | inl more ↦
            let m = ltb→lt done size more in
            let n = taken fuel size offset id block_offset done m in
            round-Reads fuel size offset id block_offset done m e l
              (elim (dec_le (size - done) (block_size - block_offset)) [
                | yes last ↦ done-Reads fuel size offset (id + 1) 0 (done + n) (omega arith)
                | no full ↦
                    read_pieces_lem fuel size offset (id + 1) 0 (done + n) (omega arith)
                      (omega arith) (omega arith)
              ])
      ]

  -- A read of `size` bytes at `offset` succeeds and gives exactly the bytes of the file from there
  -- on, with zeros for what was never written, also past the end of the file.
  pub read_lem :
      (offset size : ℕ) → 0 < block_size → read h f s offset size ≡ ok (range contents offset size)
  unfolding read read_blocks pieces_of
  read_lem offset size l = elim (Bool-cases (size == 0)) [
    | inl none_asked ↦ rw none_asked (ap (λ n. ok (range contents offset n)) {x = 0} (ground arith))
    | inr some_asked ↦ rw some_asked (
        read_pieces_lem size size offset _ _ 0 (blocks_join offset block_size ∙ omega arith)
          (get_block_offset-lt offset block_size l) (omega arith)
        ∙ ap₂ (λ x n. ok (range contents x n)) {x = offset + 0} {u = size - 0} (omega arith)
            (omega arith))
  ]
