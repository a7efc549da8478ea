-- ===== src/KeyValue/Write.antt =====
-- src/keyValueAdapter.cc: the bytes that a write changes, and what it reports.
use Prim.Native.Nat.{min}
use native.Mathlib.Decide.{dec_le, ℕ_discrete}
use native.Mathlib.Nat.{div-add-mod', mod-lt}
use helpers.Prelude.{
  ℕ, zero, suc, ◌+◌, ◌-◌, ◌*◌, ◌/◌, ◌%◌, ◌<◌, ◌≤◌, ◌≡◌, refl, sym, ◌∙◌, ap, ◌&&◌, ltb, leb, ◌==◌,
  inl, inr, lt→ltb, ltb→lt, if◌then◌else◌, Bool-cases, List, ◌∷◌, length, length-take, length-drop,
  drop, arith,
}
use helpers.KeyValue.{
  Piece, pieces, part_of, KeyValueFileHandle, write_block, write_pieces, write, read, get_block_id,
  get_block_offset,
}
use helpers.KeyValue.Buffer.{Bytes, byte, byte-take, byte-drop, eq_range}
use helpers.KeyValue.Helper.{KeyValueHelper, Reliable, ok, max_object_id}
use helpers.KeyValue.Blocks.{object, file_byte, pieces_done, blocks_join, get_block_offset-lt}
use helpers.KeyValue.Read.{read_lem}
use helpers.KeyValue.WriteBlock.{write_block_ok, write_block_other, write_block_own}
use helpers.KeyValue.Ranges.{
  capacity, id_in_range, div_in_range, written_byte, patched_shift, part_written, ranges_join,
  not_written,
}

module _ (h : KeyValueHelper) (r : Reliable h) (f : KeyValueFileHandle h) where
  open h use {get_key}
  open f use {file_id, block_size}

  write_block_file :
      (s : h.Store) (buf : Bytes) (id block_offset i : ℕ)
      → block_offset + length buf ≤ block_size
      → 0 < length buf
      → id ≤ max_object_id
      → i < capacity block_size
      → file_byte h r block_size (write_block h f s buf id block_offset).store file_id i
        ≡ written_byte (id * block_size + block_offset) buf i (file_byte h r block_size s file_id i)
  unfolding file_byte
  write_block_file s buf id block_offset i fits some_bytes in_range inside =
      elim (ℕ_discrete (i / block_size) id) [
        | yes own ↦ rw own (
            write_block_own h r f s buf id block_offset fits (i % block_size)
              (mod-lt i (omega arith))
            ∙ patched_shift old buf (id * block_size) block_offset (i % block_size)
            ∙ ap
                (λ x.
                  written_byte (id * block_size + block_offset) buf x (byte old (i % block_size)))
                (ap (λ x. x * block_size + i % block_size) (sym own) ∙ div-add-mod' i block_size))
        | no other ↦
            ap (λ c. byte c (i % block_size))
              (write_block_other h r f s buf id block_offset fits (get_key file_id (i / block_size))
                λ e. other (
                  sym (
                    r.get_key_injective file_id id (i / block_size) in_range
                      (div_in_range block_size i inside) e)))
            ∙ sym (not_written block_size id block_offset i _ buf fits other)
      ]
    where
      old : Bytes
      old = object h r s (get_key file_id id)

  -- What the rounds that begin in a block write.
  abbrev Writes : Bytes → ℕ → h.Store → List Piece → ℕ → Type 0
  Writes buf offset s ps done =
      (i : ℕ)
      → i < capacity block_size
      → file_byte h r block_size (write_pieces h f s buf ps).store file_id i ≡ (
          if leb (offset + done) i && ltb i (offset + length buf)
          then byte buf (i - offset)
          else file_byte h r block_size s file_id i)

  done-Writes :
      (buf : Bytes) (offset : ℕ) (s : h.Store) (fuel id block_offset done : ℕ)
      → length buf ≤ done
      → Writes buf offset s (pieces fuel block_size (length buf) id block_offset done) done
  unfolding write_pieces
  done-Writes buf offset s fuel id block_offset done l i inside =
      rw (pieces_done fuel block_size (length buf) id block_offset done l) (ground arith)

  module _ (buf : Bytes) (offset : ℕ) (s : h.Store) (fuel id block_offset done : ℕ)
      (more : done < length buf) (at : id * block_size + block_offset ≡ offset + done)
      (within : block_offset < block_size) (bound : offset + length buf ≤ capacity block_size) where
    abbrev piece : Piece
    piece = record {
      block_id = id;
      block_offset = block_offset;
      buf_offset = done;
      size = min (block_size - block_offset) (length buf - done);
    }

    abbrev stored : h.Store
    stored = (write_block h f s (part_of buf piece) id block_offset).store

    length-part : length (part_of buf piece) ≡ piece.size
    length-part = omega (arith, length-take piece.size (drop done buf), length-drop done buf)

    byte-part : (i : ℕ) → i < piece.size → byte (part_of buf piece) i ≡ byte buf (done + i)
    byte-part i l =
        byte-take piece.size (drop done buf) i ∙ rw (lt→ltb i piece.size l) (byte-drop done buf i)

    piece_writes :
        (i : ℕ)
        → i < capacity block_size
        → file_byte h r block_size stored file_id i ≡ (
            if leb (offset + done) i && ltb i (offset + done + piece.size)
            then byte buf (i - offset)
            else file_byte h r block_size s file_id i)
    piece_writes i inside =
        write_block_file s (part_of buf piece) id block_offset i (omega (arith, length-part))
          (omega (arith, length-part))
          (id_in_range block_size id (offset + done) (omega arith) (omega arith)) inside
        ∙ part_written buf (part_of buf piece) (id * block_size + block_offset) offset done
            piece.size i _ at length-part byte-part

    round-Writes :
        (rest : List Piece)
        → Writes buf offset stored rest (done + piece.size)
        → Writes buf offset s (piece ∷ rest) done
    unfolding write_pieces
    round-Writes rest w i inside =
        w i inside
        ∙ ap
            (λ x.
              if leb (offset + (done + piece.size)) i && ltb i (offset + length buf)
              then byte buf (i - offset)
              else x)
            (piece_writes i inside)
        ∙ ranges_join offset done piece.size (length buf) i (byte buf (i - offset)) _ (omega arith)

  write_pieces_lem :
      (buf : Bytes) (offset : ℕ) (s : h.Store) (fuel id block_offset done : ℕ)
      → id * block_size + block_offset ≡ offset + done
      → block_offset < block_size
      → offset + length buf ≤ capacity block_size
      → length buf - done ≤ fuel
      → Writes buf offset s (pieces fuel block_size (length buf) id block_offset done) done
  unfolding pieces
  write_pieces_lem buf offset s zero id block_offset done e l b u =
      done-Writes buf offset s zero id block_offset done (omega arith)
  write_pieces_lem buf offset s (suc fuel) id block_offset done e l b u =
      elim (Bool-cases (ltb done (length buf))) [
        | inr over ↦ done-Writes buf offset s (suc fuel) id block_offset done (ground arith)
        | inl more ↦
            let m = ltb→lt done (length buf) more in
            let n = min (block_size - block_offset) (length buf - done) in
            let s' = stored buf offset s fuel id block_offset done m e l b in
            rw more (
              round-Writes buf offset s fuel id block_offset done m e l b _
                (elim (dec_le (length buf - done) (block_size - block_offset)) [
                  | yes last ↦ done-Writes buf offset s' fuel (id + 1) 0 (done + n) (omega arith)
                  | no full ↦
                      write_pieces_lem buf offset s' fuel (id + 1) 0 (done + n) (omega arith)
                        (omega arith) b (omega arith)
                ]))
      ]

  -- A write leaves at `offset` and behind it exactly the bytes given, and every other byte of the
  -- file as it was, as far as `MAX_OBJECT_ID` blocks go.
  pub write_file :
      (s : h.Store) (offset : ℕ) (buf : Bytes) (i : ℕ)
      → 0 < block_size
      → offset + length buf ≤ capacity block_size
      → i < capacity block_size
      → file_byte h r block_size (write h f s offset buf).store file_id i
        ≡ written_byte offset buf i (file_byte h r block_size s file_id i)
  unfolding write
  write_file s offset buf i pos b inside = elim (Bool-cases (length buf == 0)) [
    | inl none_given ↦ rw none_given (ground arith)
    | inr some_given ↦ rw some_given (
        write_pieces_lem buf offset s (length buf) _ _ 0
          (blocks_join offset block_size ∙ omega arith) (get_block_offset-lt offset block_size pos)
          b (omega arith) i inside
        ∙ ap
            (λ x.
              if leb x i && ltb i (offset + length buf)
              then byte buf (i - offset)
              else file_byte h r block_size s file_id i)
            {x = offset + 0} (omega arith))
  ]

  write_pieces_ok :
      (buf : Bytes) (s : h.Store) (fuel size id block_offset done : ℕ)
      → size ≤ length buf
      → block_offset ≤ block_size
      → (write_pieces h f s buf (pieces fuel block_size size id block_offset done)).result ≡ ok tt
  unfolding pieces write_pieces
  write_pieces_ok buf s zero size id block_offset done l o = refl
  write_pieces_ok buf s (suc fuel) size id block_offset done l o =
      let n = min (block_size - block_offset) (size - done) in
      let p : Piece = record {
        block_id = id;
        block_offset = block_offset;
        buf_offset = done;
        size = n;
      } in
      let s' = (write_block h f s (part_of buf p) id block_offset).store in
      let fits : block_offset + length (part_of buf p) ≤ block_size =
        omega (arith, length-take n (drop done buf)) in
      elim (Bool-cases (ltb done size)) [
        | inr over ↦ rw over
        | inl more ↦
            rw (more, write_block_ok h r f s (part_of buf p) id block_offset fits)
              (write_pieces_ok buf s' fuel size (id + 1) 0 (done + n) l (omega arith))
      ]

  -- And it reports that all bytes were written.
  pub write_result :
      (s : h.Store) (offset : ℕ) (buf : Bytes)
      → 0 < block_size
      → (write h f s offset buf).result ≡ ok (length buf)
  unfolding write
  write_result s offset buf pos = elim (Bool-cases (length buf == 0)) [
    | inl none_given ↦ rw none_given (ap ok {x = 0} (ground arith))
    | inr some_given ↦ rw (
      some_given,
      write_pieces_ok buf s (length buf) (length buf) (get_block_id offset block_size)
          (get_block_offset offset block_size) 0 (omega arith)
          (omega (arith, get_block_offset-lt offset block_size pos)),
    )
  ]

  -- What was written is read back.
  pub read-write :
      (s : h.Store) (offset : ℕ) (buf : Bytes)
      → 0 < block_size
      → offset + length buf ≤ capacity block_size
      → read h f (write h f s offset buf).store offset (length buf) ≡ ok buf
  read-write s offset buf pos b =
      read_lem h r f (write h f s offset buf).store offset (length buf) pos
      ∙ ap ok (
          sym (
            eq_range _ offset (length buf) buf refl λ i l. sym (
              write_file s offset buf (offset + i) pos b (omega arith)
              ∙ ground (arith, ap (byte buf) {x = offset + i - offset} {y = i}))))
