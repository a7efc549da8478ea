-- ===== src/KeyValue/Tests.antt =====
-- Tests of the adapter of key-value storages, and its theorems on a storage in memory with blocks
-- of 4 bytes.
use helpers.Prelude.{
  ℕ, zero, suc, ◌+◌, ◌≤◌, ◌≢◌, ap, subst, sym, some, List, ◌++◌, take, count_up, ◌≡◌, refl, Bool,
  true, false, ltb, none, if◌then◌else◌, [], ◌∷◌, arith,
}
use helpers.KeyValue.{
  unlink, KeyValueFileHandle, read_block, read_piece, read_pieces, read_blocks, read, pieces,
  pieces_of, write_pieces, write, write_block, store_merged, merged, get_block_id, get_block_offset,
  truncate,
}
use helpers.KeyValue.Buffer.{Bytes, range, fill_to_size}
use helpers.KeyValue.Helper.{KeyValueHelper, ok, Each}
use helpers.KeyValue.Memory.{Objects, deleted_keeps, memory, memory-Reliable}
use helpers.KeyValue.Blocks.{file_byte}
use helpers.KeyValue.Read.{read_lem}
use helpers.KeyValue.Write.{write_file, read-write}
use helpers.KeyValue.Ranges.{written_byte}
use helpers.KeyValue.Batches.{delete_objects, later_batches_kept}
use helpers.KeyValue.Truncate.{truncate_file}
use helpers.KeyValue.Unlink.{unlink_file}

abbrev whole : KeyValueHelper
whole = memory false

abbrev handle : (random : Bool) → KeyValueFileHandle (memory random)
handle random = record { file_id = 102 ∷ []; block_size = 4 }

abbrev file : Bytes
file = 102 ∷ []

abbrev nothing_stored : Objects
nothing_stored k = none

abbrev text : Bytes
text = 1 ∷ 2 ∷ 3 ∷ 4 ∷ 5 ∷ 6 ∷ 7 ∷ []

-- Bytes 2 to 8, over three blocks.
abbrev stored : Objects
unfolding write
stored = (write whole (handle false) nothing_stored 2 text).store

read_test :
    read whole (handle false) stored 0 11 ≡ ok (0 ∷ 0 ∷ 1 ∷ 2 ∷ 3 ∷ 4 ∷ 5 ∷ 6 ∷ 7 ∷ 0 ∷ 0 ∷ [])
unfolding read read_blocks read_pieces read_piece read_block pieces pieces_of write write_pieces
    write_block store_merged merged get_block_id get_block_offset fill_to_size
read_test = refl

read_lem_example :
    read whole (handle false) stored 3 5
    ≡ ok (range (file_byte whole (memory-Reliable false) 4 stored file) 3 5)
read_lem_example = read_lem whole (memory-Reliable false) (handle false) stored 3 5 (omega arith)

write_file_example :
    file_byte whole
      (memory-Reliable false)
      4
      (write whole (handle false) stored 3 (9 ∷ 8 ∷ [])).store
      file
      4
    ≡ written_byte 3 (9 ∷ 8 ∷ []) 4 (file_byte whole (memory-Reliable false) 4 stored file 4)
write_file_example =
    write_file whole (memory-Reliable false) (handle false) stored 3 (9 ∷ 8 ∷ []) 4 (omega arith)
      (omega arith) (omega arith)

read-write_example :
    read
      (memory true)
      (handle true)
      (write (memory true) (handle true) nothing_stored 3 text).store
      3
      7
    ≡ ok text
read-write_example =
    read-write (memory true) (memory-Reliable true) (handle true) nothing_stored 3 text
      (omega arith) (omega arith)

stored_end : file_byte whole (memory-Reliable false) 4 stored file 10 ≡ 0
unfolding file_byte write pieces pieces_of read_block write_pieces write_block store_merged merged
    get_block_id get_block_offset fill_to_size
stored_end = refl

truncate_file_example :
    file_byte whole (memory-Reliable false) 4 (truncate whole 4 stored file 5 9).store file 10
    ≡ (if ltb 10 5 then file_byte whole (memory-Reliable false) 4 stored file 10 else 0)
unfolding get_block_id
truncate_file_example =
    truncate_file whole (memory-Reliable false) file 4 stored 5 9 10 refl (omega arith)
      (omega arith) (omega arith) (omega arith) (omega arith) (λ past. stored_end)

unlink_file_example :
    file_byte whole (memory-Reliable false) 4 (unlink whole 4 stored file 9).store file 10 ≡ 0
unlink_file_example =
    unlink_file whole (memory-Reliable false) file 4 stored 9 10 (omega arith) (omega arith)
      (omega arith) (omega arith) (λ past. stored_end)

-- A run of numbers below `k` does not hold it.
first_differ : (n m from k : ℕ) → from + m ≤ k → Each (λ j. j ≢ k) (take n (count_up from m))
first_differ zero m from k h = tt
first_differ (suc n) zero from k h = tt
first_differ (suc n) (suc m) from k h =
    (λ same. omega arith, first_differ n m (suc from) k (omega arith))

abbrev many_keys : List ℕ
many_keys = count_up 0 1000 ++ 1000 ∷ []

take_first : (n m : ℕ) (ks : List ℕ) → n ≡ m → take n (count_up 0 m ++ ks) ≡ take n (count_up 0 m)
take_first n m ks e = go n m 0 (omega arith)
  where
    go : (n m from : ℕ) → n ≤ m → take n (count_up from m ++ ks) ≡ take n (count_up from m)
    go zero m from h = refl
    go (suc n) zero from h = absurd (omega arith)
    go (suc n) (suc m) from h = ap (◌∷◌ from) (go n m (suc from) (omega arith))

-- The last of 1001 keys keeps its object.
later_batches_kept_example :
    (delete_objects whole.delete_objects many_keys (λ k. some text)).store 1000 ≡ some text
later_batches_kept_example =
    later_batches_kept whole.delete_objects (λ s k. s k)
      (λ s ks k apart. deleted_keeps s ks k apart) many_keys 1000 (λ k. some text)
      (subst (Each (λ j. j ≢ 1000)) (sym (take_first 1000 1000 (1000 ∷ []) refl))
        (first_differ 1000 1000 0 1000 (omega arith)))
