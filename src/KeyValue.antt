-- ===== src/KeyValue.antt =====
-- src/keyValueAdapter.cc over the interface of src/keyValueHelper.h: files as sequences of
-- objects of one block each. The pieces of a read or a write, which the executor runs, are taken
-- in order; each locks its own key. Offsets are not negative and sizes do not wrap.
pub mod Buffer
pub mod Helper
pub mod Key
pub mod Blocks
pub mod Read
pub mod Ranges
pub mod Write
pub mod WriteBlock
pub mod Batches
pub mod Cut
pub mod Truncate
pub mod Unlink
pub mod Memory
pub mod Tests
use helpers.Prelude.{
  ℕ, zero, suc, ◌+◌, ◌-◌, ◌*◌, ◌/◌, min, Bool, true, false, ◌&&◌, ◌||◌, ltb, leb, ◌==◌, not,
  if◌then◌else◌, List, [], ◌∷◌, ◌++◌, length, take, drop, map, count_up,
}
use Buffer.{Bytes, fill_to_size}
use Helper.{KeyValueHelper, Error, enoent, Result, ok, err, ◌>>=◌, Outcome}

unfoldable pub get_block_id : ℕ → ℕ → ℕ
get_block_id offset block_size = offset / block_size

unfoldable pub get_block_offset : ℕ → ℕ → ℕ
unfolding get_block_id
get_block_offset offset block_size = offset - get_block_id offset block_size * block_size

-- A round of the loop of `write` and of `readBlocks`: what it does with one block.
pub record Piece : Type 0 where
  pub block_id : ℕ
  pub block_offset : ℕ
  pub buf_offset : ℕ
  pub size : ℕ

-- The rounds, from a block and an offset in it on; the fuel bounds how many there are.
unfoldable pub pieces : ℕ → ℕ → ℕ → ℕ → ℕ → ℕ → List Piece
pieces zero block_size size block_id block_offset buf_offset = []
pieces (suc fuel) block_size size block_id block_offset buf_offset =
    let n = min (block_size - block_offset) (size - buf_offset) in
    let rest = pieces fuel block_size size (block_id + 1) 0 (buf_offset + n) in
    if ltb buf_offset size
    then record {
      block_id = block_id;
      block_offset = block_offset;
      buf_offset = buf_offset;
      size = n;
    }
      ∷ rest
    else []

-- Each round takes a byte or more.
unfoldable pub pieces_of : ℕ → ℕ → ℕ → List Piece
unfolding pieces get_block_id get_block_offset
pieces_of block_size offset size =
    pieces size block_size size (get_block_id offset block_size)
      (get_block_offset offset block_size) 0

abbrev pub or_empty : Result Bytes → Result Bytes
or_empty (ok buf) = ok buf
or_empty (err enoent) = ok []
or_empty (err e) = err e

-- The part of the object before the block's offset, cut or filled to it.
abbrev pub head_of : Bytes → ℕ → Bytes
head_of fetched block_offset =
    if ltb 0 block_offset then fill_to_size (take block_offset fetched) block_offset else []

-- What is stored when only the whole object can be: the old object with the new bytes in it.
unfoldable pub merged : Bytes → Bytes → ℕ → Bytes
merged fetched buf block_offset =
    let filled = head_of fetched block_offset ++ buf in
    if ltb (length filled) (length fetched) then filled ++ drop (length filled) fetched else filled

-- The bytes of one round: `trimStart` and `trimEnd` of a copy of the buffer.
abbrev pub part_of : Bytes → Piece → Bytes
part_of buf p = take p.size (drop p.buf_offset buf)

abbrev pub first_error : Result (Unit {0}) → Result (Unit {0}) → Result (Unit {0})
first_error (ok u) r = r
first_error (err e) r = err e

-- Blocks 0 to `last`.
abbrev pub ids_to : ℕ → List ℕ
ids_to last = count_up 0 (suc last)

abbrev pub select : (ℕ → Bool) → List ℕ → List ℕ
select p [] = []
select p (i ∷ is) = if p i then i ∷ select p is else select p is

-- Which blocks a truncation removes.
abbrev pub is_cut : ℕ → ℕ → ℕ → Bool
is_cut new_last new_offset i = ltb new_last i || (i == new_last && new_offset == 0)

module _ (h : KeyValueHelper) where
  open h use {Store, Key, get_key, get_object, put_object, delete_objects, has_random_access}

  -- The free function `readBlock`: a missing object is an empty one.
  unfoldable pub read_block : Store → Key → ℕ → ℕ → Result Bytes
  read_block s key offset size = or_empty (get_object s key offset size)

  pub record KeyValueFileHandle : Type 0 where
    pub file_id : Bytes
    pub block_size : ℕ

  unfoldable pub read_piece : KeyValueFileHandle → Store → Piece → Result Bytes
  unfolding read_block
  read_piece f s p = do
    buf ← read_block s (get_key f.file_id p.block_id) p.block_offset p.size
    ok (fill_to_size buf p.size)

  -- `folly::collect` and the concatenation of what it gives: the first error is the result.
  unfoldable pub read_pieces : KeyValueFileHandle → Store → List Piece → Result Bytes
  unfolding read_piece
  read_pieces f s [] = ok []
  read_pieces f s (p ∷ ps) =
      read_piece f s p >>= λ buf. read_pieces f s ps >>= λ rest. ok (buf ++ rest)

  unfoldable pub read_blocks : KeyValueFileHandle → Store → ℕ → ℕ → Result Bytes
  unfolding pieces_of
  read_blocks f s offset size =
      if size == 0 then ok [] else read_pieces f s (pieces_of f.block_size offset size)

  unfoldable pub read : KeyValueFileHandle → Store → ℕ → ℕ → Result Bytes
  unfolding read_blocks
  read f s offset size = read_blocks f s offset size

  unfoldable pub store_merged : Store → Key → Bytes → ℕ → Result Bytes → Outcome Store
  unfolding merged
  store_merged s key buf block_offset (err e) = record { store = s; result = err e }
  store_merged s key buf block_offset (ok fetched) =
      put_object s key (merged fetched buf block_offset) 0

  unfoldable pub write_block : KeyValueFileHandle → Store → Bytes → ℕ → ℕ → Outcome Store
  unfolding store_merged read_block
  write_block f s buf block_id block_offset =
      let key = get_key f.file_id block_id in
      if not (length buf == f.block_size)
      then (if has_random_access
          then put_object s key buf block_offset
          else store_merged s key buf block_offset (read_block s key 0 f.block_size))
      else put_object s key buf 0

  -- Every round runs, also after one that failed.
  unfoldable pub write_pieces : KeyValueFileHandle → Store → Bytes → List Piece → Outcome Store
  unfolding write_block
  write_pieces f s buf [] = record { store = s; result = ok tt }
  write_pieces f s buf (p ∷ ps) =
      let first = write_block f s (part_of buf p) p.block_id p.block_offset in
      let rest = write_pieces f first.store buf ps in
      record rest { result = first_error first.result rest.result }

  pub record Written : Type 0 where
    pub store : Store
    pub result : Result ℕ

  unfoldable pub write : KeyValueFileHandle → Store → ℕ → Bytes → Written
  unfolding write_pieces pieces_of
  write f s offset buf =
      if length buf == 0
      then record { store = s; result = ok 0 }
      else (let out = write_pieces f s buf (pieces_of f.block_size offset (length buf)) in
          record { store = out.store; result = out.result >>= λ _. ok (length buf) })

  unfoldable pub unlink : ℕ → Store → Bytes → ℕ → Outcome Store
  unlink block_size s file_id current_size =
      if current_size == 0
      then record { store = s; result = ok tt }
      else delete_objects s (map (get_key file_id) (ids_to (current_size / block_size)))

  -- The last object, cut or filled to its new size.
  unfoldable pub store_filled : Store → Key → ℕ → Result Bytes → Outcome Store
  store_filled s key size (err e) = record { store = s; result = err e }
  store_filled s key size (ok buf) = put_object s key (fill_to_size buf size) 0

  -- An exception leaves the rest undone.
  abbrev pub and_then : Outcome Store → (Store → Outcome Store) → Outcome Store
  and_then out next = elim out.result [
    | ok u ↦ next out.store
    | err e ↦ record { store = out.store; result = err e }
  ]

  unfoldable pub delete_cut : Bytes → List ℕ → Store → Outcome Store
  delete_cut file_id [] s = record { store = s; result = ok tt }
  delete_cut file_id (i ∷ is) s = delete_objects s (map (get_key file_id) (i ∷ is))

  unfoldable pub truncate : ℕ → Store → Bytes → ℕ → ℕ → Outcome Store
  unfolding read_block store_filled get_block_id get_block_offset
  truncate block_size s file_id size current_size =
      let new_last = get_block_id size block_size in
      let new_offset = get_block_offset size block_size in
      let cut =
        select (is_cut new_last new_offset) (ids_to (get_block_id current_size block_size)) in
      let whole = new_offset == 0 && ltb 0 new_last in
      let key = get_key file_id (if whole then new_last - 1 else new_last) in
      let remainder = if whole then block_size else new_offset in
      if size == current_size
      then record { store = s; result = ok tt }
      else and_then
          (if ltb 0 remainder || ltb 0 new_last
            then store_filled s key remainder (read_block s key 0 remainder)
            else record { store = s; result = ok tt })
          (delete_cut file_id cut)
