-- ===== src/KeyValue/Truncate.antt =====
-- src/keyValueAdapter.cc: the truncation of a file whose storage replaces whole objects.
use native.Mathlib.Nat.{div-add-mod', mod-lt}
use helpers.Prelude.{
  ℕ, suc, length, ◌+◌, ◌-◌, ◌*◌, ◌/◌, ◌%◌, ◌<◌, ◌≤◌, ◌≡◌, ◌∙◌, ap, Bool, false, ◌&&◌, ◌||◌, ltb,
  leb, ◌==◌, inl, inr, if◌then◌else◌, Bool-cases, arith,
}
use helpers.KeyValue.{select, is_cut, ids_to, delete_cut, truncate, get_block_id, get_block_offset}
use helpers.KeyValue.Buffer.{Bytes, byte}
use helpers.KeyValue.Helper.{KeyValueHelper, Reliable, max_object_id, max_delete_objects}
use helpers.KeyValue.Blocks.{object, file_byte, blocks_join, get_block_offset-lt}
use helpers.KeyValue.Ranges.{capacity, div_in_range, id_in_range}
use helpers.KeyValue.Cut.{
  object-delete_cut, length-select_from, cut_store, store_filled_ok, and_then_ok, cut_object,
  byte_if,
}

pub next_block : (b p q : ℕ) → p < q → p * b + b ≤ q * b
next_block b p q h = grind arith

-- Which block is cut, and to what size, for a new size of `last` blocks and `rest` bytes.
abbrev is_whole : ℕ → ℕ → Bool
is_whole last rest = rest == 0 && ltb 0 last

abbrev cut_block : ℕ → ℕ → ℕ
cut_block last rest = if is_whole last rest then last - 1 else last

abbrev cut_size : ℕ → ℕ → ℕ → ℕ
cut_size b last rest = if is_whole last rest then b else rest

abbrev is_putting : ℕ → ℕ → ℕ → Bool
is_putting b last rest = ltb 0 (cut_size b last rest) || ltb 0 last

-- Which bytes are left, by their block and their place in it.
module _ (b i q place size last rest current current_last current_rest old : ℕ)
    (i_at : q * b + place ≡ i) (i_in : place < b) (size_at : last * b + rest ≡ size)
    (size_in : rest < b) (current_at : current_last * b + current_rest ≡ current)
    (current_in : current_rest < b) (none_past : current ≤ i → old ≡ 0) where
  left_byte :
      (if leb q current_last && is_cut last rest q
        then 0
        else (if is_putting b last rest
            then (if cut_block last rest == q && leb (cut_size b last rest) place then 0 else old)
            else old))
      ≡ (if ltb i size then old else 0)
  left_byte = ground (arith, next_block b q last, next_block b last q, next_block b current_last q)

module _ (h : KeyValueHelper) (r : Reliable h) (file_id : Bytes) (b : ℕ) where
  open h use {Store, get_key, has_random_access}

  -- The store between the two steps of a truncation.
  abbrev after_put : Store → ℕ → ℕ → Bool → Store
  after_put s t n putting = if putting then cut_store h r file_id s t n else s

  truncate_store :
      (s : Store) (size current : ℕ)
      → (size == current) ≡ false
      → let last = get_block_id size b in
        let rest = get_block_offset size b in
        (truncate h b s file_id size current).store
        ≡ (delete_cut h file_id (select (is_cut last rest) (ids_to (get_block_id current b))) (
            after_put s
              (cut_block last rest)
              (cut_size b last rest)
              (is_putting b last rest))).store
  unfolding truncate
  truncate_store s size current ne =
      let last = get_block_id size b in
      let rest = get_block_offset size b in
      let key = get_key file_id (cut_block last rest) in
      elim (Bool-cases (is_putting b last rest)) [
        | inl putting ↦
            let (stored, fine) =
              store_filled_ok h r file_id s (cut_block last rest) (cut_size b last rest) in
            rw (ne, putting)
              (ap (λ o. o.store)
                (and_then_ok h r file_id _
                  (delete_cut h file_id
                    (select (is_cut last rest) (ids_to (get_block_id current b))))
                  _ stored fine))
        | inr keeping ↦ rw (ne, keeping)
      ]

  -- On a storage that replaces whole objects, a truncation of a file whose bytes from `current` on
  -- are 0 keeps the bytes below the new size, and makes every other byte 0, as far as
  -- `MAX_OBJECT_ID` blocks go, and if at most `MAX_DELETE_OBJECTS` blocks lie between the two sizes.
  pub truncate_file :
      (s : Store) (size current i : ℕ)
      → has_random_access ≡ false
      → 0 < b
      → size < capacity b
      → current < capacity b
      → i < capacity b
      → get_block_id current b < get_block_id size b + max_delete_objects
      → (current ≤ i → file_byte h r b s file_id i ≡ 0)
      → file_byte h r b (truncate h b s file_id size current).store file_id i
        ≡ (if ltb i size then file_byte h r b s file_id i else 0)
  unfolding truncate file_byte
  truncate_file s size current i whole_objects pos size_fits current_fits i_fits few none_past =
      elim (Bool-cases (size == current)) [
        | inl same ↦ rw same (ground arith)
        | inr differ ↦ rw (truncate_store s size current differ) (
            after_delete
            ∙ ap (λ x. if leb q current_last && is_cut last rest q then 0 else x) after_cut
            ∙ left_byte b i q place size last rest current current_last (get_block_offset current b)
                _ (div-add-mod' i b) (mod-lt i pos) (blocks_join size b)
                (get_block_offset-lt size b pos) (blocks_join current b)
                (get_block_offset-lt current b pos) none_past)
      ]
    where
      q : ℕ
      q = i / b

      place : ℕ
      place = i % b

      last : ℕ
      last = get_block_id size b

      rest : ℕ
      rest = get_block_offset size b

      current_last : ℕ
      current_last = get_block_id current b

      after : Store
      after = after_put s (cut_block last rest) (cut_size b last rest) (is_putting b last rest)

      current_in : current_last ≤ max_object_id
      current_in =
          id_in_range b current_last current (omega (arith, blocks_join current b)) current_fits

      last_in : last ≤ max_object_id
      last_in = id_in_range b last size (omega (arith, blocks_join size b)) size_fits

      q_in : q ≤ max_object_id
      q_in = div_in_range b i i_fits

      few_cut : length (select (is_cut last rest) (ids_to current_last)) ≤ max_delete_objects
      few_cut = omega (
        arith,
        few,
        length-select_from (is_cut last rest) last 0 (suc current_last) (λ i e. ground arith),
      )

      after_delete :
          byte
            (object h r
              (delete_cut h file_id (select (is_cut last rest) (ids_to current_last)) after).store
              (get_key file_id q))
            place
          ≡ (if leb q current_last && is_cut last rest q
              then 0
              else byte (object h r after (get_key file_id q)) place)
      after_delete =
          ap (λ c. byte c place)
            (object-delete_cut h r file_id (is_cut last rest) current_last q after current_in q_in
              few_cut)
          ∙ byte_if (leb q current_last && is_cut last rest q)
              (object h r after (get_key file_id q)) place

      after_cut : byte (object h r after (get_key file_id q)) place ≡ (
          if is_putting b last rest
          then (if cut_block last rest == q && leb (cut_size b last rest) place
              then 0
              else byte (object h r s (get_key file_id q)) place)
          else byte (object h r s (get_key file_id q)) place)
      after_cut = elim (Bool-cases (is_putting b last rest)) [
        | inl putting ↦ rw putting (
            cut_object h r file_id whole_objects s (cut_block last rest) (cut_size b last rest) q
              place (ground (arith, last_in)) q_in)
        | inr keeping ↦ rw keeping
      ]
