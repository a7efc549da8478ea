-- ===== src/KeyValue/Unlink.antt =====
-- src/keyValueAdapter.cc: the removal of a file.
use native.Mathlib.Decide.{dec_le}
use native.Mathlib.Nat.{div-add-mod', mod-lt}
use helpers.Prelude.{
  ℕ, suc, ◌/◌, ◌%◌, ◌<◌, ◌≤◌, ◌≡◌, ◌≢◌, refl, ◌∙◌, ap, subst, true, inl, inr, ◌==◌, Bool-cases,
  List, [], ◌∷◌, map, length-map, length-count_up, arith,
}
use helpers.KeyValue.{select, ids_to, unlink}
use helpers.KeyValue.Buffer.{Bytes, byte}
use helpers.KeyValue.Helper.{
  KeyValueHelper, Reliable, max_object_id, max_delete_objects, Each, Some,
}
use helpers.KeyValue.Blocks.{or_nothing, file_byte}
use helpers.KeyValue.Ranges.{capacity, div_in_range}
use helpers.KeyValue.Truncate.{next_block}
use helpers.KeyValue.Cut.{Some-selected, Each-selected}

select_all : (is : List ℕ) → select (λ i. true) is ≡ is
select_all [] = refl
select_all (i ∷ is) = ap (◌∷◌ i) (select_all is)

module _ (h : KeyValueHelper) (r : Reliable h) (file_id : Bytes) (b : ℕ) where
  open h use {Store, Key, get_key, delete_objects}

  -- The keys of the blocks 0 to `last`.
  abbrev keys_to : ℕ → List Key
  keys_to last = map (get_key file_id) (ids_to last)

  in_keys : (last q : ℕ) → q ≤ last → Some (λ j. j ≡ get_key file_id q) (keys_to last)
  in_keys last q l =
      subst (λ is. Some (λ j. j ≡ get_key file_id q) (map (get_key file_id) is))
        (select_all (ids_to last))
        (Some-selected (get_key file_id) (λ i. true) 0 (suc last) q (omega arith) (omega arith)
          refl)

  not_in_keys :
      (last q : ℕ) → last < q → q ≤ max_object_id → Each (λ j. j ≢ get_key file_id q) (keys_to last)
  not_in_keys last q l in_range =
      subst (λ is. Each (λ j. j ≢ get_key file_id q) (map (get_key file_id) is))
        (select_all (ids_to last))
        (Each-selected (get_key file_id) (λ i. true) 0 (suc last) (get_key file_id q)
          λ i from below taken same.
            let i_q = r.get_key_injective file_id i q (omega arith) in_range same in
            absurd (omega arith))

  -- The removal of a file whose bytes from `current` on are 0 leaves no byte of it, as far as
  -- `MAX_OBJECT_ID` blocks go, and if the file has at most `MAX_DELETE_OBJECTS` blocks.
  pub unlink_file :
      (s : Store) (current i : ℕ)
      → 0 < b
      → current < capacity b
      → i < capacity b
      → current / b < max_delete_objects
      → (current ≤ i → file_byte h r b s file_id i ≡ 0)
      → file_byte h r b (unlink h b s file_id current).store file_id i ≡ 0
  unfolding unlink file_byte
  unlink_file s current i pos current_fits i_fits few none_past = elim (Bool-cases (current == 0)) [
    | inl empty ↦ rw empty (none_past (ground arith))
    | inr some_bytes ↦ rw some_bytes (elim (dec_le q last) [
      | yes removed ↦
          ap (λ c. byte (or_nothing c) (i % b))
            (r.delete_removes s (keys_to last) (get_key file_id q)
              (omega (
                arith,
                few,
                length-map (get_key file_id) (ids_to last),
                length-count_up 0 (suc last),
              ))
              (in_keys last q removed))
      | no kept ↦
          ap (λ c. byte (or_nothing c) (i % b))
            (r.delete_keeps s (keys_to last) (get_key file_id q)
              (not_in_keys last q (omega arith) (div_in_range b i i_fits)))
          ∙ none_past (
              omega (
                arith,
                div-add-mod' i b,
                div-add-mod' current b,
                mod-lt current pos,
                next_block b last q (omega arith),
              ))
    ])
  ]
    where
      q : ℕ
      q = i / b

      last : ℕ
      last = current / b
