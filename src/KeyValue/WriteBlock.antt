-- ===== src/KeyValue/WriteBlock.antt =====
-- What one round of a write stores, byte by byte.
use helpers.Prelude.{
  ℕ, ◌+◌, ◌-◌, ◌<◌, ◌≤◌, ◌≡◌, ◌≢◌, refl, ◌∙◌, ap, true, false, ◌&&◌, ltb, ltb→lt, leb, ◌==◌, ◌⊎◌,
  inl, inr, if◌then◌else◌, Bool-cases, Option-cases, [], ◌++◌, length, length-append, length-take,
  take, drop, arith,
}
use helpers.KeyValue.{KeyValueFileHandle, head_of, merged, store_merged, write_block}
use helpers.KeyValue.Buffer.{
  Bytes, byte, fill_to_size, byte_beyond, byte-append, byte-fill_to_size, length-fill_to_size,
  byte-take, byte-drop,
}
use helpers.KeyValue.Helper.{KeyValueHelper, Reliable, ok, overlay}
use helpers.KeyValue.Blocks.{object, or_nothing, read_block_lem}

-- Byte `i` of an object after `buf` is written at `offset` of it.
abbrev pub patched : Bytes → ℕ → Bytes → ℕ → ℕ
patched old offset buf i =
    if leb offset i && ltb i (offset + length buf) then byte buf (i - offset) else byte old i

byte-head :
    (old : Bytes) (offset i : ℕ)
    → i < offset
    → byte (fill_to_size (take offset old) offset) i ≡ byte old i
byte-head old offset i h =
    byte-fill_to_size (take offset old) offset i ∙ byte-take offset old i ∙ ground arith

length-head : (old : Bytes) (offset : ℕ) → length (fill_to_size (take offset old) offset) ≡ offset
length-head old offset =
    length-fill_to_size (take offset old) offset (omega (arith, length-take offset old))

pub byte-overlay :
    (old : Bytes) (offset : ℕ) (buf : Bytes) (i : ℕ)
    → byte (overlay old offset buf) i ≡ patched old offset buf i
byte-overlay old offset buf i =
    let head = fill_to_size (take offset old) offset in
    let tail = drop (offset + length buf) old in
    ground (
      arith,
      byte-append (head ++ buf) tail i,
      byte-append head buf i,
      length-append head buf,
      length-head old offset,
      byte-head old offset i,
      byte-drop (offset + length buf) old (i - (offset + length buf)),
      ap (byte old) {x = offset + length buf + (i - (offset + length buf))} {y = i},
    )

byte-head_of : (old : Bytes) (offset i : ℕ) → i < offset → byte (head_of old offset) i ≡ byte old i
byte-head_of old offset i h = ground (arith, byte-head old offset i)

length-head_of : (old : Bytes) (offset : ℕ) → length (head_of old offset) ≡ offset
length-head_of old offset = ground (arith, length-head old offset)

-- A buffer, and behind it what another has past its length.
byte-extend :
    (a b : Bytes) (i : ℕ)
    → byte (if ltb (length a) (length b) then a ++ drop (length a) b else a) i
      ≡ (if ltb i (length a) then byte a i else byte b i)
byte-extend a b i = ground (
  arith,
  byte-append a (drop (length a) b) i,
  byte-drop (length a) b (i - length a),
  ap (byte b) {x = length a + (i - length a)} {y = i},
  byte_beyond b i,
  byte_beyond a i,
)

byte-merged_parts :
    (fetched buf : Bytes) (offset i : ℕ)
    → byte (merged fetched buf offset) i ≡ (
        if ltb i (offset + length buf)
        then byte (head_of fetched offset ++ buf) i
        else byte fetched i)
unfolding merged
byte-merged_parts fetched buf offset i =
    byte-extend (head_of fetched offset ++ buf) fetched i
    ∙ ap (λ n. if ltb i n then byte (head_of fetched offset ++ buf) i else byte fetched i)
        (length-append (head_of fetched offset) buf
          ∙ ap (λ n. n + length buf) (length-head_of fetched offset))

byte-filled :
    (fetched buf : Bytes) (offset i : ℕ)
    → byte (head_of fetched offset ++ buf) i
      ≡ (if ltb i offset then byte fetched i else byte buf (i - offset))
byte-filled fetched buf offset i =
    byte-append (head_of fetched offset) buf i
    ∙ ap (λ n. if ltb i n then byte (head_of fetched offset) i else byte buf (i - n))
        (length-head_of fetched offset)
    ∙ elim (Bool-cases (ltb i offset)) [
      | inl before ↦ rw before (byte-head_of fetched offset i (ltb→lt i offset before))
      | inr after ↦ rw after
    ]

-- The merged object, up to the block's size, when no more than a block was fetched.
byte-merged :
    (old : Bytes) (size : ℕ) (buf : Bytes) (offset i : ℕ)
    → i < size
    → byte (merged (take size old) buf offset) i ≡ patched old offset buf i
byte-merged old size buf offset i h =
    byte-merged_parts (take size old) buf offset i
    ∙ ground (arith, byte-filled (take size old) buf offset i, byte-take size old i)

module _ (h : KeyValueHelper) (r : Reliable h) (f : KeyValueFileHandle h) (s : h.Store) where
  open h use {Key, get_key, put_object, has_random_access}
  open f use {file_id, block_size}

  put_at :
      (k : Key) (buf : Bytes) (offset i : ℕ)
      → has_random_access ≡ true
      → byte (object h r (put_object s k buf offset).store k) i
        ≡ patched (object h r s k) offset buf i
  put_at k buf offset i e = elim (Option-cases (r.content s k)) [
    | inl z ↦ rw (r.put_at_missing s k buf offset e z, z) (byte-overlay [] offset buf i)
    | inr (c, z) ↦ rw (r.put_at_present s k buf offset c e z, z) (byte-overlay c offset buf i)
  ]

  module _ (buf : Bytes) (block_id block_offset : ℕ)
      (fits : block_offset + length buf ≤ block_size) where
    -- The ways in which a round stores its bytes.
    write_block_cases :
        let out = write_block h f s buf block_id block_offset in
        ((has_random_access ≡ true)
          × (out ≡ put_object s (get_key file_id block_id) buf block_offset))
        ⊎ ((has_random_access ≡ false)
            × (out
                ≡ put_object s
                    (get_key file_id block_id)
                    (merged
                      (take block_size (object h r s (get_key file_id block_id)))
                      buf
                      block_offset)
                    0))
        ⊎ ((length buf ≡ block_size) × (out ≡ put_object s (get_key file_id block_id) buf 0))
    unfolding write_block store_merged
    write_block_cases =
        let fetched = read_block_lem h r s (get_key file_id block_id) 0 block_size in
        elim (Bool-cases (length buf == block_size)) [
          | inl whole ↦ rw whole (inr (inr (ground arith, refl)))
          | inr part ↦ elim (Bool-cases has_random_access) [
            | inl yes_random ↦ rw (part, yes_random) (inl (refl, refl))
            | inr not_random ↦ rw (part, not_random, fetched) (inr (inl (refl, refl)))
          ]
        ]

    -- The round succeeds.
    pub write_block_ok : (write_block h f s buf block_id block_offset).result ≡ ok tt
    write_block_ok = elim write_block_cases [
      | inl (_, e) ↦ rw e (r.put_ok _ _ _ _)
      | inr (inl (_, e)) ↦ rw e (r.put_ok _ _ _ _)
      | inr (inr (_, e)) ↦ rw e (r.put_ok _ _ _ _)
    ]

    -- It leaves the other objects alone.
    pub write_block_other :
        (j : Key)
        → get_key file_id block_id ≢ j
        → object h r (write_block h f s buf block_id block_offset).store j ≡ object h r s j
    write_block_other j ne = elim write_block_cases [
      | inl (_, e) ↦ rw e (ap or_nothing (r.put_other _ _ j _ _ ne))
      | inr (inl (_, e)) ↦ rw e (ap or_nothing (r.put_other _ _ j _ _ ne))
      | inr (inr (_, e)) ↦ rw e (ap or_nothing (r.put_other _ _ j _ _ ne))
    ]

    whole_block :
        (i : ℕ)
        → i < block_size
        → length buf ≡ block_size
        → byte buf i ≡ patched (object h r s (get_key file_id block_id)) block_offset buf i
    whole_block i l e = ground arith

    -- In its own object the new bytes stand at the block's offset, and the rest of the block is as
    -- it was.
    pub write_block_own :
        (i : ℕ)
        → i < block_size
        → byte
            (object h r
              (write_block h f s buf block_id block_offset).store
              (get_key file_id block_id))
            i
          ≡ patched (object h r s (get_key file_id block_id)) block_offset buf i
    write_block_own i l = elim write_block_cases [
      | inl (random, e) ↦ rw e (put_at (get_key file_id block_id) buf block_offset i random)
      | inr (inl (whole, e)) ↦
          rw (e, r.put_whole s (get_key file_id block_id) _ whole)
            (byte-merged (object h r s (get_key file_id block_id)) block_size buf block_offset i l)
      | inr (inr (full, e)) ↦ elim (Bool-cases has_random_access) [
        | inl random ↦ rw e (
            put_at (get_key file_id block_id) buf 0 i random ∙ ground (arith, whole_block i l full))
        | inr whole ↦
            rw (e, r.put_whole s (get_key file_id block_id) buf whole) (whole_block i l full)
      ]
    ]
