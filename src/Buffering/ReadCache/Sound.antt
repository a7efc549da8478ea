-- ===== src/Buffering/ReadCache/Sound.antt =====
-- src/buffering/readCache.h: blocks that hold what a file holds.
use helpers.Prelude.{
  ℕ, ◌+◌, ◌-◌, ◌≤◌, ◌<◌, min, ◌==◌, if◌then◌else◌, false, Bool-cases, some, List, [], ◌∷◌, ◌++◌,
  length, ◌≡◌, refl, sym, ap, ◌∙◌, ◌⊎◌, inl, inr, arith,
}
use helpers.KeyValue.Buffer.{Bytes, range}
use helpers.Buffering.ReadCache.{
  Content, pending, filled, failed, ReadData, entry, set_entry, settle, value_of, value, trim,
}
use helpers.Buffering.ReadCache.Store.{entry-append, entry-set_entry, length-range, trim-range}

-- A place that is not in the cache.
abbrev pub Absent : ℕ → List ℕ → Type 0
Absent i [] = Unit
Absent i (j ∷ js) = ((i == j) ≡ false) × Absent i js

-- The file has the bytes `f` up to `total`.
module _ (f : ℕ → ℕ) (total : ℕ) where
  -- What a handle reads of the file.
  abbrev pub Honest : (ℕ → ℕ → Content) → Type 0
  Honest handle =
      (offset size : ℕ) (buf : Bytes)
      → handle offset size ≡ filled buf
      → buf ≡ range f offset (min size (total - offset))

  abbrev pub HonestFor : ReadData → Content → Type 0
  HonestFor e content =
      (buf : Bytes) → content ≡ filled buf → buf ≡ range f e.offset (min e.size (total - e.offset))

  -- A block that was read holds the file's bytes.
  abbrev pub GoodAs : ℕ → ℕ → Content → Type 0
  GoodAs offset size pending = Unit
  GoodAs offset size (filled buf) =
      (buf ≡ range f offset size) × ((offset + size ≤ total) ⊎ (size ≡ 0))
  GoodAs offset size (failed x) = Unit

  abbrev pub Good : ReadData → Type 0
  Good e = GoodAs e.offset e.size e.content

  -- A block from which a read of `size` bytes at `offset` is served.
  abbrev pub ReadableAs : ℕ → ℕ → ℕ → ℕ → Type 0
  ReadableAs start n offset size =
      (start ≤ offset) × ((offset < start + n) ⊎ ((total ≤ offset) ⊎ (size ≡ 0)))

  abbrev pub Readable : ReadData → ℕ → ℕ → Type 0
  Readable e offset size = ReadableAs e.offset e.size offset size

  -- The answer to a read: bytes of the file, at most those asked for, and none only if none were
  -- asked for or the file ends there.
  abbrev pub Served : ℕ → ℕ → Content → Type 0
  Served offset size pending = Unit
  Served offset size (filled buf) =
      (n : ℕ) × (buf ≡ range f offset n) × (n ≤ size) × (n ≡ 0 → (size ≡ 0) ⊎ (total ≤ offset))
  Served offset size (failed x) = Unit

  pub settle-Good :
      (now : ℕ) (content : Content) (e : ReadData)
      → HonestFor e content
      → Good e
      → Good (settle now content e)
  settle-Good now pending e honest good = good
  settle-Good now (filled buf) e honest good =
      let is = honest buf refl in
      let l : length buf ≡ min e.size (total - e.offset) =
        ap length is ∙ length-range f e.offset (min e.size (total - e.offset)) in
      (is ∙ ap (range f e.offset) (sym l), ground arith)
  settle-Good now (failed x) e honest good = tt

  pub settle-Readable :
      (now : ℕ) (content : Content) (e : ReadData) (offset size : ℕ)
      → HonestFor e content
      → Readable e offset size
      → Readable (settle now content e) offset size
  settle-Readable now pending e offset size honest reads = reads
  settle-Readable now (filled buf) e offset size honest (above, reads) =
      let l : length buf ≡ min e.size (total - e.offset) =
        ap length (honest buf refl) ∙ length-range f e.offset (min e.size (total - e.offset)) in
      (above, ground arith)
  settle-Readable now (failed x) e offset size honest reads = reads

  value_of-Served :
      (e : ReadData) (offset size : ℕ) (content : Content)
      → GoodAs e.offset e.size content
      → Readable e offset size
      → Served offset size (value_of e offset size content)
  value_of-Served e offset size pending good reads = tt
  value_of-Served e offset size (failed x) good reads = tt
  value_of-Served e offset size (filled buf) (is, inside) (above, reads) = (
    min size (e.offset + e.size - offset),
    ap (trim e.offset offset size) is ∙ trim-range f e.offset e.size offset size above,
    omega arith,
    λ none_left. ground arith,
  )

  pub value-Served :
      (e : ReadData) (offset size : ℕ)
      → Good e
      → Readable e offset size
      → Served offset size (value e offset size)
  unfolding value
  value-Served e offset size good reads = value_of-Served e offset size e.content good reads

  -- A place of the store that holds a good block.
  pub record At (store : List ReadData) (i : ℕ) : Type 0 where
    pub data_at : ReadData
    pub stands : entry store i ≡ some data_at
    pub good : Good data_at

  abbrev pub AllAt : List ReadData → List ℕ → Type 0
  AllAt store [] = Unit
  AllAt store (i ∷ is) = At store i × AllAt store is

  pub At-append : (store more : List ReadData) (i : ℕ) → At store i → At (store ++ more) i
  At-append store more i a = record {
    data_at = a.data_at;
    stands = entry-append store more i a.data_at a.stands;
    good = a.good;
  }

  pub AllAt-append :
      (store more : List ReadData) (is : List ℕ) → AllAt store is → AllAt (store ++ more) is
  AllAt-append store more [] all = tt
  AllAt-append store more (i ∷ is) (a, all) =
      (At-append store more i a, AllAt-append store more is all)

  pub AllAt-snoc :
      (store : List ReadData) (is : List ℕ) (i : ℕ)
      → AllAt store is
      → At store i
      → AllAt store (is ++ i ∷ [])
  AllAt-snoc store [] i all a = (a, tt)
  AllAt-snoc store (j ∷ is) i (b, all) a = (b, AllAt-snoc store is i all a)

  At-set_entry :
      (store : List ReadData) (i j : ℕ) (d : ReadData)
      → Good d
      → At store j
      → At (set_entry store i d) j
  At-set_entry store i j d good a = record {
    data_at = if i == j then d else a.data_at;
    stands = entry-set_entry store i j d a.data_at a.stands;
    good = elim (Bool-cases (i == j)) [ inl same ↦ rw same good | inr differ ↦ rw differ a.good ];
  }

  pub AllAt-set_entry :
      (store : List ReadData) (i : ℕ) (d : ReadData) (is : List ℕ)
      → Good d
      → AllAt store is
      → AllAt (set_entry store i d) is
  AllAt-set_entry store i d [] good all = tt
  AllAt-set_entry store i d (j ∷ is) good (a, all) =
      (At-set_entry store i j d good a, AllAt-set_entry store i d is good all)

  pub AllAt-set_other :
      (store : List ReadData) (i : ℕ) (d : ReadData) (is : List ℕ)
      → Absent i is
      → AllAt store is
      → AllAt (set_entry store i d) is
  AllAt-set_other store i d [] absent all = tt
  AllAt-set_other store i d (j ∷ is) (other, absent) (a, all) = (
    record {
      data_at = a.data_at;
      stands =
          entry-set_entry store i j d a.data_at a.stands
          ∙ ap (λ b. some (if b then d else a.data_at)) other;
      good = a.good;
    },
    AllAt-set_other store i d is absent all,
  )
