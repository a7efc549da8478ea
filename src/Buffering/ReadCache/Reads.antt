-- ===== src/Buffering/ReadCache/Reads.antt =====
-- src/buffering/readCache.h: what a read gives, from a cache whose blocks hold the file.
use helpers.Prelude.{
  ℕ, ltb, ◌&&◌, true, Bool-cases, some, List, [], ◌∷◌, ◌++◌, length, ◌≡◌, refl, ap, ◌⊎◌, inl, inr,
  subst, arith,
}
use helpers.Buffering.ReadCache.{
  Content, ReadData, Limits, entry, settle, new_data, value, covers, stale_entry, ReadCache,
  drop_stale, is_current, is_current_read, adjust_block_size, drop_until_current, pop_until_current,
  fetch, fetched, prefetch_at, prefetch_size, next_offset, missed, refreshed, read,
}
use helpers.Buffering.ReadCache.Store.{entry-append, entry_last}
use helpers.Buffering.ReadCache.Sound.{
  Honest, Good, Readable, Served, settle-Good, settle-Readable, value-Served, At, AllAt,
  AllAt-append, AllAt-snoc,
}

module _ (l : Limits) (f : ℕ → ℕ) (total : ℕ) where
  -- A cache whose blocks hold the file.
  abbrev pub Sound : ReadCache l → Type 0
  Sound c = AllAt f total c.store c.cache

  -- The front of the cache serves a read.
  pub record Serves (offset size : ℕ) (store : List ReadData) (cache : List ℕ) : Type 0 where
    pub front : ℕ
    pub others : List ℕ
    pub is_front : cache ≡ front ∷ others
    pub data_at : ReadData
    pub stands : entry store front ≡ some data_at
    pub good : Good f total data_at
    pub readable : Readable f total data_at offset size

  covers-Serves :
      (offset size : ℕ) (store : List ReadData) (i : ℕ) (is : List ℕ)
      → covers offset (entry store i) ≡ true
      → At f total store i
      → Serves offset size store (i ∷ is)
  covers-Serves offset size store i is e a = record {
    front = i;
    others = is;
    is_front = refl;
    data_at = a.data_at;
    stands = a.stands;
    good = a.good;
    readable = ground (arith, ap (covers offset) a.stands);
  }

  current-Serves :
      (offset size : ℕ) (store : List ReadData) (cache : List ℕ)
      → is_current l offset store cache ≡ true
      → AllAt f total store cache
      → Serves offset size store cache
  current-Serves offset size store [] e all = absurd (ground arith)
  current-Serves offset size store (i ∷ is) e (a, all) = covers-Serves offset size store i is e a

  drop_stale-AllAt :
      (now : ℕ) (store : List ReadData) (cache : List ℕ)
      → AllAt f total store cache
      → AllAt f total store (drop_stale l now store cache)
  drop_stale-AllAt now store [] all = tt
  drop_stale-AllAt now store (i ∷ is) (a, all) =
      elim (Bool-cases (stale_entry now l.cache_duration (entry store i))) [
        | inl stale ↦ rw stale (drop_stale-AllAt now store is all)
        | inr recent ↦ rw recent (a, all)
      ]

  -- A cache that is to be cleared is sound once it is.
  pub refreshed-Sound :
      (now : ℕ) (c : ReadCache l) → (c.clearing ≡ true) ⊎ Sound c → Sound (refreshed l now c)
  refreshed-Sound now c (inl asked) = rw asked tt
  refreshed-Sound now c (inr all) = elim (Bool-cases c.clearing) [
    | inl asked ↦ rw asked tt
    | inr kept ↦ rw kept (drop_stale-AllAt now c.store c.cache all)
  ]

  -- What is left in front of the cache covers the read, if anything is.
  drop_until_current-AllAt :
      (offset size : ℕ) (store : List ReadData) (cache : List ℕ)
      → AllAt f total store cache
      → (drop_until_current l offset store cache ≡ [])
        ⊎ (AllAt f total store (drop_until_current l offset store cache)
            × Serves offset size store (drop_until_current l offset store cache))
  drop_until_current-AllAt offset size store [] all = inl refl
  drop_until_current-AllAt offset size store (i ∷ is) (a, all) =
      elim (Bool-cases (covers offset (entry store i))) [
        | inl covered ↦ rw covered (inr ((a, all), covers-Serves offset size store i is covered a))
        | inr other ↦ rw other (drop_until_current-AllAt offset size store is all)
      ]

  module _ (now : ℕ) (handle : ℕ → ℕ → Content) (honest : Honest f total handle) where
    fetched_data : ℕ → ℕ → ReadData
    fetched_data offset size = settle now (handle offset size) (new_data offset size)

    fetched_data-Good : (offset size : ℕ) → Good f total (fetched_data offset size)
    unfolding fetched_data
    fetched_data-Good offset size =
        settle-Good f total now (handle offset size) (new_data offset size) (honest offset size) tt

    fetched_data-Readable :
        (offset size : ℕ) → Readable f total (fetched_data offset size) offset size
    unfolding fetched_data
    fetched_data-Readable offset size =
        settle-Readable f total now (handle offset size) (new_data offset size) offset size
          (honest offset size) (ground arith)

    fetched_data-At :
        (store : List ReadData) (offset size : ℕ)
        → At f total (store ++ fetched_data offset size ∷ []) (length store)
    fetched_data-At store offset size = record {
      data_at = fetched_data offset size;
      stands = entry_last store (fetched_data offset size);
      good = fetched_data-Good offset size;
    }

    fetch-Sound :
        (offset size : ℕ) (c : ReadCache l) → Sound c → Sound (fetch l now handle offset size c)
    unfolding fetched_data
    fetch-Sound offset size c all =
        AllAt-snoc f total _ c.cache (length c.store) (AllAt-append f total c.store _ c.cache all)
          (fetched_data-At c.store offset size)

    Serves-fetch :
        (offset size next n : ℕ) (c : ReadCache l)
        → Serves offset size c.store c.cache
        → let d = fetch l now handle next n c in Serves offset size d.store d.cache
    Serves-fetch offset size next n c s = record {
      front = s.front;
      others = s.others ++ length c.store ∷ [];
      is_front = ap (λ is. is ++ length c.store ∷ []) s.is_front;
      data_at = s.data_at;
      stands = entry-append c.store _ s.front s.data_at s.stands;
      good = s.good;
      readable = s.readable;
    }

    abbrev Ready : ℕ → ℕ → ReadCache l → Type 0
    Ready offset size c = Sound c × Serves offset size c.store c.cache

    prefetch_at-Ready :
        (offset size continuous_size next : ℕ) (c : ReadCache l)
        → Ready offset size c
        → Ready offset size (prefetch_at l now handle offset continuous_size next c)
    prefetch_at-Ready offset size continuous_size next c (all, s) =
        elim (Bool-cases
          (ltb (length c.cache) 2 && ltb 0 (prefetch_size l next offset continuous_size c))) [
            | inl wanted ↦
                let n = prefetch_size l next offset continuous_size c in
                rw wanted (fetch-Sound next n c all, Serves-fetch offset size next n c s)
            | inr not_wanted ↦ rw not_wanted (all, s)
          ]

    fetched-Ready :
        (offset size : ℕ) (c : ReadCache l)
        → (c.cache ≡ []) ⊎ (Sound c × Serves offset size c.store c.cache)
        → Ready offset size (fetched l now handle offset size c)
    unfolding fetched_data
    fetched-Ready offset size c (inl empty) = rw empty (
      (fetched_data-At c.store offset size, tt),
      record {
        front = length c.store;
        others = [];
        is_front = refl;
        data_at = fetched_data offset size;
        stands = entry_last c.store (fetched_data offset size);
        good = fetched_data-Good offset size;
        readable = fetched_data-Readable offset size;
      },
    )
    fetched-Ready offset size c (inr (all, s)) = rw s.is_front (
      subst (AllAt f total c.store) s.is_front all,
      subst (Serves offset size c.store) s.is_front s,
    )

    adjusted_cache :
        (offset : ℕ) (c : ReadCache l)
        → ((adjust_block_size l offset c).store ≡ c.store)
          × ((adjust_block_size l offset c).cache ≡ c.cache)
    adjusted_cache offset c = ground arith

    missed-Ready :
        (offset size continuous_size : ℕ) (c : ReadCache l)
        → Sound c
        → Ready offset size (missed l now handle offset size continuous_size c)
    missed-Ready offset size continuous_size c all =
        let a = adjust_block_size l offset c in
        let (same_store, same_cache) = adjusted_cache offset c in
        let d = pop_until_current l offset a in
        let g = fetched l now handle offset size d in
        prefetch_at-Ready offset size continuous_size (next_offset l g g.cache) g (
          fetched-Ready offset size d (
            drop_until_current-AllAt offset size a.store a.cache (rw (same_store, same_cache) all)))

    read-Ready :
        (offset size continuous_size : ℕ) (c : ReadCache l)
        → (c.clearing ≡ true) ⊎ Sound c
        → Ready offset size (read l now handle offset size continuous_size c)
    unfolding read
    read-Ready offset size continuous_size c sound =
        let d = refreshed l now c in
        let all = refreshed-Sound now c sound in
        elim (Bool-cases (is_current_read l offset d)) [
          | inl hit ↦ rw hit (all, current-Serves offset size d.store d.cache hit all)
          | inr miss ↦ rw miss (missed-Ready offset size continuous_size d all)
        ]

    -- A read of a cache whose blocks hold the file, or that is to be cleared, leaves such a cache.
    -- What it gives, at once or when the read of its block ends with bytes of the file, is the
    -- file's bytes at `offset`: at most `size`, and none only if none were asked for or the file
    -- ends there.
    pub read-Served :
        (offset size continuous_size later : ℕ) (late : ℕ → ℕ → Content) (c : ReadCache l)
        → (c.clearing ≡ true) ⊎ Sound c
        → Honest f total late
        → let d = read l now handle offset size continuous_size c in
          Sound d
          × ((i : ℕ) × (others : List ℕ) × (e : ReadData) × (d.cache ≡ i ∷ others)
              × (entry d.store i ≡ some e)
              × Served f total offset size (value e offset size)
              × Served f total offset size
                  (value (settle later (late e.offset e.size) e) offset size))
    read-Served offset size continuous_size later late c sound honest_late =
        let (all, s) = read-Ready offset size continuous_size c sound in
        (
          all,
          (
            s.front,
            s.others,
            s.data_at,
            s.is_front,
            s.stands,
            value-Served f total s.data_at offset size s.good s.readable,
            (let e = s.data_at in
                let content = late e.offset e.size in
                let so = honest_late e.offset e.size in
                value-Served f total (settle later content e) offset size
                  (settle-Good f total later content e so s.good)
                  (settle-Readable f total later content e offset size so s.readable)),
          ),
        )
