-- ===== src/Buffering/ReadCache.antt =====
-- src/buffering/readCache.h: the blocks of a file that were read, or are being read ahead. A
-- `ReadData` is shared by the cache and by the future that fills it, so it stands in a store, and
-- the cache is a queue of places there. Coefficients, which the source computes in floating point,
-- are a parameter. Times and latencies are numbers; the measured latency is set by `measured`.
pub mod Store
pub mod Sound
pub mod Reads
pub mod Poisoned
pub mod Tests
use helpers.Prelude.{
  ℕ, zero, suc, ◌+◌, ◌-◌, ◌*◌, ◌/◌, min, max, ltb, leb, ◌==◌, if◌then◌else◌, Bool, true, false,
  ◌&&◌, Option, none, some, List, [], ◌∷◌, ◌++◌, length, take, drop,
}
use helpers.KeyValue.Buffer.{Bytes}

-- The promise and the buffer of a `ReadData`.
pub data Content : Type 0 where
  pending : Content
  filled : Bytes → Content
  failed : ℕ → Content

-- `t` is none while it is the greatest duration.
pub record ReadData : Type 0 where
  pub offset : ℕ
  pub size : ℕ
  pub t : Option ℕ
  pub content : Content

pub record Limits : Type 1 where
  pub Coeff : Type 0
  pub one : Coeff
  pub times_power_base : Coeff → Coeff
  pub truncated : Coeff → ℕ
  pub read_buffer_min_size : ℕ
  pub read_buffer_max_size : ℕ
  pub cache_duration : ℕ
  pub target_latency : ℕ

-- What stands at a place of the store, if the place exists.
abbrev pub entry : List ReadData → ℕ → Option ReadData
entry [] i = none
entry (e ∷ es) zero = some e
entry (e ∷ es) (suc i) = entry es i

abbrev pub set_entry : List ReadData → ℕ → ReadData → List ReadData
set_entry [] i d = []
set_entry (e ∷ es) zero d = d ∷ es
set_entry (e ∷ es) (suc i) d = e ∷ set_entry es i d

-- The continuations of `m_handle.read`.
abbrev pub settle : ℕ → Content → ReadData → ReadData
settle now pending e = e
settle now (filled buf) e = record e { size = length buf; t = some now; content = filled buf }
settle now (failed x) e = record e { content = failed x }

abbrev pub new_data : ℕ → ℕ → ReadData
new_data offset size = record { offset = offset; size = size; t = none; content = pending }

-- The value of the future that `readFromCache` returns, once there is one.
abbrev pub trim : ℕ → ℕ → ℕ → Bytes → Bytes
trim start offset size buf =
    if (length buf == 0)
    then []
    else if ltb (start + length buf) offset
    then []
    else take size (drop (offset - start) buf)

abbrev pub value_of : ReadData → ℕ → ℕ → Content → Content
value_of e offset size pending = pending
value_of e offset size (filled buf) = filled (trim e.offset offset size buf)
value_of e offset size (failed x) = failed x

unfoldable pub value : ReadData → ℕ → ℕ → Content
value e offset size = value_of e offset size e.content

abbrev pub is_stale : ℕ → ℕ → Option ℕ → Bool
is_stale now cache_duration none = false
is_stale now cache_duration (some t) = ltb (t + cache_duration) now

abbrev pub stale_entry : ℕ → ℕ → Option ReadData → Bool
stale_entry now cache_duration none = false
stale_entry now cache_duration (some e) = is_stale now cache_duration e.t

abbrev pub covers : ℕ → Option ReadData → Bool
covers offset none = false
covers offset (some e) = leb e.offset offset && ltb offset (e.offset + e.size)

-- Where the block of a `ReadData` ends.
abbrev pub end_of : Option ReadData → ℕ
end_of none = 0
end_of (some e) = e.offset + e.size

abbrev pub back : ℕ → List ℕ → ℕ
back i [] = i
back i (j ∷ js) = back j js

module _ (l : Limits) where
  pub record ReadCache : Type 0 where
    pub store : List ReadData
    pub cache : List ℕ
    pub clearing : Bool
    pub block_size : ℕ
    pub prefetch_coeff : l.Coeff
    pub latency : ℕ

  abbrev pub created : ReadCache
  created = record {
    store = [];
    cache = [];
    clearing = false;
    block_size = 0;
    prefetch_coeff = l.one;
    latency = l.target_latency * 2;
  }

  unfoldable pub clear : ReadCache → ReadCache
  clear c = record c { clearing = true }

  abbrev pub clear_if_asked : ReadCache → ReadCache
  clear_if_asked c = if c.clearing then record c { cache = []; clearing = false } else c

  abbrev pub drop_stale : ℕ → List ReadData → List ℕ → List ℕ
  drop_stale now store [] = []
  drop_stale now store (i ∷ is) =
      let rest = drop_stale now store is in
      if stale_entry now l.cache_duration (entry store i) then rest else i ∷ is

  abbrev pub clear_stale_entries : ℕ → ReadCache → ReadCache
  clear_stale_entries now c = record c { cache = drop_stale now c.store c.cache }

  abbrev pub is_current : ℕ → List ReadData → List ℕ → Bool
  is_current offset store [] = false
  is_current offset store (i ∷ is) = covers offset (entry store i)

  abbrev pub is_current_read : ℕ → ReadCache → Bool
  is_current_read offset c = is_current offset c.store c.cache

  abbrev pub is_sequential_in : ℕ → List ReadData → List ℕ → Bool
  is_sequential_in offset store [] = false
  is_sequential_in offset store (i ∷ []) = offset == end_of (entry store i)
  is_sequential_in offset store (i ∷ j ∷ js) = covers offset (entry store (back j js))

  abbrev pub is_sequential : ℕ → ReadCache → Bool
  is_sequential offset c = is_sequential_in offset c.store c.cache

  abbrev pub reset_block_size : ReadCache → ReadCache
  reset_block_size c = record c { block_size = 0; prefetch_coeff = l.one }

  abbrev pub increase_block_size : ReadCache → ReadCache
  increase_block_size c =
      if ltb c.block_size l.read_buffer_max_size && ltb l.target_latency c.latency
      then record c {
        block_size =
            min l.read_buffer_max_size (l.read_buffer_min_size * l.truncated c.prefetch_coeff);
        prefetch_coeff = l.times_power_base c.prefetch_coeff;
      }
      else c

  abbrev pub adjust_block_size : ℕ → ReadCache → ReadCache
  adjust_block_size offset c =
      if is_sequential offset c then increase_block_size c else reset_block_size c

  abbrev pub drop_until_current : ℕ → List ReadData → List ℕ → List ℕ
  drop_until_current offset store [] = []
  drop_until_current offset store (i ∷ is) =
      let rest = drop_until_current offset store is in
      if covers offset (entry store i) then i ∷ is else rest

  abbrev pub pop_until_current : ℕ → ReadCache → ReadCache
  pop_until_current offset c = record c { cache = drop_until_current offset c.store c.cache }

  -- `handle` is what the future of `m_handle.read` holds when its continuations are attached.
  abbrev pub fetch : ℕ → (ℕ → ℕ → Content) → ℕ → ℕ → ReadCache → ReadCache
  fetch now handle offset size c = record c {
    store = c.store ++ settle now (handle offset size) (new_data offset size) ∷ [];
    cache = c.cache ++ length c.store ∷ [];
  }

  abbrev pub fetch_if_empty : ℕ → (ℕ → ℕ → Content) → ℕ → ℕ → List ℕ → ReadCache → ReadCache
  fetch_if_empty now handle offset size [] c = fetch now handle offset size c
  fetch_if_empty now handle offset size (i ∷ is) c = c

  -- The size of the intersection of two intervals.
  abbrev pub common : ℕ → ℕ → ℕ → ℕ → ℕ
  common a b c d = min b d - max a c

  abbrev pub prefetch_size : ℕ → ℕ → ℕ → ReadCache → ℕ
  prefetch_size next offset continuous_size c =
      common next (next + c.block_size) offset (offset + continuous_size)

  abbrev pub prefetch_at : ℕ → (ℕ → ℕ → Content) → ℕ → ℕ → ℕ → ReadCache → ReadCache
  prefetch_at now handle offset continuous_size next c =
      if ltb (length c.cache) 2 && ltb 0 (prefetch_size next offset continuous_size c)
      then fetch now handle next (prefetch_size next offset continuous_size c) c
      else c

  abbrev pub next_offset : ReadCache → List ℕ → ℕ
  next_offset c [] = 0
  next_offset c (i ∷ is) = end_of (entry c.store (back i is))

  abbrev pub prefetch_if_needed : ℕ → (ℕ → ℕ → Content) → ℕ → ℕ → ReadCache → ReadCache
  prefetch_if_needed now handle offset continuous_size c =
      prefetch_at now handle offset continuous_size (next_offset c c.cache) c

  abbrev pub fetched : ℕ → (ℕ → ℕ → Content) → ℕ → ℕ → ReadCache → ReadCache
  fetched now handle offset size c = fetch_if_empty now handle offset size c.cache c

  abbrev pub missed : ℕ → (ℕ → ℕ → Content) → ℕ → ℕ → ℕ → ReadCache → ReadCache
  missed now handle offset size continuous_size c =
      prefetch_if_needed now handle offset continuous_size
        (fetched now handle offset size (pop_until_current offset (adjust_block_size offset c)))

  abbrev pub refreshed : ℕ → ReadCache → ReadCache
  refreshed now c = clear_stale_entries now (clear_if_asked c)

  -- The cache after a read; the future that it returns is that of the front of the cache.
  unfoldable pub read : ℕ → (ℕ → ℕ → Content) → ℕ → ℕ → ℕ → ReadCache → ReadCache
  read now handle offset size continuous_size c =
      if is_current_read offset (refreshed now c)
      then refreshed now c
      else missed now handle offset size continuous_size (refreshed now c)

  unfoldable pub would_prefetch : ℕ → ReadCache → ℕ
  would_prefetch offset c =
      if is_current_read offset c
      then 0
      else if ltb (length c.cache) 2
      then (adjust_block_size offset c).block_size
      else 0

  -- A read of the handle ends. Its `ReadData` may have left the cache.
  abbrev pub completed_at : ℕ → ℕ → Content → Option ReadData → ReadCache → ReadCache
  completed_at now i content none c = c
  completed_at now i content (some e) c = record c {
    store = set_entry c.store i (settle now content e);
  }

  unfoldable pub completed : ℕ → ℕ → Content → ReadCache → ReadCache
  completed now i content c = completed_at now i content (entry c.store i) c

  unfoldable pub measured : ℕ → ReadCache → ReadCache
  measured latency c = record c { latency = (c.latency + 2 * latency) / 3 }
