-- ===== src/Buffering/BufferAgent.antt =====
-- src/buffering/bufferAgent.h: the guard of the memory that buffers take, the opening and closing
-- of buffered handles, and a buffered handle over a file. A `std::size_t` has 64 bits.
-- Batches are written whole; one that fails is left out.
pub mod Limit
pub mod Batches
pub mod Queued
pub mod Synced
pub mod ReadBack
pub mod Tests
use helpers.Prelude.{
  ℕ, zero, suc, ◌+◌, ◌-◌, leb, ◌==◌, if◌then◌else◌, Bool, true, false, ◌&&◌, ◌||◌, u64, u64_mod,
  Option, none, some, List, [], ◌∷◌, ◌++◌, length, take, drop, max,
}
use helpers.KeyValue.Buffer.{Bytes}
use helpers.Buffering.WriteBuffer.{Range, WriteBuffer}
use helpers.Buffering.WriteBuffer as write_buffer
use helpers.Buffering.WriteBuffer.Ranges.{File, apply_all}
use helpers.Buffering.ReadCache.{Content, Limits, ReadCache}
use helpers.Buffering.ReadCache as read_cache

-- The sizes of `BufferLimits` that the guard and the agent read.
pub record BufferLimits : Type 0 where
  pub read_buffer_max_size : ℕ
  pub write_buffer_max_size : ℕ
  pub read_buffers_total_size : ℕ
  pub write_buffers_total_size : ℕ

pub record Guard : Type 0 where
  pub limits : BufferLimits
  pub read_buffers_reserved_size : ℕ
  pub write_buffers_reserved_size : ℕ

-- A size may be added to what is reserved. A limit of 0 is none.
abbrev pub fits : ℕ → ℕ → ℕ → Bool
fits limit reserved size = (limit == 0) || leb (u64 (reserved + size)) limit

abbrev pub both_fit : ℕ → ℕ → Guard → Bool
both_fit read_size write_size g =
    fits g.limits.read_buffers_total_size g.read_buffers_reserved_size read_size
    && fits g.limits.write_buffers_total_size g.write_buffers_reserved_size write_size

unfoldable pub reserve_buffers : ℕ → ℕ → Guard → Guard × Bool
reserve_buffers read_size write_size g =
    if both_fit read_size write_size g
    then (
      record g {
        read_buffers_reserved_size = u64 (g.read_buffers_reserved_size + read_size);
        write_buffers_reserved_size = u64 (g.write_buffers_reserved_size + write_size);
      },
      true,
    )
    else (g, false)

-- The difference of two sizes, as the code computes it.
abbrev pub difference : ℕ → ℕ → ℕ
difference a b = u64 (a + (u64_mod - b))

-- An unsigned difference is compared with 0.
unfoldable pub release_buffers : ℕ → ℕ → Guard → Guard × Bool
release_buffers read_size write_size g =
    if leb 0 (difference g.read_buffers_reserved_size read_size)
      && leb 0 (difference g.write_buffers_reserved_size write_size)
    then (
      record g {
        read_buffers_reserved_size = difference g.read_buffers_reserved_size read_size;
        write_buffers_reserved_size = difference g.write_buffers_reserved_size write_size;
      },
      true,
    )
    else (g, false)

-- The guard, and how many handles that it gave buffers to, and others, are open.
pub record Agent : Type 0 where
  pub guard : Guard
  pub buffered : ℕ
  pub unbuffered : ℕ

abbrev pub opened : Agent → Guard × Bool → Agent
opened a (g, true) = record a { guard = g; buffered = suc a.buffered }
opened a (g, false) = record a { guard = g; unbuffered = suc a.unbuffered }

-- The continuation of `open`, with the limits of the agent.
unfoldable pub on_open : BufferLimits → Agent → Agent
unfolding reserve_buffers
on_open bl a = opened a (reserve_buffers bl.read_buffer_max_size bl.write_buffer_max_size a.guard)

-- The destructor of a handle, of a buffered one or of one that the helper gave.
unfoldable pub on_close : BufferLimits → Bool → Agent → Agent
unfolding release_buffers
on_close bl true a = record a {
  guard = (release_buffers bl.read_buffer_max_size bl.write_buffer_max_size a.guard).0;
  buffered = a.buffered - 1;
}
on_close bl false a = record a { unbuffered = a.unbuffered - 1 }

-- A buffered handle over a file that has the bytes `file` up to `total`. Of the batches that its
-- write buffer has sent, `done` are written.
pub record Handle (l : Limits) : Type 0 where
  pub buffer : WriteBuffer
  pub cache : ReadCache l
  pub file : File
  pub total : ℕ
  pub done : ℕ

abbrev pub end_after : List Range → ℕ → ℕ
end_after [] total = total
end_after ((offset, buf) ∷ rs) total =
    end_after rs (if length buf == 0 then total else max total (offset + length buf))

-- The number of the last batch whose future a call of the write buffer takes out of the queue and
-- waits for, 0 if it takes out none: each batch that the call sends puts a future there, and those
-- that are left are of the last batches.
abbrev pub last_confirmed : WriteBuffer → WriteBuffer → ℕ
last_confirmed before after =
    if length after.confirmation_futures + length before.sent
      == length before.confirmation_futures + length after.sent
    then 0
    else length after.sent - length after.confirmation_futures

module _ {l : Limits} where
  -- A batch is written, and the cache is asked to clear itself.
  abbrev pub batch_written : List Range → Handle l → Handle l
  unfolding read_cache.clear
  batch_written batch h = record h {
    file = apply_all batch h.file;
    total = end_after batch h.total;
    done = suc h.done;
    cache = read_cache.clear l h.cache;
  }

  abbrev pub all_written : List (List Range) → Handle l → Handle l
  all_written [] h = h
  all_written (b ∷ bs) h = all_written bs (batch_written b h)

  abbrev pub with_buffer : Option WriteBuffer → Handle l → Option (Handle l)
  with_buffer none h = none
  with_buffer (some w) h = some (record h { buffer = w })

  -- The call of `write`; its future is not waited for.
  unfoldable pub write : ℕ → Bytes → Handle l → Option (Handle l)
  unfolding write_buffer.write
  write offset buf h = with_buffer (write_buffer.write h.buffer offset buf) h

  -- The future that the call returns is fulfilled: the batches up to that one are written.
  abbrev pub waited : WriteBuffer → Option (Handle l) → Option (Handle l)
  waited before none = none
  waited before (some h) =
      some (all_written (drop h.done (take (last_confirmed before h.buffer) h.buffer.sent)) h)

  -- `write`, and its future.
  unfoldable pub write_waited : ℕ → Bytes → Handle l → Option (Handle l)
  unfolding write
  write_waited offset buf h = waited h.buffer (write offset buf h)

  -- `fsync` of the write buffer, and its future.
  unfoldable pub buffer_fsync : Handle l → Option (Handle l)
  unfolding write_buffer.fsync
  buffer_fsync h = waited h.buffer (with_buffer (write_buffer.fsync h.buffer) h)

  abbrev pub read_cached : ℕ → (ℕ → ℕ → Content) → ℕ → ℕ → ℕ → Option (Handle l) → Option (Handle l)
  unfolding read_cache.read
  read_cached now handle offset size continuous_size none = none
  read_cached now handle offset size continuous_size (some h) =
      some (record h { cache = read_cache.read l now handle offset size continuous_size h.cache })

  unfoldable pub read : ℕ → (ℕ → ℕ → Content) → ℕ → ℕ → ℕ → Handle l → Option (Handle l)
  unfolding buffer_fsync
  read now handle offset size continuous_size h =
      read_cached now handle offset size continuous_size (buffer_fsync h)

  -- `fsync` and `flush`, but for the call of the wrapped handle.
  abbrev pub cleared : Option (Handle l) → Option (Handle l)
  unfolding read_cache.clear
  cleared none = none
  cleared (some h) = some (record h { cache = read_cache.clear l h.cache })

  unfoldable pub fsync : Handle l → Option (Handle l)
  unfolding buffer_fsync
  fsync h = cleared (buffer_fsync h)

  -- The delayed flush.
  unfoldable pub flush : Handle l → Handle l
  unfolding write_buffer.push_buffer
  flush h = record h { buffer = write_buffer.push_buffer h.buffer }

  -- The first of the batches that are not written yet.
  abbrev pub next_written : List (List Range) → Handle l → Handle l
  next_written [] h = h
  next_written (b ∷ bs) h = batch_written b h

  unfoldable pub batch_ended : Handle l → Handle l
  batch_ended h = next_written (drop h.done h.buffer.sent) h

  -- A read of the wrapped handle, for the cache, ends.
  unfoldable pub block_read : ℕ → ℕ → Content → Handle l → Handle l
  unfolding read_cache.completed
  block_read now i content h = record h { cache = read_cache.completed l now i content h.cache }
