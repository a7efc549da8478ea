-- ===== src/Buffering/BufferAgent/ReadBack.antt =====
-- src/buffering/bufferAgent.h: a buffered handle over a run of calls, with the batches and the
-- blocks that end in between.
use helpers.Prelude.{ℕ, some, List, [], ◌∷◌, ◌++◌, true, ◌≡◌, ◌⊎◌}
use helpers.KeyValue.Buffer.{Bytes}
use helpers.Buffering.WriteBuffer.{Range, create}
use helpers.Buffering.WriteBuffer.Ranges.{File}
use helpers.Buffering.ReadCache.{
  Content, pending, Limits, ReadCache, ReadData, entry, completed_at, created,
}
use helpers.Buffering.ReadCache as read_cache
use helpers.Buffering.ReadCache.Sound.{Honest, HonestFor, Absent}
use helpers.Buffering.ReadCache.Reads.{Sound}
use helpers.Buffering.BufferAgent.{
  Handle, write_waited, buffer_fsync, read, fsync, flush, batch_ended, block_read,
}

abbrev pub opened : (l : Limits) → ℕ → ℕ → File → ℕ → Handle l
opened l min_size max_size f size = record {
  buffer = create min_size max_size;
  cache = created l;
  file = f;
  total = size;
  done = 0;
}

-- The handles that a file `f` of some size comes to, and what was written to it until then. The
-- caller waits for the future of its write before the next call. A handle that is read gives bytes
-- of the file as it then is; so does a block that the cache keeps and that is read, unless the cache
-- is to be cleared.
pub data Reach (l : Limits) (f : File) : List Range → Handle l → Type 0 where
  opens : (min_size max_size size : ℕ) → Reach l f [] (opened l min_size max_size f size)
  writes :
      {rs : List Range} {h k : Handle l} (offset : ℕ) (buf : Bytes)
      → Reach l f rs h
      → write_waited offset buf h ≡ some k
      → Reach l f (rs ++ (offset, buf) ∷ []) k
  reads :
      {rs : List Range} {h g k : Handle l} (now : ℕ) (handle : ℕ → ℕ → Content)
      (offset size continuous_size : ℕ)
      → Reach l f rs h
      → buffer_fsync h ≡ some g
      → Honest g.file g.total handle
      → read now handle offset size continuous_size h ≡ some k
      → Reach l f rs k
  fsyncs : {rs : List Range} {h k : Handle l} → Reach l f rs h → fsync h ≡ some k → Reach l f rs k
  flushes : {rs : List Range} {h : Handle l} → Reach l f rs h → Reach l f rs (flush h)
  batch_ends : {rs : List Range} {h : Handle l} → Reach l f rs h → Reach l f rs (batch_ended h)
  block_ends :
      {rs : List Range} {h : Handle l} (now i : ℕ) (content : Content) (e : ReadData)
      → Reach l f rs h
      → entry h.cache.store i ≡ some e
      → e.content ≡ pending
      → ((h.cache.clearing ≡ true) ⊎ Absent i h.cache.cache) ⊎ HonestFor h.file h.total e content
      → Reach l f rs (block_read now i content h)
