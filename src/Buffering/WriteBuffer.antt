-- ===== src/Buffering/WriteBuffer.antt =====
-- src/buffering/writeBuffer.h: writes that are joined, sent in batches and confirmed later. The
-- batches that `m_writeFuture` chains, and so are written one after another, are a list; a future
-- of `m_confirmationFutures` is known by the size it confirms. Sizes and offsets do not wrap.
pub mod Ranges
pub mod Confirm
pub mod Stepped
pub mod Run
pub mod Tests
use helpers.Prelude.{
  ℕ, zero, suc, ◌+◌, ◌*◌, ◌-◌, ◌/◌, min, max, Bool, ltb, ◌==◌, if◌then◌else◌, Option, none, some,
  List, [], ◌∷◌, ◌++◌, length,
}
use helpers.KeyValue.Buffer.{Bytes}

-- The bytes of one range and their offset.
abbrev pub Range : Type 0
Range = ℕ × Bytes

pub record WriteBuffer : Type 0 where
  pub write_buffer_min_size : ℕ
  pub write_buffer_max_size : ℕ
  pub buffered_size : ℕ
  pub next_offset : ℕ
  pub buffers : List Range
  pub bps : ℕ
  pub pending_confirmation : ℕ
  pub confirmation_futures : List ℕ
  pub sent : List (List Range)

abbrev pub create : ℕ → ℕ → WriteBuffer
create min_size max_size = record {
  write_buffer_min_size = min_size;
  write_buffer_max_size = max_size;
  buffered_size = 0;
  next_offset = 0;
  buffers = [];
  bps = 0;
  pending_confirmation = 0;
  confirmation_futures = [];
  sent = [];
}

abbrev pub calculate_flush_threshold : WriteBuffer → ℕ
calculate_flush_threshold w = min w.write_buffer_max_size (max w.write_buffer_min_size (2 * w.bps))

abbrev pub calculate_confirm_threshold : WriteBuffer → ℕ
calculate_confirm_threshold w = 6 * calculate_flush_threshold w

-- A write behind the last range is joined to it; any other begins a range.
abbrev pub join : ℕ → List Range → ℕ → Bytes → List Range
join next_offset [] offset buf = (offset, buf) ∷ []
join next_offset (r ∷ []) offset buf =
    if next_offset == offset then (r.0, r.1 ++ buf) ∷ [] else r ∷ (offset, buf) ∷ []
join next_offset (r ∷ s ∷ rs) offset buf = r ∷ join next_offset (s ∷ rs) offset buf

unfoldable pub push_buffer : WriteBuffer → WriteBuffer
push_buffer w = if w.buffered_size == 0 then w else record w {
  buffers = [];
  pending_confirmation = w.pending_confirmation + w.buffered_size;
  buffered_size = 0;
  sent = w.sent ++ w.buffers ∷ [];
  confirmation_futures = w.confirmation_futures ++ w.buffered_size ∷ [];
}

-- What the loop of `confirm` leaves pending, by size and by future. The front of an empty queue
-- is none.
unfoldable pub confirm_loop : ℕ → ℕ → List ℕ → Option (ℕ × List ℕ)
confirm_loop threshold pending [] = if ltb threshold pending then none else some (pending, [])
confirm_loop threshold pending (n ∷ ns) =
    let rest = confirm_loop threshold (pending - n) ns in
    if ltb threshold pending then rest else some (pending, n ∷ ns)

abbrev pub confirmed : WriteBuffer → Option (ℕ × List ℕ) → Option WriteBuffer
confirmed w none = none
confirmed w (some (pending, futures)) =
    some (record w { pending_confirmation = pending; confirmation_futures = futures })

unfoldable pub confirm : WriteBuffer → ℕ → Option WriteBuffer
unfolding confirm_loop
confirm w threshold =
    confirmed w (confirm_loop threshold w.pending_confirmation w.confirmation_futures)

unfoldable pub confirm_over_threshold : WriteBuffer → Option WriteBuffer
unfolding confirm
confirm_over_threshold w = confirm w (calculate_confirm_threshold w)

unfoldable pub write : WriteBuffer → ℕ → Bytes → Option WriteBuffer
unfolding push_buffer confirm_over_threshold
write w offset buf =
    let joined = record w {
      buffers = join w.next_offset w.buffers offset buf;
      buffered_size = w.buffered_size + length buf;
      next_offset = offset + length buf;
    } in
    if ltb (calculate_flush_threshold w) (w.buffered_size + length buf)
    then confirm_over_threshold (push_buffer joined)
    else some joined

unfoldable pub fsync : WriteBuffer → Option WriteBuffer
unfolding push_buffer confirm
fsync w = confirm (push_buffer w) 0

-- What happens to a buffer: a call, the delayed flush, or the end of a batch, which measured a
-- bandwidth.
pub data Step : Type 0 where
  write_step : ℕ → Bytes → Step
  fsync_step : Step
  flush_step : Step
  measured_step : ℕ → Step

unfoldable pub step : WriteBuffer → Step → Option WriteBuffer
unfolding write fsync push_buffer
step w (write_step offset buf) = write w offset buf
step w fsync_step = fsync w
step w flush_step = some (push_buffer w)
step w (measured_step bandwidth) = some (record w { bps = (w.bps * 1 + bandwidth * 2) / 3 })

infixl 5 ◌>>=◌
abbrev ◌>>=◌ : Option WriteBuffer → (WriteBuffer → Option WriteBuffer) → Option WriteBuffer
none >>= f = none
some w >>= f = f w

unfoldable pub run : WriteBuffer → List Step → Option WriteBuffer
run w [] = some w
run w (s ∷ ss) = do next ← step w s; run next ss
