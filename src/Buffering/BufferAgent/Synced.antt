-- ===== src/Buffering/BufferAgent/Synced.antt =====
-- src/buffering/bufferAgent.h: what holds of a buffered handle between its operations.
use helpers.Prelude.{
  ℕ, ◌+◌, max, ◌≤◌, Option, none, some, List, [], ◌∷◌, ◌++◌, length, length-append, take, drop,
  append-nil, true, ◌≡◌, refl, sym, ap, subst, ◌∙◌, ◌⊎◌, inl, inr, arith,
}
use helpers.KeyValue.Buffer.{Bytes}
use helpers.Buffering.WriteBuffer.{Range, WriteBuffer, create, push_buffer}
use helpers.Buffering.WriteBuffer as write_buffer
use helpers.Buffering.WriteBuffer.Ranges.{File, apply_all, flat, apply_all-append, total}
use helpers.Buffering.WriteBuffer.Confirm.{Valid, push_buffer-Valid}
use helpers.Buffering.WriteBuffer.Stepped.{
  contents, contents-push_buffer, push_buffer-Sends, Stepped, write-Stepped, fsync-Stepped,
}
use helpers.Buffering.WriteBuffer.Run.{fsync_lem}
use helpers.Buffering.ReadCache.{Limits, ReadCache}
use helpers.Buffering.ReadCache as read_cache
use helpers.Buffering.ReadCache.Reads.{Sound}
use helpers.Buffering.BufferAgent.{
  Handle, last_confirmed, waited, write_waited, all_written, with_buffer, write, buffer_fsync,
  flush, next_written, batch_ended,
}
use helpers.Buffering.BufferAgent.Queued.{
  Fewer, push_buffer_queued, write-Fewer, fsync-Fewer, none_queued, take-drop-take,
}
use helpers.Buffering.BufferAgent.Batches.{
  take_before, take_all, take_next, apply_all-flat, apply_all_empty, all_written_lem,
}

-- A handle to which `rs` was written, over a file that had the bytes `f` before.
module _ (l : Limits) (f : File) where
  pub record Written (rs : List Range) (h : Handle l) : Type 0 where
    pub valid : Valid h.buffer
    pub effect : apply_all (contents h.buffer) f ≡ apply_all rs f
    pub done_some : h.done ≤ length h.buffer.sent
    pub file_is : h.file ≡ apply_all (flat (take h.done h.buffer.sent)) f
    pub cache_is : (h.cache.clearing ≡ true) ⊎ Sound l h.file h.total h.cache

  -- Besides, each batch that is not written yet has its future in the queue.
  pub record Holds (rs : List Range) (h : Handle l) : Type 0 where
    pub written : Written rs h
    pub few : length h.buffer.confirmation_futures ≤ length h.buffer.sent
    pub queued : length h.buffer.sent ≤ h.done + length h.buffer.confirmation_futures

  -- The write buffer goes on, and may send more batches.
  goes_on :
      (rs more : List Range) (h : Handle l) (r : Option WriteBuffer) (s : Stepped h.buffer r more)
      → Written rs h
      → Written (rs ++ more) (record h { buffer = s.after })
  goes_on rs more h r s k = record {
    valid = s.valid;
    effect = s.effect f ∙ ap (apply_all more) k.effect ∙ sym (apply_all-append rs more f);
    done_some =
        omega
          (arith, ap length s.sends.is_all, length-append h.buffer.sent s.sends.later, k.done_some);
    file_is =
        k.file_is
        ∙ ap (λ bs. apply_all (flat bs) f)
            (sym (take_before h.done h.buffer.sent s.sends.later k.done_some)
              ∙ ap (take h.done) (sym s.sends.is_all));
    cache_is = k.cache_is;
  }

  pub flush-Holds : (rs : List Range) (h : Handle l) → Holds rs h → Holds rs (flush h)
  unfolding flush
  flush-Holds rs h k =
      let s = push_buffer-Sends h.buffer in
      record {
        written = record {
          valid = push_buffer-Valid h.buffer k.written.valid;
          effect = ap (λ b. apply_all b f) (contents-push_buffer h.buffer) ∙ k.written.effect;
          done_some =
              omega (
                arith,
                ap length s.is_all,
                length-append h.buffer.sent s.later,
                k.written.done_some,
              );
          file_is =
              k.written.file_is
              ∙ ap (λ bs. apply_all (flat bs) f)
                  (sym (take_before h.done h.buffer.sent s.later k.written.done_some)
                    ∙ ap (take h.done) (sym s.is_all));
          cache_is = k.written.cache_is;
        };
        few = omega (arith, push_buffer_queued h.buffer, k.few);
        queued = omega (arith, push_buffer_queued h.buffer, k.queued);
      }

  next_written-Holds :
      (rs : List Range) (h : Handle l) (bs : List (List Range))
      → drop h.done h.buffer.sent ≡ bs
      → Holds rs h
      → Holds rs (next_written bs h)
  unfolding read_cache.clear
  next_written-Holds rs h [] e k = k
  next_written-Holds rs h (b ∷ bs) e k =
      let (taken, below) = take_next h.done h.buffer.sent b bs e in
      record {
        written = record {
          valid = k.written.valid;
          effect = k.written.effect;
          done_some = below;
          file_is =
              ap (apply_all b) k.written.file_is
              ∙ ap (λ rs. apply_all rs (apply_all (flat (take h.done h.buffer.sent)) f))
                  (sym (append-nil b))
              ∙ sym (apply_all-flat (take h.done h.buffer.sent) (b ∷ []) f)
              ∙ ap (λ bs. apply_all (flat bs) f) (sym taken);
          cache_is = inl refl;
        };
        few = k.few;
        queued = omega (arith, k.queued);
      }

  pub batch_ended-Holds : (rs : List Range) (h : Handle l) → Holds rs h → Holds rs (batch_ended h)
  unfolding batch_ended
  batch_ended-Holds rs h k = next_written-Holds rs h (drop h.done h.buffer.sent) refl k

  -- The batches up to some number are written.
  all_written-Written :
      (rs : List Range) (h : Handle l) (n : ℕ)
      → n ≤ length h.buffer.sent
      → Written rs h
      → let g = all_written (drop h.done (take n h.buffer.sent)) h in
        Written rs g × (g.buffer ≡ h.buffer) × (g.done ≡ max h.done n)
  all_written-Written rs h n few k =
      let bs = drop h.done (take n h.buffer.sent) in
      let g = all_written bs h in
      let w = all_written_lem bs h in
      let (all, many) = take-drop-take h.done n h.buffer.sent k.done_some few in
      let is_done : g.done ≡ max h.done n = w.done_is ∙ many in
      (
        record {
          valid = subst Valid (sym w.same_buffer) k.valid;
          effect = ap (λ b. apply_all (contents b) f) w.same_buffer ∙ k.effect;
          done_some = omega (arith, is_done, k.done_some, ap (λ b. length b.sent) w.same_buffer);
          file_is =
              w.file_is
              ∙ ap (apply_all (flat bs)) k.file_is
              ∙ sym (apply_all-flat (take h.done h.buffer.sent) bs f)
              ∙ ap (λ bs. apply_all (flat bs) f)
                  (all
                    ∙ ap (λ n. take n h.buffer.sent) (sym is_done)
                    ∙ ap (λ b. take g.done b.sent) (sym w.same_buffer));
          cache_is = elim w.cache_is [
            | inl asked ↦ inl asked
            | inr (nothing, same) ↦
                subst (λ x. (x.cache.clearing ≡ true) ⊎ Sound l x.file x.total x.cache) (sym same)
                  k.cache_is
          ];
        },
        w.same_buffer,
        is_done,
      )

  -- A call of the write buffer ends, and its future is fulfilled.
  waited-Holds :
      (rs more : List Range) (h : Handle l) (r : Option WriteBuffer) (s : Stepped h.buffer r more)
      → Fewer h.buffer s.after
      → Holds rs h
      → (g : Handle l) × (waited h.buffer (with_buffer r h) ≡ some g)
        × Holds (rs ++ more) g
        × (g.buffer ≡ s.after)
  waited-Holds rs more h r s fewer k =
      let n = last_confirmed h.buffer s.after in
      let sent = ap length s.sends.is_all ∙ length-append h.buffer.sent s.sends.later in
      let (after, same, is_done) =
        all_written-Written (rs ++ more) (record h { buffer = s.after }) n (ground arith)
          (goes_on rs more h r s k.written) in
      let futures = ap (λ b. length b.confirmation_futures) same in
      let batches = ap (λ b. length b.sent) same in
      (
        all_written (drop h.done (take n s.after.sent)) (record h { buffer = s.after }),
        ap (λ r. waited h.buffer (with_buffer r h)) s.runs,
        record {
          written = after;
          few = omega (arith, fewer, k.few, futures, batches);
          queued = ground (arith, fewer, k.queued, k.few, futures, batches, is_done, sent);
        },
        same,
      )

  -- A write goes through, and its future is fulfilled.
  pub write-Holds :
      (rs : List Range) (offset : ℕ) (buf : Bytes) (h : Handle l)
      → Holds rs h
      → (k : Handle l) × (write_waited offset buf h ≡ some k) × Holds (rs ++ (offset, buf) ∷ []) k
  unfolding write_waited write
  write-Holds rs offset buf h k =
      let s = write-Stepped h.buffer offset buf k.written.valid in
      let (g, ends, after, same) =
        waited-Holds rs ((offset, buf) ∷ []) h (write_buffer.write h.buffer offset buf) s
          (write-Fewer h.buffer offset buf s.after s.runs) k in
      (g, ends, after)

  -- After a synchronisation nothing that was written is held back.
  fsync_empties : (w : WriteBuffer) (v : Valid w) → total (fsync-Stepped w v).after.buffers ≡ 0
  fsync_empties w v =
      let s = fsync-Stepped w v in
      let (after, runs, confirmed, empty, same) = fsync_lem w v in
      let is : Path (Option WriteBuffer) (some s.after) (some after) = sym s.runs ∙ runs in
      sym s.valid.buffered ∙ ap size_of is ∙ empty
    where
      size_of : Option WriteBuffer → ℕ
      size_of none = 0
      size_of (some w) = w.buffered_size

  -- After a synchronisation no future is left.
  fsync_confirms :
      (w : WriteBuffer) (v : Valid w) → (fsync-Stepped w v).after.confirmation_futures ≡ []
  fsync_confirms w v =
      let s = fsync-Stepped w v in
      let (after, runs, nothing, empty, same) = fsync_lem w v in
      let is : Path (Option WriteBuffer) (some s.after) (some after) = sym s.runs ∙ runs in
      none_queued s.after s.valid (ap pending_of is ∙ nothing)
    where
      pending_of : Option WriteBuffer → ℕ
      pending_of none = 0
      pending_of (some w) = w.pending_confirmation

  -- The future of a synchronisation is fulfilled, and then the file has all that was written.
  pub buffer_fsync-Holds :
      (rs : List Range) (h : Handle l)
      → Holds rs h
      → (g : Handle l) × (buffer_fsync h ≡ some g) × Holds rs g × (g.file ≡ apply_all rs f)
  unfolding buffer_fsync
  buffer_fsync-Holds rs h k =
      let v = k.written.valid in
      let s = fsync-Stepped h.buffer v in
      let (g, ends, after, same) =
        waited-Holds rs [] h (write_buffer.fsync h.buffer) s (fsync-Fewer h.buffer s.after s.runs)
          k in
      let held : Holds rs g = subst (λ rs. Holds rs g) (append-nil rs) after in
      let left : g.buffer.confirmation_futures ≡ [] =
        ap (λ b. b.confirmation_futures) same ∙ fsync_confirms h.buffer v in
      let all_done : g.done ≡ length g.buffer.sent =
        omega (arith, ap length left, held.queued, held.written.done_some) in
      (
        g,
        ends,
        held,
        held.written.file_is
            ∙ ap (λ bs. apply_all (flat bs) f) (take_all g.done g.buffer.sent all_done)
            ∙ sym (
                apply_all_empty g.buffer.buffers (apply_all (flat g.buffer.sent) f)
                  (ap (λ b. total b.buffers) same ∙ fsync_empties h.buffer v))
            ∙ sym (apply_all-append (flat g.buffer.sent) g.buffer.buffers f)
            ∙ held.written.effect,
      )
