-- ===== src/Buffering/WriteBuffer/Run.antt =====
-- A buffer over a run of writes, flushes and synchronisations.
use helpers.Prelude.{
  ℕ, ◌+◌, ◌<◌, ◌≤◌, ◌≡◌, refl, sym, ap, ◌∙◌, inl, inr, Bool-cases, some, List, [], ◌∷◌, ◌++◌,
  length, arith,
}
use helpers.KeyValue.Buffer.{Bytes}
use helpers.Buffering.WriteBuffer.{
  Range, WriteBuffer, create, push_buffer, confirm_over_threshold, write, fsync,
  calculate_flush_threshold, calculate_confirm_threshold, Step, write_step, fsync_step, flush_step,
  measured_step, step, run,
}
use helpers.Buffering.WriteBuffer.Ranges.{File, apply_all, apply_all-append}
use helpers.Buffering.WriteBuffer.Confirm.{Valid, joined, push_buffer-Valid}
use helpers.Buffering.WriteBuffer.Stepped.{
  contents, contents-push_buffer, contents-confirm, push_buffer_size, push_buffer_threshold,
  Sends-refl, Sends-trans, push_buffer-Sends, Stepped, over, write_over, write-Stepped, fsync_to,
  fsync-Stepped,
}

-- A write to a buffer whose sizes add up goes through, holds back no more bytes than the flush
-- threshold, and when it flushes leaves no more bytes unconfirmed than the confirm threshold.
pub write_bounded :
    (w : WriteBuffer) (offset : ℕ) (buf : Bytes)
    → Valid w
    → (after : WriteBuffer) × (write w offset buf ≡ some after)
      × (after.buffered_size ≤ calculate_flush_threshold w)
      × (calculate_flush_threshold w < w.buffered_size + length buf
          → after.pending_confirmation ≤ calculate_confirm_threshold w)
unfolding write confirm_over_threshold
write_bounded w offset buf v = elim (Bool-cases (over w offset buf)) [
  | inl flushes ↦
      let c = write_over w offset buf v in
      (
        c.after,
        rw flushes c.runs,
        omega (arith, c.same_size, push_buffer_size (joined w offset buf)),
        λ above. omega (arith, c.within, push_buffer_threshold (joined w offset buf)),
      )
  | inr keeps ↦ (joined w offset buf, rw keeps refl, ground arith, λ above. ground arith)
]

-- A synchronisation goes through; afterwards no byte is held or waits for a confirmation, and all
-- that was sent has the effect of all that was sent or held before.
pub fsync_lem :
    (w : WriteBuffer)
    → Valid w
    → (after : WriteBuffer) × (fsync w ≡ some after)
      × (after.pending_confirmation ≡ 0)
      × (after.buffered_size ≡ 0)
      × ((f : File) → apply_all (contents after) f ≡ apply_all (contents w) f)
unfolding fsync
fsync_lem w v =
    let c = fsync_to w v in
    (
      c.after,
      c.runs,
      omega (arith, c.within),
      omega (arith, c.same_size, push_buffer_size w),
      λ f. ap (λ rs. apply_all rs f) (contents-confirm _ _ c ∙ contents-push_buffer w),
    )

-- The ranges that the callers of a run's steps write.
abbrev pub ranges_of : Step → List Range
ranges_of (write_step offset buf) = (offset, buf) ∷ []
ranges_of s = []

abbrev pub written : List Step → List Range
written [] = []
written (s ∷ ss) = ranges_of s ++ written ss

step-Stepped : (w : WriteBuffer) (s : Step) → Valid w → Stepped w (step w s) (ranges_of s)
unfolding step fsync
step-Stepped w (write_step offset buf) v = write-Stepped w offset buf v
step-Stepped w fsync_step v = fsync-Stepped w v
step-Stepped w flush_step v = record {
  after = push_buffer w;
  runs = refl;
  valid = push_buffer-Valid w v;
  effect = λ f. ap (λ rs. apply_all rs f) (contents-push_buffer w);
  sends = push_buffer-Sends w;
}
step-Stepped w (measured_step bandwidth) v = record {
  after = _;
  runs = refl;
  valid = record {
    buffered = v.buffered;
    pending = v.pending;
    positive = v.positive;
    ends = v.ends;
  };
  effect = λ f. refl;
  sends = Sends-refl refl;
}

run-Stepped : (w : WriteBuffer) (ss : List Step) → Valid w → Stepped w (run w ss) (written ss)
unfolding run
run-Stepped w [] v = record {
  after = w;
  runs = refl;
  valid = v;
  effect = λ f. refl;
  sends = Sends-refl refl;
}
run-Stepped w (s ∷ ss) v =
    let first = step-Stepped w s v in
    let rest = run-Stepped first.after ss first.valid in
    record {
      after = rest.after;
      runs = rw first.runs rest.runs;
      valid = rest.valid;
      effect = λ f.
          rest.effect f
          ∙ ap (apply_all (written ss)) (first.effect f)
          ∙ sym (apply_all-append (ranges_of s) (written ss) (apply_all (contents w) f));
      sends = Sends-trans first.sends rest.sends;
    }

pub create-Valid : (min_size max_size : ℕ) → Valid (create min_size max_size)
create-Valid min_size max_size = record {
  buffered = refl;
  pending = refl;
  positive = tt;
  ends = tt;
}

-- Any run of writes, synchronisations, delayed flushes and measurements of a new buffer goes
-- through, without asking an empty queue for a future; what it has sent, batch after batch, and
-- then what it holds make the same file as the callers' writes one after another.
pub run_writes :
    (min_size max_size : ℕ) (ss : List Step)
    → (after : WriteBuffer) × (run (create min_size max_size) ss ≡ some after)
      × ((f : File) → apply_all (contents after) f ≡ apply_all (written ss) f)
run_writes min_size max_size ss =
    let r = run-Stepped (create min_size max_size) ss (create-Valid min_size max_size) in
    (r.after, r.runs, r.effect)
