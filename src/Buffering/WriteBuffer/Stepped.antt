-- ===== src/Buffering/WriteBuffer/Stepped.antt =====
-- src/buffering/writeBuffer.h: what one call makes of a buffer.
use helpers.Prelude.{
  ℕ, ◌+◌, ◌≡◌, refl, sym, ap, ◌∙◌, Bool, inl, inr, Bool-cases, ltb, ◌==◌, Option, some, List, [],
  ◌∷◌, ◌++◌, length, append-nil, append_assoc, arith,
}
use helpers.KeyValue.Buffer.{Bytes}
use helpers.Buffering.WriteBuffer.{
  Range, WriteBuffer, join, push_buffer, confirm_over_threshold, write, fsync,
  calculate_flush_threshold, calculate_confirm_threshold,
}
use helpers.Buffering.WriteBuffer.Ranges.{
  File, write_at, apply_all, flat, apply_all-append, flat-append, apply_all-join,
}
use helpers.Buffering.WriteBuffer.Confirm.{
  Valid, ConfirmedTo, confirm_lem, joined, joined-Valid, push_buffer-Valid,
}

-- All that was sent, and then all that is held.
abbrev pub contents : WriteBuffer → List Range
contents w = flat w.sent ++ w.buffers

pub contents-push_buffer : (w : WriteBuffer) → contents (push_buffer w) ≡ contents w
unfolding push_buffer
contents-push_buffer w = elim (Bool-cases (w.buffered_size == 0)) [
  | inl empty ↦ rw empty
  | inr some_bytes ↦ rw some_bytes (append-nil _ ∙ flat-append w.sent w.buffers)
]

pub push_buffer_size : (w : WriteBuffer) → (push_buffer w).buffered_size ≡ 0
unfolding push_buffer
push_buffer_size w = ground arith

pub push_buffer_threshold :
    (w : WriteBuffer) → calculate_confirm_threshold (push_buffer w) ≡ calculate_confirm_threshold w
unfolding push_buffer
push_buffer_threshold w = elim (Bool-cases (w.buffered_size == 0)) [
  | inl empty ↦ rw empty
  | inr some_bytes ↦ rw some_bytes
]

pub contents-confirm :
    (threshold : ℕ) (w : WriteBuffer) (c : ConfirmedTo threshold w) → contents c.after ≡ contents w
contents-confirm threshold w c =
    ap (λ s. flat s ++ c.after.buffers) c.same_sent ∙ ap (λ b. flat w.sent ++ b) c.same_buffers

-- The batches that are sent later than others.
pub record Sends (before after : List (List Range)) : Type 0 where
  pub later : List (List Range)
  pub is_all : after ≡ before ++ later

pub Sends-refl : {a b : List (List Range)} → b ≡ a → Sends a b
Sends-refl {a} e = record { later = []; is_all = e ∙ sym (append-nil a) }

pub Sends-trans : {a b c : List (List Range)} → Sends a b → Sends b c → Sends a c
Sends-trans {a} s t = record {
  later = s.later ++ t.later;
  is_all = t.is_all ∙ ap (λ l. l ++ t.later) s.is_all ∙ append_assoc a s.later t.later;
}

pub push_buffer-Sends : (w : WriteBuffer) → Sends w.sent (push_buffer w).sent
unfolding push_buffer
push_buffer-Sends w = elim (Bool-cases (w.buffered_size == 0)) [
  | inl empty ↦ rw empty (Sends-refl refl)
  | inr some_bytes ↦ rw some_bytes (record { later = w.buffers ∷ []; is_all = refl })
]

-- A step from a valid buffer: it ends, in a valid buffer, and has the effect of the ranges that
-- its caller writes.
pub record Stepped (w : WriteBuffer) (result : Option WriteBuffer) (ranges : List Range)
    : Type 0 where
  pub after : WriteBuffer
  pub runs : result ≡ some after
  pub valid : Valid after
  pub effect :
      (f : File) → apply_all (contents after) f ≡ apply_all ranges (apply_all (contents w) f)
  pub sends : Sends w.sent after.sent

joined_effect :
    (w : WriteBuffer) (offset : ℕ) (buf : Bytes) (f : File)
    → Valid w
    → apply_all (contents (joined w offset buf)) f ≡ write_at offset buf (apply_all (contents w) f)
joined_effect w offset buf f v =
    apply_all-append (flat w.sent) (join w.next_offset w.buffers offset buf) f
    ∙ apply_all-join w.next_offset w.buffers offset buf (apply_all (flat w.sent) f) v.ends
    ∙ ap (write_at offset buf) (sym (apply_all-append (flat w.sent) w.buffers f))

abbrev pub over : WriteBuffer → ℕ → Bytes → Bool
over w offset buf = ltb (calculate_flush_threshold w) (w.buffered_size + length buf)

pub write_over :
    (w : WriteBuffer) (offset : ℕ) (buf : Bytes)
    → Valid w
    → ConfirmedTo
        (calculate_confirm_threshold (push_buffer (joined w offset buf)))
        (push_buffer (joined w offset buf))
write_over w offset buf v =
    confirm_lem (push_buffer (joined w offset buf)) _
      (push_buffer-Valid (joined w offset buf) (joined-Valid w offset buf v))

pub write-Stepped :
    (w : WriteBuffer) (offset : ℕ) (buf : Bytes)
    → Valid w
    → Stepped w (write w offset buf) ((offset, buf) ∷ [])
unfolding write confirm_over_threshold
write-Stepped w offset buf v = elim (Bool-cases (over w offset buf)) [
  | inl flushes ↦
      let c = write_over w offset buf v in
      record {
        after = c.after;
        runs = rw flushes c.runs;
        valid = c.valid;
        effect = λ f.
            ap (λ rs. apply_all rs f)
              (contents-confirm _ _ c ∙ contents-push_buffer (joined w offset buf))
            ∙ joined_effect w offset buf f v;
        sends = Sends-trans (push_buffer-Sends (joined w offset buf)) (Sends-refl c.same_sent);
      }
  | inr keeps ↦ record {
    after = joined w offset buf;
    runs = rw keeps refl;
    valid = joined-Valid w offset buf v;
    effect = λ f. joined_effect w offset buf f v;
    sends = Sends-refl refl;
  }
]

pub fsync_to : (w : WriteBuffer) → Valid w → ConfirmedTo 0 (push_buffer w)
fsync_to w v = confirm_lem (push_buffer w) 0 (push_buffer-Valid w v)

pub fsync-Stepped : (w : WriteBuffer) → Valid w → Stepped w (fsync w) []
unfolding fsync
fsync-Stepped w v =
    let c = fsync_to w v in
    record {
      after = c.after;
      runs = c.runs;
      valid = c.valid;
      effect = λ f. ap (λ rs. apply_all rs f) (contents-confirm _ _ c ∙ contents-push_buffer w);
      sends = Sends-trans (push_buffer-Sends w) (Sends-refl c.same_sent);
    }
