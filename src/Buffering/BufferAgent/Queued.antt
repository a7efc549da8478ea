-- ===== src/Buffering/BufferAgent/Queued.antt =====
-- src/buffering/writeBuffer.h: the futures that calls take out of the queue of confirmations.
use helpers.Prelude.{
  ℕ, zero, suc, ◌+◌, ◌-◌, ◌≤◌, max, Option, none, some, List, [], ◌∷◌, ◌++◌, length, length-append,
  take, drop, append-nil, inl, inr, Bool-cases, ◌≡◌, refl, sym, ap, ◌∙◌, arith,
}
use helpers.KeyValue.Buffer.{Bytes}
use helpers.Buffering.WriteBuffer.{
  WriteBuffer, push_buffer, confirm_loop, confirm, confirmed, confirm_over_threshold, write, fsync,
}
use helpers.Buffering.WriteBuffer.Confirm.{Valid, sum, AllPositive, joined}
use helpers.Buffering.WriteBuffer.Stepped.{over}

-- No more futures are left than were there and batches were sent.
abbrev pub Fewer : WriteBuffer → WriteBuffer → Type 0
Fewer w after =
    length after.confirmation_futures + length w.sent
    ≤ length w.confirmation_futures + length after.sent

pub push_buffer_queued :
    (w : WriteBuffer)
    → length (push_buffer w).confirmation_futures + length w.sent
      ≡ length w.confirmation_futures + length (push_buffer w).sent
unfolding push_buffer
push_buffer_queued w = ground (
  arith,
  length-append w.sent (w.buffers ∷ []),
  length-append w.confirmation_futures (w.buffered_size ∷ []),
)

futures_of : Option (ℕ × List ℕ) → ℕ
futures_of none = 0
futures_of (some (pending, ns)) = length ns

confirm_loop_fewer :
    (threshold pending : ℕ) (ns : List ℕ)
    → futures_of (confirm_loop threshold pending ns) ≤ length ns
unfolding confirm_loop futures_of
confirm_loop_fewer threshold pending [] = ground arith
confirm_loop_fewer threshold pending (n ∷ ns) =
    ground (arith, confirm_loop_fewer threshold (pending - n) ns)

confirm_fewer :
    (w : WriteBuffer) (threshold : ℕ) (after : WriteBuffer)
    → confirm w threshold ≡ some after
    → (length after.confirmation_futures ≤ length w.confirmation_futures)
      × (length after.sent ≡ length w.sent)
unfolding confirm futures_of
confirm_fewer w threshold after e =
    go (confirm_loop threshold w.pending_confirmation w.confirmation_futures)
      (confirm_loop_fewer threshold w.pending_confirmation w.confirmation_futures) e
  where
    go :
        (r : Option (ℕ × List ℕ))
        → futures_of r ≤ length w.confirmation_futures
        → confirmed w r ≡ some after
        → (length after.confirmation_futures ≤ length w.confirmation_futures)
          × (length after.sent ≡ length w.sent)
    go none l e = absurd (ground arith)
    go (some (pending, ns)) l e = ground arith

pub write-Fewer :
    (w : WriteBuffer) (offset : ℕ) (buf : Bytes) (after : WriteBuffer)
    → write w offset buf ≡ some after
    → Fewer w after
unfolding write confirm_over_threshold
write-Fewer w offset buf after e = elim (Bool-cases (over w offset buf)) [
  | inl flushes ↦
      let (l, s) = confirm_fewer (push_buffer (joined w offset buf)) _ after (rw flushes at e) in
      omega (arith, l, s, push_buffer_queued (joined w offset buf))
  | inr keeps ↦ let e = rw keeps at e in ground arith
]

pub fsync-Fewer : (w : WriteBuffer) (after : WriteBuffer) → fsync w ≡ some after → Fewer w after
unfolding fsync
fsync-Fewer w after e =
    let (l, s) = confirm_fewer (push_buffer w) 0 after e in
    omega (arith, l, s, push_buffer_queued w)

-- Nothing pending is no future left.
pub none_queued :
    (w : WriteBuffer) → Valid w → w.pending_confirmation ≡ 0 → w.confirmation_futures ≡ []
none_queued w v z = go w.confirmation_futures v.positive (sym v.pending ∙ z)
  where
    go : (ns : List ℕ) → AllPositive ns → sum ns ≡ 0 → ns ≡ []
    go [] a e = refl
    go (n ∷ ns) (p, a) e = absurd (omega arith)

-- The batches up to some number, taken up to one and then to another.
pub take-drop-take {ℓ} :
    {A : Type ℓ} (d n : ℕ) (xs : List A)
    → d ≤ length xs
    → n ≤ length xs
    → (take d xs ++ drop d (take n xs) ≡ take (max d n) xs)
      × (d + length (drop d (take n xs)) ≡ max d n)
take-drop-take zero zero xs h k = (refl, refl)
take-drop-take zero (suc n) [] h k = absurd (omega arith)
take-drop-take zero (suc n) (x ∷ xs) h k =
    let (e, l) = take-drop-take zero n xs (omega arith) (omega arith) in
    (
      ap (◌∷◌ x) e
          ∙ ap (λ k. take k (x ∷ xs)) {x = suc (max 0 n)} {y = max 0 (suc n)} (omega arith),
      omega (arith, l),
    )
take-drop-take (suc d) n [] h k = absurd (omega arith)
take-drop-take (suc d) zero (x ∷ xs) h k = (
  append-nil (x ∷ take d xs)
      ∙ ap (λ k. take k (x ∷ xs)) {x = suc d} {y = max (suc d) 0} (omega arith),
  omega arith,
)
take-drop-take (suc d) (suc n) (x ∷ xs) h k =
    let (e, l) = take-drop-take d n xs (omega arith) (omega arith) in
    (
      ap (◌∷◌ x) e
          ∙ ap (λ k. take k (x ∷ xs)) {x = suc (max d n)} {y = max (suc d) (suc n)} (omega arith),
      omega (arith, l),
    )
