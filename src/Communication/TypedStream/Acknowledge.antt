-- ===== src/Communication/TypedStream/Acknowledge.antt =====
-- src/communication/streaming/typedStream.h: what an acknowledgement removes from the buffer.
use helpers.Prelude.{
  ℕ, zero, suc, ◌<◌, ◌≤◌, ◌≡◌, sym, ◌∙◌, Bool, true, false, ltb, ◌⊎◌, inl, inr, some, Option-cases,
  Bool-cases, [], length, count_if, count_if-true, count_if_mono, arith,
}
use helpers.Communication.PriorityQueue.{PriorityQueue}
use helpers.Communication.TypedStream.{
  ClientMessage, stream_less, TypedStream, drop_loop, handle_message_acknowledgement,
}

abbrev pub beyond : ℕ → ClientMessage → Bool
beyond n m = ltb n m.sequence_number

module _ (pq : PriorityQueue ClientMessage stream_less) where
  open pq use {Queue, items, emplace, try_pop}

  module _ (q : Queue) (a : ClientMessage) (r : Queue) (e : try_pop q ≡ some (a, r)) where
    pub pop_shorter : length (items q) ≡ suc (length (items r))
    pop_shorter =
        sym (count_if-true (items q))
        ∙ pq.try_pop-eq-some (λ _. true) q a r e
        ∙ omega (arith, count_if-true (items r))

    -- No other message has a higher number than the one that comes out.
    pub pop_highest : (n : ℕ) → a.sequence_number ≤ n → count_if (beyond n) (items r) ≡ 0
    pop_highest n h = omega (
      arith,
      pq.try_pop_first q a r e,
      count_if_mono (beyond n) (stream_less a) (λ x p. ground arith) (items r),
    )

    pub pop_beyond : (n : ℕ) → 0 < count_if (beyond n) (items q) → n < a.sequence_number
    pop_beyond n h = elim (Bool-cases (ltb n a.sequence_number)) [
      | inl above ↦ ground arith
      | inr below ↦ absurd (ground (arith, pop_highest n, pq.try_pop-eq-some (beyond n) q a r e))
    ]

    pub put_back :
        (p : ClientMessage → Bool) → count_if p (items (emplace a r)) ≡ count_if p (items q)
    put_back p = pq.items-emplace p a r ∙ sym (pq.try_pop-eq-some p q a r e)

  drop_loop_none :
      (fuel n : ℕ) (q : Queue)
      → length (items q) < fuel
      → count_if (beyond n) (items q) ≡ 0
      → items (drop_loop pq fuel n q) ≡ []
  unfolding drop_loop
  drop_loop_none zero n q h z = absurd (omega arith)
  drop_loop_none (suc fuel) n q h z = elim (Option-cases (try_pop q)) [
    | inl e ↦ rw (e, drop_loop) (pq.try_pop-eq-none q e)
    | inr ((a, r), e) ↦
        let c = pq.try_pop-eq-some (beyond n) q a r e in
        let low : ltb n a.sequence_number ≡ false = ground arith in
        rw (e, drop_loop, low)
          (drop_loop_none fuel n r (omega (arith, pop_shorter q a r e)) (ground arith))
  ]

  drop_loop_some :
      (fuel n : ℕ) (q : Queue) (p : ClientMessage → Bool)
      → 0 < count_if (beyond n) (items q)
      → count_if p (items (drop_loop pq (suc fuel) n q)) ≡ count_if p (items q)
  unfolding drop_loop
  drop_loop_some fuel n q p h = elim (Option-cases (try_pop q)) [
    | inl e ↦ rw (e, drop_loop)
    | inr ((a, r), e) ↦
        let high : ltb n a.sequence_number ≡ true = ground (arith, pop_beyond q a r e n h) in
        rw (e, drop_loop, high) (put_back q a r e p)
  ]

  -- An acknowledgement up to `n` empties the buffer if no message has a number beyond `n`, and
  -- otherwise removes nothing, also of what is acknowledged: the buffer then holds the same
  -- messages, whatever is counted of them.
  pub acknowledgement_all_or_nothing :
      (n : ℕ) (s : TypedStream pq) (p : ClientMessage → Bool)
      → let after = handle_message_acknowledgement pq n s in
        ((count_if (beyond n) (items s.buffer) ≡ 0) × (items after.buffer ≡ []))
        ⊎ ((0 < count_if (beyond n) (items s.buffer))
            × (count_if p (items after.buffer) ≡ count_if p (items s.buffer)))
  unfolding handle_message_acknowledgement
  acknowledgement_all_or_nothing n s p =
      elim (Bool-cases (ltb 0 (count_if (beyond n) (items s.buffer)))) [
        | inl some_left ↦
            inr (ground arith, drop_loop_some (length (items s.buffer)) n s.buffer p (ground arith))
        | inr none_left ↦
            let z : count_if (beyond n) (items s.buffer) ≡ 0 = ground arith in
            inl (z, drop_loop_none (suc (length (items s.buffer))) n s.buffer (omega arith) z)
      ]
