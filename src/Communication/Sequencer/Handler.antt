-- ===== src/Communication/Sequencer/Handler.antt =====
-- What the message callback sends for one message of a stream.
use helpers.Prelude.{
  ℕ, suc, ◌+◌, ◌-◌, ◌<◌, ◌≤◌, ◌≡◌, refl, true, false, leb, ◌⊎◌, inl, inr, none, some, count_up,
  List, [], ◌∷◌, length, map, arith, u64, Bool-cases, Option-cases, ◌==◌, if◌then◌else◌, count_if,
  ap, ◌∙◌,
}
use helpers.Communication.PriorityQueue.{PriorityQueue}
use helpers.Communication.Sequencer.{
  ServerMessage, sequence_number, greater_seq_num, Buffer, push, clear, missing, handle_stream,
  StreamControl, message_stream_reset, message_request, message_acknowledgement,
  stream_msg_ack_window, reset_sequence_number_ack,
}
use helpers.Communication.Sequencer.Pop.{with_number, ends}
use helpers.Communication.Sequencer.End.{closes, clear-Ended, clear-unended}
use helpers.Communication.Sequencer.Stream.{
  Tracks, InRange, push-Bounded, push_numbers, push_counted, settled, clear-push-Tracks, in_order,
}

-- One past the number that is acknowledged last for a stream, where it was `n` before.
abbrev pub acknowledged_to : ℕ → ℕ → List StreamControl → ℕ
acknowledged_to i n [] = n
acknowledged_to i n (message_stream_reset ∷ cs) = acknowledged_to i n cs
acknowledged_to i n (message_request j lower upper ∷ cs) = acknowledged_to i n cs
acknowledged_to i n (message_acknowledgement j k ∷ cs) =
    acknowledged_to i (if j == i then suc k else n) cs

count_below :
    (k : ℕ) (xs : List ServerMessage)
    → ((n : ℕ) → n ≤ k → with_number n xs ≡ 0)
    → count_if (λ m. leb (sequence_number m) k) xs ≡ 0
count_below k [] h = refl
count_below k (x ∷ xs) h =
    ground (arith, h (sequence_number x), count_below k xs (λ n l. ground (arith, h n l)))

module _ (pq : PriorityQueue ServerMessage greater_seq_num) (stream_id : ℕ) where
  open pq use {items}

  module _ (seen : List ServerMessage) (b : Buffer pq) (m : ServerMessage) (t : Tracks pq seen b)
      (v : InRange pq (m ∷ seen)) where
    drained_advanced :
        (f : (clear pq (push pq b m)).finished ≡ false)
        → items (clear pq (push pq b m)).after.buffer ≡ []
        → 0 < (clear pq (push pq b m)).after.seq_num
    drained_advanced f e =
        let s = settled pq seen b m t v f in
        let n = sequence_number m in
        ground (
          arith,
          push_numbers pq seen b m t v,
          push_counted pq seen b m t v n,
          s.reached,
          s.fresh,
          s.kept n,
          ap (with_number n) e,
        )

    -- While the stream goes on, either no message waits and none is requested, or one request is
    -- sent, which asks for the numbers from the expected one up to the one before the lowest that
    -- waits.
    pub missing_gap :
        (clear pq (push pq b m)).finished ≡ false
        → let c = clear pq (push pq b m) in
          ((items c.after.buffer ≡ []) × (missing pq stream_id c ≡ []))
          ⊎ ((missing pq stream_id c ≡ message_request stream_id c.after.seq_num c.last ∷ [])
              × (c.after.seq_num ≤ c.last)
              × (0 < with_number (suc c.last) (items c.after.buffer))
              × (count_if (λ x. leb (sequence_number x) c.last) (items c.after.buffer) ≡ 0))
    missing_gap f = elim (settled pq seen b m t v f).gap [
      | inl (e, l) ↦
          inl (e, ground (arith, l, drained_advanced f e, (in_order pq seen b m t v).bounded))
      | inr (le, here, below) ↦ inr (ground arith, le, here, count_below _ _ below)
    ]

    -- A kept buffer has fewer than `STREAM_MSG_ACK_WINDOW` numbers behind the one that was
    -- acknowledged last, and what is sent acknowledges what the buffer notes down.
    pub kept_acknowledged :
        (kept : Buffer pq)
        → (handle_stream pq stream_id b m).kept ≡ some kept
        → (kept.seq_num < kept.seq_num_ack + stream_msg_ack_window)
          × (acknowledged_to stream_id b.seq_num_ack (handle_stream pq stream_id b m).sent
              ≡ kept.seq_num_ack)
    unfolding handle_stream
    kept_acknowledged kept e =
        let o = in_order pq seen b m t v in
        let n = push_numbers pq seen b m t v in
        (
          ground arith,
          ground (arith, o.acknowledged, o.expected, o.bounded, n, t.acknowledged, t.in_range),
        )

    dropped_cases :
        (handle_stream pq stream_id b m).kept ≡ none
        → let c = clear pq (push pq b m) in
          (c.finished ≡ true)
          × ((handle_stream pq stream_id b m).forwarded ≡ c.forwarded)
          × ((handle_stream pq stream_id b m).sent ≡ message_acknowledgement stream_id c.last ∷ [])
    unfolding handle_stream
    dropped_cases e = ground arith

    kept_cases :
        (kept : Buffer pq)
        → (handle_stream pq stream_id b m).kept ≡ some kept
        → let c = clear pq (push pq b m) in
          (c.finished ≡ false)
          × ((handle_stream pq stream_id b m).forwarded ≡ c.forwarded)
          × (kept.seq_num ≡ c.after.seq_num)
          × (kept.buffer ≡ c.after.buffer)
          × ((kept.seq_num_ack ≡ c.after.seq_num_ack) ⊎ (kept.seq_num_ack ≡ kept.seq_num))
    unfolding handle_stream
    kept_cases kept e = ground arith

    -- A buffer that is dropped: the stream has ended, and the last number is acknowledged.
    dropped :
        (handle_stream pq stream_id b m).kept ≡ none
        → let h = handle_stream pq stream_id b m in
          (closes h.forwarded ≡ true)
          × (map sequence_number h.forwarded ≡ count_up b.seq_num (length h.forwarded))
          × (h.sent ≡ message_acknowledgement stream_id (b.seq_num + length h.forwarded - 1) ∷ [])
    dropped e =
        let o = in_order pq seen b m t v in
        let (f, out, sent) = dropped_cases e in
        let (last, closed) = (clear-Ended pq (push pq b m) (push-Bounded pq seen b m t v)).0 f in
        let n = push_numbers pq seen b m t v in
        (
          rw out closed,
          rw out (o.numbers ∙ ap (λ k. count_up k (length (clear pq (push pq b m)).forwarded)) n.0),
          rw (out, sent)
              (ap (λ k. message_acknowledgement stream_id k ∷ [])
                (omega (arith, last, o.expected, n))),
        )

    -- Otherwise the buffer that is kept again tracks all that has arrived, and what is forwarded
    -- brings it from the old expected number to the new one.
    pub handle_stream-Tracks :
        (kept : Buffer pq)
        → (handle_stream pq stream_id b m).kept ≡ some kept
        → let h = handle_stream pq stream_id b m in
          Tracks pq (m ∷ seen) kept
          × (kept.seq_num ≡ b.seq_num + length h.forwarded)
          × (map sequence_number h.forwarded ≡ count_up b.seq_num (length h.forwarded))
          × (ends h.forwarded ≡ 0)
    handle_stream-Tracks kept e =
        let o = in_order pq seen b m t v in
        let (f, out, next, held, ack) = kept_cases kept e in
        let n = push_numbers pq seen b m t v in
        let k = clear-push-Tracks pq seen b m t v f in
        (
          record {
            in_range = omega (arith, next, k.in_range);
            acknowledged = ground (arith, next, ack, k.acknowledged);
            arrived = λ i h. k.arrived i (omega (arith, next, h));
            expected = ap (λ i. with_number i (m ∷ seen)) next ∙ k.expected;
            forwarded = λ i h. rw held (k.forwarded i (omega (arith, next, h)));
            waiting = λ i h. rw held (k.waiting i (omega (arith, next, h)));
          },
          rw out (omega (arith, next, o.expected, n)),
          rw out (o.numbers ∙ ap (λ k. count_up k (length (clear pq (push pq b m)).forwarded)) n.0),
          rw out ((clear-Ended pq (push pq b m) (push-Bounded pq seen b m t v)).1 f),
        )

    -- Either the stream ends with what is forwarded, and the buffer is dropped, or nothing that is
    -- forwarded ends it, and a buffer is kept.
    pub handle_stream_end :
        let h = handle_stream pq stream_id b m in
        (map sequence_number h.forwarded ≡ count_up b.seq_num (length h.forwarded))
        × (((h.kept ≡ none)
              × (closes h.forwarded ≡ true)
              × (h.sent
                  ≡ message_acknowledgement stream_id (b.seq_num + length h.forwarded - 1) ∷ []))
            ⊎ ((kept : Buffer pq) × (h.kept ≡ some kept) × (ends h.forwarded ≡ 0)))
    handle_stream_end = elim (Option-cases (handle_stream pq stream_id b m).kept) [
      | inl none_kept ↦
          let (closed, numbers, sent) = dropped none_kept in
          (numbers, inl (none_kept, closed, sent))
      | inr (kept, e) ↦
          let (_, _, numbers, unended) = handle_stream-Tracks kept e in
          (numbers, inr (kept, e, unended))
    ]

-- A stream whose buffer and next message hold no end of stream goes on, and its buffer holds none.
module _ (pq : PriorityQueue ServerMessage greater_seq_num) where
  open pq use {items}

  push_unended :
      (b : Buffer pq) (m : ServerMessage)
      → ends (items b.buffer) ≡ 0
      → m.end_of_stream ≡ false
      → ends (items (push pq b m).buffer) ≡ 0
  unfolding push
  push_unended b m z e = ground (arith, pq.items-emplace (λ x. x.end_of_stream) m b.buffer)

  pub unended_kept :
      (stream_id : ℕ) (b : Buffer pq) (m : ServerMessage)
      → ends (items b.buffer) ≡ 0
      → m.end_of_stream ≡ false
      → (kept : Buffer pq) × ((handle_stream pq stream_id b m).kept ≡ some kept)
        × (ends (items kept.buffer) ≡ 0)
  unfolding handle_stream reset_sequence_number_ack
  unended_kept stream_id b m z e =
      let c = clear pq (push pq b m) in
      let (f, held, _) = clear-unended pq (push pq b m) (push_unended b m z e) in
      elim (Bool-cases (leb (u64 (c.after.seq_num_ack + stream_msg_ack_window)) c.after.seq_num)) [
        | inl due ↦ (reset_sequence_number_ack pq c.after, ground arith, held)
        | inr early ↦ (c.after, ground arith, held)
      ]
