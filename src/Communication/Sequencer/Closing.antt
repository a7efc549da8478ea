-- ===== src/Communication/Sequencer/Closing.antt =====
-- When the layer drops the buffer of a stream.
use helpers.Prelude.{
  ◌+◌, ◌-◌, ◌≡◌, ◌∙◌, ap, sym, subst, true, ◌⊎◌, inl, inr, none, some, find, find-put, find-erase,
  List, [], ◌∷◌, length, map, count_up, arith,
}
use helpers.Communication.PriorityQueue.{PriorityQueue}
use helpers.Communication.Sequencer.{
  ServerMessage, MessageStream, sequence_number, greater_seq_num, Buffer, Buffers, buffer_of, keep,
  Outcome, on_message, dispatch, message_acknowledgement,
}
use helpers.Communication.Sequencer.Pop.{ends}
use helpers.Communication.Sequencer.End.{closes}
use helpers.Communication.Sequencer.Stream.{Tracks, InRange}
use helpers.Communication.Sequencer.Handler.{handle_stream_end}

module _ (pq : PriorityQueue ServerMessage greater_seq_num) where
  -- What comes of a message of the stream `ms`: either the stream ends, or it goes on.
  abbrev pub Ends : Buffers pq → MessageStream → Outcome pq → Type 0
  Ends bs ms o =
      let id = ms.stream_id in
      let expected = (buffer_of pq id bs).seq_num in
      (map sequence_number o.forwarded ≡ count_up expected (length o.forwarded))
      × (((closes o.forwarded ≡ true)
            × (find id o.buffers ≡ none)
            × (o.sent ≡ message_acknowledgement id (expected + length o.forwarded - 1) ∷ []))
          ⊎ ((ends o.forwarded ≡ 0) × ((kept : Buffer pq) × (find id o.buffers ≡ some kept))))

  -- What is forwarded for a message of a stream has the numbers from the expected one on. Either
  -- the last of these messages ends the stream and no earlier one does; then the layer has no
  -- buffer of the stream any more, and sends the acknowledgement of that last number alone. Or none
  -- of them ends the stream, and the layer has a buffer of it. `seen` has arrived in the stream
  -- before, and no message has the largest number.
  pub on_message_end :
      (seen : List ServerMessage) (bs : Buffers pq) (m : ServerMessage) (ms : MessageStream)
      → m.stream ≡ some ms
      → Tracks pq seen (buffer_of pq ms.stream_id bs)
      → InRange pq (m ∷ seen)
      → Ends bs ms (on_message pq bs m)
  unfolding on_message dispatch
  on_message_end seen bs m ms e t v =
      let id = ms.stream_id in
      let (numbers, how) = handle_stream_end pq id seen (buffer_of pq id bs) m t v in
      subst (λ x. Ends bs ms (dispatch pq bs m x)) (sym e)
        (
          numbers,
          elim how [
            | inl (dropped, closed, sent) ↦ inl (
              closed,
              ap (λ k. find id (keep pq id k bs)) dropped ∙ ground (arith, find-erase id id bs),
              sent,
            )
            | inr (kept, is, unended) ↦ inr (
              unended,
              (
                kept,
                ap (λ k. find id (keep pq id k bs)) is ∙ ground (arith, find-put id id kept bs),
              ),
            )
          ],
        )
