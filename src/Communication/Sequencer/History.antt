-- ===== src/Communication/Sequencer/History.antt =====
-- The layer over a history of messages of several streams, in any interleaving.
use helpers.Prelude.{
  ℕ, ◌<◌, ◌≡◌, refl, ap, ap₂, sym, suc, ◌+◌, ◌≤◌, ltb, length-map, length-count_up, ◌∙◌, Bool, true,
  false, ◌==◌, if◌then◌else◌, inl, inr, Option, Bool-cases, none, some, List, [], ◌∷◌, ◌++◌, length,
  map, map-append, arith, count_up, count_up_zero, find-put, find-erase,
}
use helpers.Communication.PriorityQueue.{PriorityQueue}
use helpers.Communication.Sequencer.{
  StreamControl, message_stream_reset, message_request, message_acknowledgement,
  stream_msg_ack_window, ServerMessage, MessageStream, sequence_number, greater_seq_num, Buffer,
  Buffers, buffer_of, keep, on_message, dispatch, handle_stream,
}
use helpers.Communication.Sequencer.Pop.{with_number, ends}
use helpers.Communication.Sequencer.Stream.{Tracks, Tracks-new, InRange}
use helpers.Communication.Sequencer.Handler.{
  acknowledged_to, kept_acknowledged, handle_stream-Tracks, unended_kept,
}

abbrev pub is_stream : ℕ → Option MessageStream → Bool
is_stream i none = false
is_stream i (some ms) = ms.stream_id == i

abbrev pub in_stream : ℕ → ServerMessage → Bool
in_stream i m = is_stream i m.stream

-- Histories have the newest message first.
abbrev pub of_stream : ℕ → List ServerMessage → List ServerMessage
of_stream i [] = []
of_stream i (m ∷ ms) = if in_stream i m then m ∷ of_stream i ms else of_stream i ms

module _ (pq : PriorityQueue ServerMessage greater_seq_num) where
  open pq use {items}

  -- `m_buffers` after the messages.
  unfoldable pub run : List ServerMessage → Buffers pq
  run [] = []
  run (m ∷ ms) = (on_message pq (run ms) m).buffers

  -- What is forwarded while the messages of stream `i` are handled, in that order.
  unfoldable pub forwarded_for : ℕ → List ServerMessage → List ServerMessage
  unfolding run
  forwarded_for i [] = []
  forwarded_for i (m ∷ ms) =
      if in_stream i m
      then forwarded_for i ms ++ (on_message pq (run ms) m).forwarded
      else forwarded_for i ms

  -- What is sent while the messages, of all streams, are handled, in that order.
  unfoldable pub sent_in : List ServerMessage → List StreamControl
  unfolding run
  sent_in [] = []
  sent_in (m ∷ ms) = sent_in ms ++ (on_message pq (run ms) m).sent

  -- The state of one stream: its buffer tracks what has arrived, none of which ends the stream.
  record Follows (i : ℕ) (ms : List ServerMessage) : Type 0 where
    tracks : Tracks pq (of_stream i ms) (buffer_of pq i (run ms))
    no_end : ends (items (buffer_of pq i (run ms)).buffer) ≡ 0
    numbers :
        map sequence_number (forwarded_for i ms) ≡ count_up 0 (buffer_of pq i (run ms)).seq_num
    window : let b = buffer_of pq i (run ms) in b.seq_num < b.seq_num_ack + stream_msg_ack_window
    acknowledged : acknowledged_to i 0 (sent_in ms) ≡ (buffer_of pq i (run ms)).seq_num_ack

  start-Follows : (i : ℕ) → Follows i []
  unfolding run forwarded_for sent_in
  start-Follows i = record {
    tracks = Tracks-new pq;
    no_end = rw pq.items-empty;
    numbers = refl;
    window = omega arith;
    acknowledged = refl;
  }

  buffer_of-keep_self :
      (i : ℕ) (kept : Buffer pq) (bs : Buffers pq)
      → buffer_of pq i (keep pq i (some kept) bs) ≡ kept
  buffer_of-keep_self i kept bs = ground (arith, find-put i i kept bs)

  buffer_of-keep_ne :
      (i j : ℕ) (kept : Option (Buffer pq)) (bs : Buffers pq)
      → (j == i) ≡ false
      → buffer_of pq i (keep pq j kept bs) ≡ buffer_of pq i bs
  buffer_of-keep_ne i j none bs h = ground (arith, find-erase j i bs)
  buffer_of-keep_ne i j (some kept) bs h = ground (arith, find-put j i kept bs)

  -- A message that is not of stream `i` leaves the stream's buffer alone.
  dispatch_other :
      (i : ℕ) (m : ServerMessage) (bs : Buffers pq) (ms : Option MessageStream)
      → is_stream i ms ≡ false
      → buffer_of pq i (dispatch pq bs m ms).buffers ≡ buffer_of pq i bs
  unfolding dispatch
  dispatch_other i m bs none h = refl
  dispatch_other i m bs (some ms) h =
      buffer_of-keep_ne i ms.stream_id
        (handle_stream pq ms.stream_id (buffer_of pq ms.stream_id bs) m).kept bs h

  handle_stream_sent_other :
      (i j n : ℕ) (b : Buffer pq) (m : ServerMessage)
      → (j == i) ≡ false
      → acknowledged_to i n (handle_stream pq j b m).sent ≡ n
  unfolding handle_stream
  handle_stream_sent_other i j n b m h = ground arith

  dispatch_sent_other :
      (i n : ℕ) (m : ServerMessage) (bs : Buffers pq) (ms : Option MessageStream)
      → is_stream i ms ≡ false
      → acknowledged_to i n (dispatch pq bs m ms).sent ≡ n
  unfolding dispatch
  dispatch_sent_other i n m bs none h = refl
  dispatch_sent_other i n m bs (some ms) h =
      handle_stream_sent_other i ms.stream_id n (buffer_of pq ms.stream_id bs) m h

  acknowledged_to-append :
      (i n : ℕ) (xs ys : List StreamControl)
      → acknowledged_to i n (xs ++ ys) ≡ acknowledged_to i (acknowledged_to i n xs) ys
  acknowledged_to-append i n [] ys = refl
  acknowledged_to-append i n (message_stream_reset ∷ xs) ys = acknowledged_to-append i n xs ys
  acknowledged_to-append i n (message_request j lower upper ∷ xs) ys =
      acknowledged_to-append i n xs ys
  acknowledged_to-append i n (message_acknowledgement j k ∷ xs) ys =
      acknowledged_to-append i (if j == i then suc k else n) xs ys

  dispatch_own :
      (i : ℕ) (m : ServerMessage) (bs : Buffers pq) (ms : Option MessageStream) (kept : Buffer pq)
      → is_stream i ms ≡ true
      → (handle_stream pq i (buffer_of pq i bs) m).kept ≡ some kept
      → (buffer_of pq i (dispatch pq bs m ms).buffers ≡ kept)
        × ((dispatch pq bs m ms).forwarded ≡ (handle_stream pq i (buffer_of pq i bs) m).forwarded)
        × ((dispatch pq bs m ms).sent ≡ (handle_stream pq i (buffer_of pq i bs) m).sent)
  unfolding dispatch
  dispatch_own i m bs none kept h e = cc
  dispatch_own i m bs (some ms) kept h e =
      let same : ms.stream_id ≡ i = ground arith in
      rw (same, e) (buffer_of-keep_self i kept bs, refl, refl)

  module _ (i : ℕ) (m : ServerMessage) (ms : List ServerMessage) where
    other-Follows : in_stream i m ≡ false → Follows i ms → Follows i (m ∷ ms)
    unfolding run forwarded_for sent_in on_message
    other-Follows h f =
        let e = dispatch_other i m (run ms) m.stream h in
        record {
          tracks = rw (h, e) f.tracks;
          no_end = rw e f.no_end;
          numbers = rw (h, e) f.numbers;
          window = rw e f.window;
          acknowledged = rw e (
              acknowledged_to-append i 0 (sent_in ms) (dispatch pq (run ms) m m.stream).sent
              ∙ dispatch_sent_other i (acknowledged_to i 0 (sent_in ms)) m (run ms) m.stream h
              ∙ f.acknowledged);
        }

    own-Follows :
        in_stream i m ≡ true
        → m.end_of_stream ≡ false
        → InRange pq (m ∷ of_stream i ms)
        → Follows i ms
        → Follows i (m ∷ ms)
    unfolding run forwarded_for sent_in on_message
    own-Follows h e v f =
        let b = buffer_of pq i (run ms) in
        let (kept, ek, z) = unended_kept pq i b m f.no_end e in
        let (t, n, out, _) = handle_stream-Tracks pq i (of_stream i ms) b m f.tracks v kept ek in
        let (wide, noted) = kept_acknowledged pq i (of_stream i ms) b m f.tracks v kept ek in
        let (eb, eo, es) = dispatch_own i m (run ms) m.stream kept h ek in
        let h' = handle_stream pq i b m in
        record {
          tracks = rw (h, eb) t;
          no_end = rw eb z;
          numbers =
              rw (h, eo, eb, n)
                (map-append sequence_number (forwarded_for i ms) h'.forwarded
                  ∙ ap₂ ◌++◌ f.numbers out
                  ∙ count_up_zero b.seq_num (length h'.forwarded));
          window = rw eb wide;
          acknowledged =
              rw (eb, es)
                (acknowledged_to-append i 0 (sent_in ms) h'.sent
                  ∙ ap (λ n. acknowledged_to i n h'.sent) f.acknowledged
                  ∙ noted);
        }

  follows :
      (i : ℕ) (ms : List ServerMessage)
      → ends (of_stream i ms) ≡ 0
      → InRange pq (of_stream i ms)
      → Follows i ms
  follows i [] e v = start-Follows i
  follows i (m ∷ ms) e v = elim (Bool-cases (in_stream i m)) [
    | inl own ↦
        let e' = rw own at e in
        let v' = rw own at v in
        own-Follows i m ms own (ground arith) v'
          (follows i ms (ground arith) (λ n h. ground (arith, v' n h)))
    | inr other ↦ other-Follows i m ms other (follows i ms (rw other at e) (rw other at v))
  ]

  -- In any interleaving of streams, what is forwarded for one that has not ended has the numbers
  -- 0, 1, 2, …, up to the one before the number that the stream's buffer then expects.
  pub forwarded_in_order :
      (i : ℕ) (ms : List ServerMessage)
      → ends (of_stream i ms) ≡ 0
      → InRange pq (of_stream i ms)
      → map sequence_number (forwarded_for i ms) ≡ count_up 0 (buffer_of pq i (run ms)).seq_num
  forwarded_in_order i ms e v = (follows i ms e v).numbers

  -- In any interleaving of streams, for one that has not ended and whose numbers are below the
  -- largest uint64_t: the number that the stream's buffer expects has not arrived in the stream, and
  -- each number below it has arrived at least once.
  pub expected_least :
      (i : ℕ) (ms : List ServerMessage) (n : ℕ)
      → ends (of_stream i ms) ≡ 0
      → InRange pq (of_stream i ms)
      → let expected = (buffer_of pq i (run ms)).seq_num in
        (with_number expected (of_stream i ms) ≡ 0)
        × ((if ltb n expected then 1 else 0) ≤ with_number n (of_stream i ms))
  expected_least i ms n e v =
      let t = (follows i ms e v).tracks in (t.expected, ground (arith, t.arrived n))

  -- In any interleaving of streams, for one that has not ended and whose numbers are below the
  -- largest uint64_t: what is acknowledged, in all that is sent, has been forwarded, and fewer than `STREAM_MSG_ACK_WINDOW` messages have been
  -- forwarded that are not acknowledged.
  pub acknowledged_window :
      (i : ℕ) (ms : List ServerMessage)
      → ends (of_stream i ms) ≡ 0
      → InRange pq (of_stream i ms)
      → let forwarded = length (forwarded_for i ms) in
        let acknowledged = acknowledged_to i 0 (sent_in ms) in
        (acknowledged ≤ forwarded) × (forwarded < acknowledged + stream_msg_ack_window)
  acknowledged_window i ms e v =
      let f = follows i ms e v in
      let expected = (buffer_of pq i (run ms)).seq_num in
      let same : length (forwarded_for i ms) ≡ expected =
        sym (length-map sequence_number (forwarded_for i ms))
        ∙ ap length f.numbers
        ∙ length-count_up 0 expected in
      (
        omega (arith, same, f.acknowledged, f.tracks.acknowledged),
        omega (arith, same, f.acknowledged, f.window),
      )
