-- ===== src/Communication/Sequencer/Tests.antt =====
-- Tests of the sequencer, and its theorems at concrete messages: 2, 1, 0 and 4 of stream 7 arrive,
-- with a message of stream 9 between them.
use helpers.Prelude.{
  ℕ, suc, ◌+◌, ◌*◌, ◌<◌, ◌≤◌, ◌≡◌, refl, Bool, true, false, leb, ltb, if◌then◌else◌, ◌⊎◌, some,
  count_up, List, [], ◌∷◌, length, map, arith, count_if,
}
use helpers.Communication.PriorityQueue.{PriorityQueue}
use helpers.Communication.PriorityQueue.Listed.{listed}
use helpers.Communication.Sequencer.{
  MessageStream, ServerMessage, sequence_number, greater_seq_num, new_buffer, push, clear,
  clear_loop, missing, handle_stream, message_request, stream_msg_ack_window, buffer_of, on_message,
  dispatch,
}
use helpers.Communication.Sequencer.Pop.{with_number}
use helpers.Communication.Sequencer.Closing.{Ends, on_message_end}
use helpers.Communication.Sequencer.Stream.{Tracks-new}
use helpers.Communication.Sequencer.Handler.{missing_gap, acknowledged_to}
use helpers.Communication.Sequencer.History.{
  of_stream, run, forwarded_for, forwarded_in_order, expected_least, sent_in, acknowledged_window,
}

greater_asym : (a b : ServerMessage) → greater_seq_num a b ≡ true → greater_seq_num b a ≡ false
greater_asym a b h = ground arith

greater_via :
    (a b c : ServerMessage)
    → greater_seq_num a b ≡ false
    → greater_seq_num b c ≡ false
    → greater_seq_num a c ≡ false
greater_via a b c h k = ground arith

abbrev queue : PriorityQueue ServerMessage greater_seq_num
unfolding listed
queue = listed greater_seq_num greater_asym greater_via

abbrev message : ℕ → ℕ → Bool → ServerMessage
message i n last = record {
  stream = some (record { stream_id = i; sequence_number = n });
  end_of_stream = last;
  body = 10 * n;
}

abbrev arrived : List ServerMessage
arrived =
    message 7 4 false
    ∷ message 7 0 false
    ∷ message 9 0 false
    ∷ message 7 1 false
    ∷ message 7 2 false
    ∷ []

-- 0, 1 and 2 are forwarded when 0 arrives; then 4 waits for 3.
in_order_test : map sequence_number (forwarded_for queue 7 arrived) ≡ 0 ∷ 1 ∷ 2 ∷ []
unfolding listed forwarded_for run on_message dispatch handle_stream push clear clear_loop
in_order_test = refl

forwarded_in_order_example :
    map sequence_number (forwarded_for queue 7 arrived)
    ≡ count_up 0 (buffer_of queue 7 (run queue arrived)).seq_num
forwarded_in_order_example = forwarded_in_order queue 7 arrived refl (λ n h. ground arith)

expected_least_example :
    let expected = (buffer_of queue 7 (run queue arrived)).seq_num in
    (with_number expected (of_stream 7 arrived) ≡ 0)
    × ((if ltb 2 expected then 1 else 0) ≤ with_number 2 (of_stream 7 arrived))
expected_least_example = expected_least queue 7 arrived 2 refl (λ n h. ground arith)

acknowledged_window_example :
    let forwarded = length (forwarded_for queue 7 arrived) in
    let acknowledged = acknowledged_to 7 0 (sent_in queue arrived) in
    (acknowledged ≤ forwarded) × (forwarded < acknowledged + stream_msg_ack_window)
acknowledged_window_example = acknowledged_window queue 7 arrived refl (λ n h. ground arith)

-- One message, 3, arrives for a new buffer: 0 to 2 are requested.
missing_gap_example :
    let c = clear queue (push queue (new_buffer queue) (message 7 3 false)) in
    ((queue.items c.after.buffer ≡ []) × (missing queue 7 c ≡ []))
    ⊎ ((missing queue 7 c ≡ message_request 7 c.after.seq_num c.last ∷ [])
        × (c.after.seq_num ≤ c.last)
        × (0 < with_number (suc c.last) (queue.items c.after.buffer))
        × (count_if (λ x. leb (sequence_number x) c.last) (queue.items c.after.buffer) ≡ 0))
unfolding listed push clear clear_loop
missing_gap_example =
    missing_gap queue 7 [] (new_buffer queue) (message 7 3 false) (Tracks-new queue)
      (λ n h. ground arith) refl

requested :
    (handle_stream queue 7 (new_buffer queue) (message 7 3 false)).sent ≡ message_request 7 0 2 ∷ []
unfolding listed handle_stream push clear clear_loop
requested = refl

abbrev first_of_seven : MessageStream
first_of_seven = record { stream_id = 7; sequence_number = 0 }

on_message_end_example : Ends queue [] first_of_seven (on_message queue [] (message 7 0 true))
on_message_end_example =
    on_message_end queue [] [] (message 7 0 true) first_of_seven refl (Tracks-new queue)
      (λ n h. ground arith)

-- The stream ends with its first message, and the layer keeps no buffer of it.
ended_at_once : (on_message queue [] (message 7 0 true)).buffers ≡ []
unfolding listed on_message dispatch handle_stream push clear clear_loop
ended_at_once = refl
