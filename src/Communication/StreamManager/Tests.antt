-- ===== src/Communication/StreamManager/Tests.antt =====
-- Tests of the stream manager, and its theorem on a run where a place is used again.
use helpers.Prelude.{ℕ, suc, if◌then◌else◌, true, none, some, [], ◌∷◌, length, ◌≡◌, refl, arith}
use helpers.Communication.StreamManager.{
  ServerMessage, predicate, callback, on_server_message, Streams, nth, Object, StreamManager,
  constructed, create, destroy, handle_message_stream_reset,
}
use helpers.Communication.StreamManager.Runs.{Reach, starts, creates, destroys}
use helpers.Communication.StreamManager.Reached.{to_request_or, messages_reach}

-- Streams that count what happens to them: messages, resets and closings.
abbrev counting : Streams
counting = record {
  Stream = ℕ × ℕ × ℕ;
  created = λ id. (0, 0, 0);
  handle_message_request = λ lower upper s. (suc s.0, s.1, s.2);
  handle_message_acknowledgement = λ acknowledged s. (suc s.0, s.1, s.2);
  reset = λ s. (s.0, suc s.1, s.2);
  close = λ s. (s.0, s.1, suc s.2);
}

-- Of two streams the first is destroyed, and a third takes its place.
abbrev third : StreamManager counting
third =
    create counting (destroy counting 0 (create counting (create counting (constructed counting))))

third_streams : third.streams ≡ 2 ∷ 1 ∷ []
unfolding create destroy
third_streams = refl

-- The handler resets a stream by its id, and with all.
reset_twice :
    nth
      (handle_message_stream_reset counting none
        (handle_message_stream_reset counting (some 2) third)).objects
      2
    ≡ some (record { stream_id = 2; slot = 0; alive = true; stream = (0, 2, 0) })
unfolding create destroy handle_message_stream_reset
reset_twice = refl

abbrev reset_message : ServerMessage
reset_message = record {
  message_request = none;
  message_acknowledgement = none;
  message_stream_reset = some none;
}

abbrev request_message : ServerMessage
request_message = record {
  message_request = some (1, 3, 4);
  message_acknowledgement = none;
  message_stream_reset = none;
}

-- The callback would reset all streams; the predicate drops the message.
reset_called :
    nth (callback counting reset_message third).objects 2
    ≡ some (record { stream_id = 2; slot = 0; alive = true; stream = (0, 1, 0) })
unfolding create destroy callback handle_message_stream_reset
reset_called = refl

reset_dropped : on_server_message counting reset_message third ≡ third
unfolding on_server_message predicate
reset_dropped = refl

abbrev second_object : Object counting
second_object = record { stream_id = 1; slot = 1; alive = true; stream = (0, 0, 0) }

second_stands : nth third.objects 1 ≡ some second_object
unfolding create destroy
second_stands = refl

two_objects :
    length (destroy counting 0 (create counting (create counting (constructed counting)))).objects
    ≡ 2
unfolding create destroy
two_objects = refl

one_object : length (create counting (constructed counting)).objects ≡ 1
unfolding create
one_object = refl

third-Reach : Reach counting third
third-Reach =
    creates (destroys 0 (creates (creates starts (omega arith)) (omega (arith, one_object))))
      (omega (arith, two_objects))

messages_reach_example :
    ((if second_object.alive then second_object.stream_id else 1) ≡ 1)
    × ((if second_object.alive then nth third.streams second_object.slot else some 1) ≡ some 1)
    × (nth (on_server_message counting request_message third).objects 1
        ≡ some (
            to_request_or counting request_message.message_request
              request_message.message_acknowledgement second_object))
messages_reach_example =
    messages_reach counting request_message 1 second_object third-Reach second_stands
